-- ===== src/Packages/Updating.antt =====
-- internal/dms/storage/packages.go, Update: it neither validates the package nor mends the name index.
use netweave.Common.{
  String, ◌≡◌, refl, ◌≢◌, inl, inr, Bool, true, false, some, arith, if◌then◌else◌, contains, lookup,
  insert, lookup-insert, eq_iff, eq_refl, String-cases, Option-cases, ◌==◌, ok, sym, ◌∙◌, ap,
}
use netweave.Packages.{Package, PackageStore, ids_of, copy_package, update}
use netweave.Packages.Invariant.{IsConsistent}

pub record Updated (s t : PackageStore) (p old : Package) : Type 0 where
  pub found : lookup p.id s.packages ≡ some old
  pub stored : t ≡ record s { packages = insert p.id (copy_package p) s.packages }

pub update-Updated :
    (cancelled : Bool) (s t : PackageStore) (p : Package)
    → update cancelled s (some p) ≡ ok t
    → (old : Package) × Updated s t p old
unfolding update
update-Updated cancelled s t p h = elim (Option-cases (lookup p.id s.packages)) [
  | inl e ↦ absurd (ground arith)
  | inr (old, e) ↦ (old, record { found = e; stored = ground arith })
]

-- The copy that `update` stores has the new package's identifier, name and version.
pub copy_package_fields :
    (p : Package)
    → ((copy_package p).id ≡ p.id)
      × ((copy_package p).name ≡ p.name)
      × ((copy_package p).version ≡ p.version)
unfolding copy_package
copy_package_fields p = ground arith

module _ {s t : PackageStore} {p old : Package} (u : Updated s t p old) where
  pub lookup-updated :
      (i : String)
      → lookup i t.packages ≡ (if p.id == i then some (copy_package p) else lookup i s.packages)
  lookup-updated i =
      rw (ap (λ r. r.packages) u.stored) (lookup-insert p.id i (copy_package p) s.packages)

  pub updated_index : t.by_name ≡ s.by_name
  updated_index = ap (λ r. r.by_name) u.stored

  updated_content : t.content ≡ s.content
  updated_content = ap (λ r. r.content) u.stored

  -- An update that keeps the name, and takes no version of another package, keeps the store
  -- consistent.
  module _ (v : IsConsistent s) (same_name : p.name ≡ old.name)
      (free : (j : String) (q : Package)
        → lookup j s.packages ≡ some q
        → q.name ≡ p.name
        → q.version ≡ p.version
        → j ≡ p.id) where
    Updated-backed :
        (name i : String)
        → contains (ids_of name t.by_name) i ≡ true
        → (q : Package) × (lookup i t.packages ≡ some q) × (q.name ≡ name)
    Updated-backed name i c =
        let (q, e, n) = v.backed name i (rw updated_index at c) in
        elim (String-cases p.id i) [
          | inl (b, same) ↦ (
            copy_package p,
            ground (arith, lookup-updated i),
            ground (arith, copy_package_fields p, u.found),
          )
          | inr (b, _) ↦ (q, ground (arith, lookup-updated i), n)
        ]

    Updated-single :
        (i j : String) (q r : Package)
        → lookup i t.packages ≡ some q
        → lookup j t.packages ≡ some r
        → q.name ≡ r.name
        → q.version ≡ r.version
        → i ≡ j
    Updated-single i j q r e f n w = elim (String-cases p.id i) [
      | inl (b, same) ↦ elim (String-cases p.id j) [
        | inl (c, other) ↦ sym same ∙ other
        | inr (c, _) ↦
            sym same
            ∙ sym (
                free j r (ground (arith, lookup-updated j))
                  (ground (arith, lookup-updated i, copy_package_fields p))
                  (ground (arith, lookup-updated i, copy_package_fields p)))
      ]
      | inr (b, _) ↦ elim (String-cases p.id j) [
        | inl (c, other) ↦
            free i q (ground (arith, lookup-updated i))
              (ground (arith, lookup-updated j, copy_package_fields p))
              (ground (arith, lookup-updated j, copy_package_fields p))
            ∙ other
        | inr (c, _) ↦
            v.single i j q r (ground (arith, lookup-updated i)) (ground (arith, lookup-updated j)) n
              w
      ]
    ]

    Updated-indexed :
        (i : String) (q : Package)
        → lookup i t.packages ≡ some q
        → contains (ids_of q.name t.by_name) i ≡ true
    Updated-indexed i q e = rw updated_index (
        ground (
          arith,
          eq_iff p.id i,
          lookup-updated i,
          u.found,
          copy_package_fields p,
          v.indexed i q,
          v.indexed p.id old,
        ))

    Updated-IsConsistent : IsConsistent t
    Updated-IsConsistent = record {
      keyed = λ i q e.
          ground (arith, eq_iff p.id i, lookup-updated i, copy_package_fields p, v.keyed i q);
      indexed = Updated-indexed;
      backed = Updated-backed;
      single = Updated-single;
      distinct = rw updated_index v.distinct;
      owned = λ i e. ground (arith, v.owned i, lookup-updated i, updated_content);
    }

  -- A rename leaves the identifier in the index under the old name.
  Updated-rename : IsConsistent s → p.name ≢ old.name → ¬ IsConsistent t
  Updated-rename v renamed w =
      let still = v.indexed p.id old u.found in
      let (q, e, n) = w.backed old.name p.id (rw updated_index still) in
      renamed (ground (arith, eq_refl p.id, lookup-updated p.id, copy_package_fields p))

-- update keeps the store consistent when the package keeps its name and its version is not that of
-- another package of the name.
pub update-IsConsistent :
    (cancelled : Bool) (s : PackageStore) (p old : Package) {t : PackageStore}
    → update cancelled s (some p) ≡ ok t
    → IsConsistent s
    → lookup p.id s.packages ≡ some old
    → p.name ≡ old.name
    → ((j : String) (q : Package)
        → lookup j s.packages ≡ some q
        → q.name ≡ p.name
        → q.version ≡ p.version
        → j ≡ p.id)
    → IsConsistent t
update-IsConsistent cancelled s p old {t} h v found same free =
    let (was, u) = update-Updated cancelled s t p h in
    Updated-IsConsistent u v (ground (arith, u.found)) free

-- update of a package under another name is accepted, and leaves the store inconsistent.
pub update_rename-inconsistent :
    (s : PackageStore) (p old : Package)
    → IsConsistent s
    → lookup p.id s.packages ≡ some old
    → p.name ≢ old.name
    → (t : PackageStore) × (update false s (some p) ≡ ok t) × ¬ IsConsistent t
unfolding update
update_rename-inconsistent s p old v found renamed =
    let e : update false s (some p)
        ≡ ok (record s { packages = insert p.id (copy_package p) s.packages }) =
      ground arith in
    (
      record s { packages = insert p.id (copy_package p) s.packages },
      e,
      Updated-rename (record { found = found; stored = refl }) v renamed,
    )
