-- ===== src/Packages/Reading.antt =====
-- internal/dms/storage/packages.go: what Get, GetByNameVersion and ListVersions return.
use netweave.Common.{
  ℕ, String, ◌≡◌, refl, ◌≢◌, inl, inr, Bool, true, false, some, List, [], ◌∷◌, arith, contains, Map,
  lookup, lookup-erase, eq_iff, eq_refl, String-cases, Option-cases, ok, err,
}
use netweave.Packages.{
  Package, PackageStore, ids_of, copy_package, create, get, find_version, get_by_name_version,
  get_content, package_not_found, delete,
}
use netweave.Packages.Index.{version_taken-false}
use netweave.Packages.Invariant.{IsConsistent}
use netweave.Packages.Deleting.{delete-Deleted, lookup-deleted}
use netweave.Packages.Creating.{
  create-Created, create-IsConsistent, stored_package, lookup-store_package, stored_package_fields,
}

-- The loop finds the version where it is, in whatever place the identifier stands.
find_version-some :
    (ps : Map Package) (v : String) (ids : List String) (id : String) (p : Package)
    → contains ids id ≡ true
    → lookup id ps ≡ some p
    → p.version ≡ v
    → ((j : String) (q : Package)
        → contains ids j ≡ true
        → lookup j ps ≡ some q
        → q.version ≡ v
        → j ≡ id)
    → find_version ps v ids ≡ ok (copy_package p)
unfolding find_version
find_version-some ps v [] id p c e w only = cc
find_version-some ps v (x ∷ ids) id p c e w only = elim (String-cases x id) [
  | inl (t, same) ↦ ground (arith, eq_iff p.version v)
  | inr (f, apart) ↦ elim (Option-cases (lookup x ps)) [
    | inl missed ↦
        rw (missed, find_version)
          (find_version-some ps v ids id p (ground arith) e w
            (λ j q d g z. only j q (ground arith) g z))
    | inr (q, hit) ↦ elim (String-cases q.version v) [
      | inl (u, as_wanted) ↦ absurd (apart (only x q (rw (eq_refl x)) hit as_wanted))
      | inr (u, _) ↦
          rw (hit, find_version)
            (rw u (
              find_version-some ps v ids id p (ground arith) e w
                (λ j r d g z. only j r (ground arith) g z)))
    ]
  ]
]

-- What the loop returns is the copy of a package that the index names.
find_version_sound :
    (ps : Map Package) (v : String) (ids : List String) {r : Package}
    → find_version ps v ids ≡ ok r
    → (id : String) × (p : Package) × (contains ids id ≡ true)
      × (lookup id ps ≡ some p)
      × (p.version ≡ v)
      × (r ≡ copy_package p)
unfolding find_version
find_version_sound ps v [] h = absurd (ground arith)
find_version_sound ps v (x ∷ ids) {r} h = elim (Option-cases (lookup x ps)) [
  | inl missed ↦
      let (id, p, c, e, w, same) = find_version_sound ps v ids (rw (missed, find_version) at h) in
      (id, p, ground arith, e, w, same)
  | inr (q, hit) ↦ elim (String-cases q.version v) [
    | inl (u, as_wanted) ↦ (x, q, ground (arith, eq_refl x), hit, as_wanted, ground arith)
    | inr (u, _) ↦
        let (id, p, c, e, w, same) = find_version_sound ps v ids (ground arith) in
        (id, p, ground arith, e, w, same)
  ]
]

-- In a consistent store, a package is found by its name and version: `get_by_name_version` returns
-- the copy of the package that stands under `id`.
pub get_by_name_version-stored :
    (s : PackageStore) (id : String) (p : Package)
    → IsConsistent s
    → lookup id s.packages ≡ some p
    → get_by_name_version false s p.name p.version ≡ ok (copy_package p)
unfolding get_by_name_version
get_by_name_version-stored s id p v e = elim (Option-cases (lookup p.name s.by_name)) [
  | inl missing ↦ absurd (ground (arith, v.indexed id p e))
  | inr (ids, there) ↦ rw there (
      find_version-some s.packages p.version ids id p (ground (arith, v.indexed id p e)) e refl
        λ j q c g w.
          let (r, f, n) = v.backed p.name j (ground arith) in
          v.single j id q p g e (ground arith) w)
]

-- In a consistent store, what `get_by_name_version` returns is the copy of a stored package of that
-- name and version.
pub get_by_name_version_sound :
    (s : PackageStore) (name version : String) (r : Package)
    → IsConsistent s
    → get_by_name_version false s name version ≡ ok r
    → (id : String) × (p : Package) × (lookup id s.packages ≡ some p)
      × (p.name ≡ name)
      × (p.version ≡ version)
      × (r ≡ copy_package p)
unfolding get_by_name_version
get_by_name_version_sound s name version r v h = elim (Option-cases (lookup name s.by_name)) [
  | inl missing ↦ absurd (ground arith)
  | inr (ids, there) ↦
      let (id, p, c, e, w, same) = find_version_sound s.packages version ids (rw there at h) in
      let (q, f, n) = v.backed name id (ground arith) in (id, p, e, ground arith, w, same)
]

-- After a successful `create` of `p` in a consistent store, `get` returns the copy of `p` with its
-- upload time set, under its identifier as by its name and version, and every other identifier
-- still returns what it did.
pub create-get :
    (cancelled : Bool) (now : ℕ) (s t : PackageStore) (p : Package)
    → IsConsistent s
    → create cancelled now s (some p) ≡ ok t
    → (get false t p.id ≡ ok (copy_package (stored_package now p)))
      × (get_by_name_version false t p.name p.version ≡ ok (copy_package (stored_package now p)))
      × ((j : String) → p.id ≢ j → get false t j ≡ get false s j)
unfolding get
create-get cancelled now s t p v h =
    let (p', e, c) = create-Created cancelled now s t (some p) h in
    let same : p' ≡ p = cc in
    let there : lookup p.id t.packages ≡ some (stored_package now p) =
      rw (c.stored, same) (rw (lookup-store_package now s p p.id, eq_refl p.id) refl) in
    (
      rw there refl,
      ground (
        arith,
        stored_package_fields now p,
        get_by_name_version-stored t p.id (stored_package now p)
            (create-IsConsistent cancelled now s (some p) h v) there,
      ),
      λ j apart.
          rw (c.stored, same) (ground (arith, lookup-store_package now s p j, eq_iff p.id j)),
    )

-- After a successful `delete`, `get` of the identifier fails and that of another is unchanged.
pub delete-get :
    (cancelled : Bool) (s t : PackageStore) (id : String)
    → delete cancelled s id ≡ ok t
    → (get false t id ≡ err package_not_found)
      × (get_content false t id ≡ err package_not_found)
      × ((j : String) → id ≢ j → get false t j ≡ get false s j)
unfolding get get_content
delete-get cancelled s t id h =
    let (p, d) = delete-Deleted cancelled s t id h in
    (
      ground (arith, lookup-deleted d id, eq_refl id),
      ground (arith, lookup-deleted d id, d.content, lookup-erase id id s.content, eq_refl id),
      λ j apart. ground (arith, lookup-deleted d j, eq_iff id j),
    )

-- `create` refuses a second package of a name and version that a consistent store holds.
pub create-version_exists :
    (now : ℕ) (s : PackageStore) (id : String) (p q : Package)
    → IsConsistent s
    → lookup id s.packages ≡ some q
    → q.name ≡ p.name
    → q.version ≡ p.version
    → (t : PackageStore) → create false now s (some p) ≢ ok t
create-version_exists now s id p q v e n w t h =
    let (p', f, c) = create-Created false now s t (some p) h in
    let same : p' ≡ p = cc in
    version_taken-false s.packages p.version (ids_of p.name s.by_name) id q
      (rw same at c.new_version) (rw n at (v.indexed id q e)) e w
