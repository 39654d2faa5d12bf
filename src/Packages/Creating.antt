-- ===== src/Packages/Creating.antt =====
-- internal/dms/storage/packages.go, Create: what it checks and what it keeps.
use netweave.Common.{
  ℕ, String, ◌≡◌, refl, ◌≢◌, inl, inr, Bool, true, false, ◌&&◌, ◌||◌, Option, none, some, [], ◌∷◌,
  ◌++◌, arith, if◌then◌else◌, contains, Unique, insert-Unique, lookup, lookup-insert, eq_iff,
  String-cases, Bool-cases, ◌==◌, ok, sym, ◌∙◌, subst,
}
use netweave.Packages.{
  Package, PackageStore, ids_of, version_taken, copy_package, stamp, store_package,
  validate_package, check_package_conflicts, create,
}
use netweave.Packages.Index.{ids_of-insert, contains-append, version_taken-false}
use netweave.Packages.Invariant.{IsConsistent}

-- What a successful `create` has checked.
pub record Created (now : ℕ) (s t : PackageStore) (p : Package) : Type 0 where
  pub stored : t ≡ store_package now s p
  pub fresh : lookup p.id s.packages ≡ none
  pub new_version : version_taken s.packages p.version (ids_of p.name s.by_name) ≡ false

pub create-Created :
    (cancelled : Bool) (now : ℕ) (s t : PackageStore) (pkg : Option Package)
    → create cancelled now s pkg ≡ ok t
    → (p : Package) × (pkg ≡ some p) × Created now s t p
unfolding create validate_package check_package_conflicts
create-Created cancelled now s t none h = absurd (ground arith)
create-Created cancelled now s t (some p) h =
    (p, refl, record { stored = ground arith; fresh = ground arith; new_version = ground arith })

-- The package that `storePackage` puts in the map.
abbrev pub stored_package : ℕ → Package → Package
stored_package now p = stamp now (copy_package p)

pub stored_package_fields :
    (now : ℕ) (p : Package)
    → ((stored_package now p).id ≡ p.id)
      × ((stored_package now p).name ≡ p.name)
      × ((stored_package now p).version ≡ p.version)
unfolding copy_package
stored_package_fields now p = ground arith

module _ (now : ℕ) (s : PackageStore) (p : Package) where
  pub lookup-store_package :
      (id : String)
      → lookup id (store_package now s p).packages
        ≡ (if p.id == id then some (stored_package now p) else lookup id s.packages)
  unfolding store_package
  lookup-store_package id = lookup-insert p.id id (stored_package now p) s.packages

  pub contains-store_package :
      (name id : String)
      → contains (ids_of name (store_package now s p).by_name) id
        ≡ (contains (ids_of name s.by_name) id || (p.name == name && p.id == id))
  unfolding store_package
  contains-store_package name id =
      rw (ids_of-insert p.name name (ids_of p.name s.by_name ++ p.id ∷ []) s.by_name) (
        ground (
          arith,
          contains-append (ids_of p.name s.by_name) (p.id ∷ []) id,
          eq_iff p.name name,
          Bool-cases (contains (ids_of name s.by_name) id),
        ))

  store_package_content : (store_package now s p).content ≡ s.content
  unfolding store_package
  store_package_content = refl

  module _ (v : IsConsistent s) (fresh : lookup p.id s.packages ≡ none)
      (untaken : version_taken s.packages p.version (ids_of p.name s.by_name) ≡ false) where
    store_package_backed :
        (name id : String)
        → contains (ids_of name (store_package now s p).by_name) id ≡ true
        → (q : Package) × (lookup id (store_package now s p).packages ≡ some q) × (q.name ≡ name)
    store_package_backed name id c = elim (String-cases p.id id) [
      | inl (t, same) ↦ elim (Bool-cases (contains (ids_of name s.by_name) id)) [
        | inl old ↦ absurd (ground (arith, v.backed name id old))
        | inr new ↦ (
          stored_package now p,
          ground (arith, lookup-store_package id),
          ground (
            arith,
            contains-store_package name id,
            stored_package_fields now p,
            eq_iff p.name name,
          ),
        )
      ]
      | inr (f, _) ↦
          let (q, e, n) = v.backed name id (ground (arith, contains-store_package name id)) in
          (q, ground (arith, lookup-store_package id), n)
    ]

    -- No stored package has the new one's name and version.
    store_package_new :
        (j : String) (q : Package)
        → lookup j s.packages ≡ some q
        → q.name ≡ p.name
        → q.version ≢ p.version
    store_package_new j q e n =
        version_taken-false s.packages p.version (ids_of p.name s.by_name) j q untaken
          (rw n at (v.indexed j q e)) e

    store_package_single :
        (i j : String) (q r : Package)
        → lookup i (store_package now s p).packages ≡ some q
        → lookup j (store_package now s p).packages ≡ some r
        → q.name ≡ r.name
        → q.version ≡ r.version
        → i ≡ j
    store_package_single i j q r e f n w = elim (String-cases p.id i) [
      | inl (t, same) ↦ elim (String-cases p.id j) [
        | inl (u, other) ↦ sym same ∙ other
        | inr (u, _) ↦ absurd (
            ground (
              arith,
              lookup-store_package i,
              lookup-store_package j,
              stored_package_fields now p,
              store_package_new j r,
            ))
      ]
      | inr (t, _) ↦ elim (String-cases p.id j) [
        | inl (u, other) ↦ absurd (
            ground (
              arith,
              lookup-store_package i,
              lookup-store_package j,
              stored_package_fields now p,
              store_package_new i q,
            ))
        | inr (u, _) ↦
            v.single i j q r (ground (arith, lookup-store_package i))
              (ground (arith, lookup-store_package j)) n w
      ]
    ]

    store_package_distinct : Unique (store_package now s p).by_name
    unfolding store_package
    store_package_distinct = insert-Unique p.name _ s.by_name v.distinct

    store_package-IsConsistent : IsConsistent (store_package now s p)
    store_package-IsConsistent = record {
      keyed = λ id q e. ground (
        arith,
        eq_iff p.id id,
        v.keyed id q,
        lookup-store_package id,
        stored_package_fields now p,
      );
      indexed = λ id q e. ground (
        arith,
        eq_iff p.id id,
        eq_iff p.name q.name,
        v.indexed id q,
        lookup-store_package id,
        contains-store_package q.name id,
        stored_package_fields now p,
      );
      backed = store_package_backed;
      single = store_package_single;
      distinct = store_package_distinct;
      owned = λ id e. ground (arith, v.owned id, lookup-store_package id, store_package_content);
    }

-- create keeps the store consistent.
pub create-IsConsistent :
    (cancelled : Bool) (now : ℕ) (s : PackageStore) (pkg : Option Package) {t : PackageStore}
    → create cancelled now s pkg ≡ ok t
    → IsConsistent s
    → IsConsistent t
create-IsConsistent cancelled now s pkg {t} h v =
    let (p, e, c) = create-Created cancelled now s t pkg h in
    subst IsConsistent (sym c.stored) (store_package-IsConsistent now s p v c.fresh c.new_version)
