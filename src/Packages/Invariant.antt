-- ===== src/Packages/Invariant.antt =====
-- internal/dms/storage/packages.go: the invariant that ties the package map, the name index and the
-- content map together, and the operations that keep it.
use netweave.Common.{String, ◌≡◌, true, some, contains, Unique, lookup}
use netweave.Packages.{Package, PackageStore, ids_of, exists, new_store}

pub record IsConsistent (s : PackageStore) : Type 0 where
  -- a package stands under its own identifier
  pub keyed : (id : String) (p : Package) → lookup id s.packages ≡ some p → p.id ≡ id
  -- and is in the index under its name
  pub indexed :
      (id : String) (p : Package)
      → lookup id s.packages ≡ some p
      → contains (ids_of p.name s.by_name) id ≡ true
  -- the index names nothing else
  pub backed :
      (name id : String)
      → contains (ids_of name s.by_name) id ≡ true
      → (p : Package) × (lookup id s.packages ≡ some p) × (p.name ≡ name)
  -- a name has each version once
  pub single :
      (i j : String) (p q : Package)
      → lookup i s.packages ≡ some p
      → lookup j s.packages ≡ some q
      → p.name ≡ q.name
      → p.version ≡ q.version
      → i ≡ j
  -- the index holds each name once, as every Go map its keys
  pub distinct : Unique s.by_name
  -- content belongs to a package
  pub owned :
      (id : String) → exists (lookup id s.content) ≡ true → exists (lookup id s.packages) ≡ true

pub new_store-IsConsistent : IsConsistent new_store
unfolding new_store lookup
new_store-IsConsistent = record {
  keyed = λ id p e. cc;
  indexed = λ id p e. cc;
  backed = λ name id e. cc;
  single = λ i j p q e. cc;
  distinct = tt;
  owned = λ id e. cc;
}
