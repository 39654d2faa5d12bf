-- ===== src/Packages/Index.antt =====
-- internal/dms/storage/packages.go: facts about the name index and the loops over it.
use netweave.Common.{
  String, ◌≡◌, refl, ◌≢◌, inl, inr, true, false, ◌&&◌, ◌||◌, Option, none, some, List, [], ◌∷◌,
  ◌++◌, arith, if◌then◌else◌, contains, Unique, insert-Unique, erase-Unique, Map, lookup, insert,
  lookup-insert, lookup-erase, eq_iff, String-cases, Option-cases, ◌==◌,
}
use netweave.Packages.{Package, ids_of, version_taken, without, set_ids, unindex}

pub ids_of-insert :
    (k n : String) (ids : List String) (m : Map (List String))
    → ids_of n (insert k ids m) ≡ (if k == n then ids else ids_of n m)
ids_of-insert k n ids m = ground (arith, lookup-insert k n ids m)

pub ids_of-set_ids :
    (k n : String) (ids : List String) (m : Map (List String))
    → ids_of n (set_ids k ids m) ≡ (if k == n then ids else ids_of n m)
ids_of-set_ids k n [] m = ground (arith, lookup-erase k n m)
ids_of-set_ids k n (id ∷ ids) m = ids_of-insert k n (id ∷ ids) m

pub contains-append :
    (xs ys : List String) (a : String) → contains (xs ++ ys) a ≡ (contains xs a || contains ys a)
contains-append [] ys a = refl
contains-append (x ∷ xs) ys a = ground (arith, contains-append xs ys a)

pub contains-without :
    (id a : String) (ids : List String)
    → contains (without id ids) a ≡ (if id == a then false else contains ids a)
unfolding without
contains-without id a [] = ground arith
contains-without id a (x ∷ ids) =
    ground (arith, contains-without id a ids, eq_iff id a, eq_iff x id, eq_iff x a)

-- Dropping an identifier from the index under a name.
pub ids_of-unindex :
    (id name n : String) (m : Map (List String))
    → ids_of n (unindex id name (lookup name m) m)
      ≡ (if name == n then without id (ids_of n m) else ids_of n m)
unfolding without
ids_of-unindex id name n m = elim (Option-cases (lookup name m)) [
  | inl e ↦ ground (arith, eq_iff name n)
  | inr (ids, e) ↦ rw (e, ids_of-set_ids name n (without id ids) m) (ground (arith, eq_iff name n))
]

pub contains-unindex :
    (id name n a : String) (m : Map (List String))
    → contains (ids_of n (unindex id name (lookup name m) m)) a
      ≡ (if name == n && id == a then false else contains (ids_of n m) a)
contains-unindex id name n a m =
    rw (ids_of-unindex id name n m) (ground (arith, contains-without id a (ids_of n m)))

set_ids-Unique :
    (name : String) (ids : List String) (m : Map (List String))
    → Unique m
    → Unique (set_ids name ids m)
set_ids-Unique name [] m u = erase-Unique name m u
set_ids-Unique name (id ∷ ids) m u = insert-Unique name (id ∷ ids) m u

pub unindex-Unique :
    (id name : String) (found : Option (List String)) (m : Map (List String))
    → Unique m
    → Unique (unindex id name found m)
unindex-Unique id name none m u = u
unindex-Unique id name (some ids) m u = set_ids-Unique name (without id ids) m u

pub version_taken-false :
    (ps : Map Package) (v : String) (ids : List String) (id : String) (p : Package)
    → version_taken ps v ids ≡ false
    → contains ids id ≡ true
    → lookup id ps ≡ some p
    → p.version ≢ v
unfolding version_taken
version_taken-false ps v [] id p h c e = λ _. cc
version_taken-false ps v (x ∷ ids) id p h c e = elim (String-cases x id) [
  | inl (t, same) ↦ ground (arith, eq_iff p.version v)
  | inr (f, _) ↦ version_taken-false ps v ids id p (ground arith) (ground arith) e
]
