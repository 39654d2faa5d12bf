-- ===== src/Packages/Tests.antt =====
-- Runs of the package store, and its theorems at concrete stores.
use netweave.Common.{
  String, ◌≡◌, ◌≢◌, refl, false, none, some, [], ◌∷◌, arith, lookup, insert, erase, ok, eq_iff,
}
use netweave.Packages.{
  Package, PackageStore, create, delete, update, get, get_by_name_version, find_version,
  save_content, new_store, store_package, copy_package, validate_package, check_package_conflicts,
  version_taken, without,
}
use netweave.Packages.SemVer.{validate_sem_ver}
use netweave.Packages.Invariant.{IsConsistent, new_store-IsConsistent}
use netweave.Packages.Creating.{create-IsConsistent, stored_package}
use netweave.Packages.Deleting.{delete-IsConsistent}
use netweave.Packages.Reading.{create-get}

abbrev pub redis_1 : Package
redis_1 = record {
  id = "p1";
  name = "redis";
  version = "1.0.0";
  package_type = "helm-chart";
  description = "";
  uploaded_at = 0;
  extensions = none;
}

abbrev pub redis_2 : Package
redis_2 = record redis_1 { id = "p2"; version = "v2.0.0"; uploaded_at = 9 }

abbrev one_store : PackageStore
one_store = record {
  packages = ("p1", record redis_1 { uploaded_at = 5 }) ∷ [];
  content = [];
  by_name = ("redis", "p1" ∷ []) ∷ [];
}

abbrev pub two_store : PackageStore
two_store = record {
  packages = ("p1", record redis_1 { uploaded_at = 5 }) ∷ ("p2", redis_2) ∷ [];
  content = [];
  by_name = ("redis", "p1" ∷ "p2" ∷ []) ∷ [];
}

first_run : create false 5 new_store (some redis_1) ≡ ok one_store
unfolding create validate_package check_package_conflicts store_package version_taken copy_package
    new_store lookup insert validate_sem_ver
first_run = refl

second_run : create false 6 one_store (some redis_2) ≡ ok two_store
unfolding create validate_package check_package_conflicts store_package version_taken copy_package
    lookup insert validate_sem_ver
second_run = refl

one_store-IsConsistent : IsConsistent one_store
one_store-IsConsistent =
    create-IsConsistent false 5 new_store (some redis_1) first_run new_store-IsConsistent

pub two_store-IsConsistent : IsConsistent two_store
two_store-IsConsistent =
    create-IsConsistent false 6 one_store (some redis_2) second_run one_store-IsConsistent

create-IsConsistent_example : IsConsistent two_store
create-IsConsistent_example =
    create-IsConsistent false 6 one_store (some redis_2) second_run one_store-IsConsistent

delete_run : delete false two_store "p2" ≡ ok one_store
unfolding delete lookup insert erase without
delete_run = refl

delete-IsConsistent_example : IsConsistent one_store
delete-IsConsistent_example =
    delete-IsConsistent false two_store "p2" delete_run two_store-IsConsistent

save_run :
    save_content false two_store "p1" (7 ∷ [])
    ≡ ok (record two_store { content = ("p1", 7 ∷ []) ∷ [] })
unfolding save_content lookup insert
save_run = refl

-- The second package with a new description.
abbrev described : Package
described = record redis_2 { description = "cache" }

abbrev described_store : PackageStore
described_store = record two_store {
  packages = ("p1", record redis_1 { uploaded_at = 5 }) ∷ ("p2", described) ∷ [];
}

update_run : update false two_store (some described) ≡ ok described_store
unfolding update lookup insert copy_package
update_run = refl

pub found_p2 : lookup "p2" two_store.packages ≡ some redis_2
unfolding lookup
found_p2 = refl

only_p2 :
    (j : String) (q : Package)
    → lookup j two_store.packages ≡ some q
    → q.name ≡ "redis"
    → q.version ≡ "v2.0.0"
    → j ≡ "p2"
only_p2 j q e n w = two_store-IsConsistent.single j "p2" q redis_2 e found_p2 n w

abbrev pub renamed : Package
renamed = record redis_2 { name = "valkey" }

pub names_differ : ◌≢◌ {A = String} "valkey" "redis"
names_differ = ground (arith, eq_iff "valkey" "redis")

lookup_run : get_by_name_version false two_store "redis" "v2.0.0" ≡ ok redis_2
unfolding get_by_name_version find_version lookup copy_package
lookup_run = refl

create-get_example :
    (get false two_store "p2" ≡ ok (copy_package (stored_package 6 redis_2)))
    × (get_by_name_version false two_store "redis" "v2.0.0"
        ≡ ok (copy_package (stored_package 6 redis_2)))
    × ((j : String) → "p2" ≢ j → get false two_store j ≡ get false one_store j)
create-get_example =
    create-get false 6 one_store two_store redis_2 one_store-IsConsistent second_run
