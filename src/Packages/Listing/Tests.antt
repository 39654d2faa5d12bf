-- ===== src/Packages/Listing/Tests.antt =====
-- Runs of List, and its theorems at concrete stores.
use netweave.Common.{
  ℕ, String, arith, ◌≡◌, refl, true, false, Option, none, some, List, [], ◌∷◌, contains, lookup, ok,
  err, ℤ, pos, wrap64,
}
use netweave.Pagination.{apply_pagination, slice}
use netweave.Packages.{Package, PackageStore, PackageFilter, panicked, copy_package}
use netweave.Packages.Tests.{redis_1, redis_2, renamed, two_store, two_store-IsConsistent}
use netweave.Packages.Listing.{
  list, find_latest_package, collect_latest_packages, other_type, apply_package_pagination,
  later_package, matches_name_filter, package_page_end,
}
use netweave.Packages.Listing.Latest.{AtLeast, Present, find_latest_package-newest}
use netweave.Packages.Listing.Faults.{collect_latest_packages-ok}
use netweave.Packages.Listing.Pages.{apply_package_pagination-up_to}

abbrev of_type : PackageFilter
of_type = record {
  name = "";
  package_type = "helm-chart";
  latest_only = true;
  limit = pos 0;
  offset = pos 0;
}

list_run : list false two_store (some of_type) ≡ ok (redis_2 ∷ [])
unfolding list collect_latest_packages find_latest_package later_package matches_name_filter
    apply_package_pagination lookup copy_package package_page_end slice wrap64
list_run = refl

all-Present : Present two_store.packages ("p1" ∷ "p2" ∷ [])
unfolding lookup
all-Present id c = let (p, e, n) = two_store-IsConsistent.backed "redis" id c in (p, e)

find_latest_package-newest_example :
    (r : Option Package) × (find_latest_package two_store.packages
        (some of_type)
        ("p1" ∷ "p2" ∷ [])
        none
      ≡ ok r)
    × ((m : Package)
        → r ≡ some m
        → (id : String) × (contains ("p1" ∷ "p2" ∷ []) id ≡ true)
          × (lookup id two_store.packages ≡ some m)
          × (other_type (some of_type) m ≡ false))
    × ((j : String) (q : Package)
        → contains ("p1" ∷ "p2" ∷ []) j ≡ true
        → lookup j two_store.packages ≡ some q
        → other_type (some of_type) q ≡ false
        → AtLeast q.uploaded_at r)
find_latest_package-newest_example =
    find_latest_package-newest two_store.packages (some of_type) ("p1" ∷ "p2" ∷ []) all-Present

collect_latest_packages-ok_example :
    (r : List Package) × (collect_latest_packages two_store.packages
        (some of_type)
        two_store.by_name
      ≡ ok r)
collect_latest_packages-ok_example =
    collect_latest_packages-ok two_store (some of_type) two_store-IsConsistent

abbrev renamed_store : PackageStore
renamed_store = record two_store {
  packages = ("p1", record redis_1 { uploaded_at = 5 }) ∷ ("p2", renamed) ∷ [];
}

abbrev dangling_store : PackageStore
dangling_store = record two_store { packages = ("p1", record redis_1 { uploaded_at = 5 }) ∷ [] }

abbrev items : List ℕ
items = 1 ∷ 2 ∷ 3 ∷ []

-- One behind an offset of 1, up to the largest limit there is: the sum wraps around.
abbrev largest : ℤ
largest = pos 9223372036854775807

apply_package_pagination-up_to_example :
    (apply_package_pagination items largest (pos 1) ≡ err panicked)
    × (apply_pagination items largest (pos 1) ≡ none)
apply_package_pagination-up_to_example =
    apply_package_pagination-up_to items largest (pos 1) (omega arith) (omega arith)
