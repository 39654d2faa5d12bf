-- ===== src/Packages/Listing/Faults.antt =====
-- internal/dms/storage/packages.go: when `List` with `LatestOnly` returns, and when it panics.
use netweave.Common.{
  String, ◌≡◌, refl, inl, inr, Option, none, List, [], ◌∷◌, arith, Map, Bool-cases, ok, All,
  All-of_lookup,
}
use netweave.Packages.{Package, PackageStore, PackageFilter}
use netweave.Packages.Listing.{collect_latest_packages, matches_name_filter, push_some}
use netweave.Packages.Listing.Latest.{Present, find_latest_package-total}
use netweave.Packages.Invariant.{IsConsistent}

collect_latest_packages-total :
    (ps : Map Package) (filter : Option PackageFilter) (index : Map (List String))
    → All (λ e. Present ps e.1) index
    → (r : List Package) × (collect_latest_packages ps filter index ≡ ok r)
unfolding collect_latest_packages
collect_latest_packages-total ps filter [] h = ([], refl)
collect_latest_packages-total ps filter ((name, ids) ∷ index) h =
    let (rest, e) = collect_latest_packages-total ps filter index h.1 in
    let (latest, f) = find_latest_package-total ps filter ids none h.0 in
    elim (Bool-cases (matches_name_filter filter name)) [
      | inl t ↦ (push_some latest rest, rw (t, f, e) refl)
      | inr t ↦ (rest, rw (t, e) refl)
    ]

IsConsistent-Present :
    (s : PackageStore) → IsConsistent s → All (λ e. Present s.packages e.1) s.by_name
IsConsistent-Present s v =
    All-of_lookup (λ name ids. Present s.packages ids) s.by_name v.distinct
      (λ name ids e id c. let (p, f, n) = v.backed name id (ground arith) in (p, f))

-- In a consistent store, listing the latest packages without a page never faults.
pub collect_latest_packages-ok :
    (s : PackageStore) (filter : Option PackageFilter)
    → IsConsistent s
    → (r : List Package) × (collect_latest_packages s.packages filter s.by_name ≡ ok r)
collect_latest_packages-ok s filter v =
    collect_latest_packages-total s.packages filter s.by_name (IsConsistent-Present s v)
