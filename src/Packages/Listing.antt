-- ===== src/Packages/Listing.antt =====
-- internal/dms/storage/packages.go: List, its two collectors and ApplyPackagePagination.
pub mod Latest
pub mod Faults
pub mod Pages
mod Tests
use netweave.Common.{
  ◌-◌, String, Bool, true, false, not, ◌&&◌, Option, none, some, List, [], ◌∷◌, leb, ltb,
  if◌then◌else◌, length, take, drop, Map, lookup, ok, err, ◌>>=◌, ◌>>◌, reject_if, ℤ, pos, ltb_ℤ,
  ◌+ℤ◌, wrap64, ℕ, ◌==◌,
}
use netweave.Pagination.{slice}
use netweave.Packages.{
  Package, Outcome, context_cancelled, panicked, PackageFilter, PackageStore, copy_package,
}

pub matches_name_filter : Option PackageFilter → String → Bool
matches_name_filter none name = true
matches_name_filter (some f) name = not (not (f.name == "") && not (name == f.name))

-- filter != nil && filter.PackageType != "" && pkg.PackageType != filter.PackageType
abbrev pub other_type : Option PackageFilter → Package → Bool
other_type none p = false
other_type (some f) p = not (f.package_type == "") && not (p.package_type == f.package_type)

-- whether the test above would read the field of a nil package
abbrev reads_type : Option PackageFilter → Bool
reads_type none = false
reads_type (some f) = not (f.package_type == "")

abbrev newer : Package → Option Package → Bool
newer p none = true
newer p (some q) = ltb q.uploaded_at p.uploaded_at

-- one round of the loop of `findLatestPackage`; an identifier that the index holds and the store
-- does not gives the nil pointer, which is read unless it is the first candidate
pub later_package :
    Option PackageFilter → Option Package → Option Package → Outcome (Option Package)
later_package filter none none = if reads_type filter then err panicked else ok none
later_package filter none (some q) = err panicked
later_package filter (some p) latest =
    ok (if other_type filter p then latest else if newer p latest then some p else latest)

pub find_latest_package :
    Map Package → Option PackageFilter → List String → Option Package → Outcome (Option Package)
find_latest_package ps filter [] latest = ok latest
find_latest_package ps filter (id ∷ ids) latest = do
  next ← later_package filter (lookup id ps) latest
  find_latest_package ps filter ids next

abbrev push_some : Option Package → List Package → List Package
push_some none ps = ps
push_some (some p) ps = copy_package p ∷ ps

-- the loop of `collectLatestPackages`
pub collect_latest_packages :
    Map Package → Option PackageFilter → Map (List String) → Outcome (List Package)
collect_latest_packages ps filter [] = ok []
collect_latest_packages ps filter ((name, ids) ∷ index) = do
  latest ←
      if matches_name_filter filter name then find_latest_package ps filter ids none else ok none
  rest ← collect_latest_packages ps filter index
  ok (push_some latest rest)

pub collect_all_packages : Option PackageFilter → Map Package → List Package
collect_all_packages filter [] = []
collect_all_packages filter ((id, p) ∷ ps) =
    let rest = collect_all_packages filter ps in
    if matches_name_filter filter p.name && not (other_type filter p)
    then copy_package p ∷ rest
    else rest

-- `end` of the slice, as ApplyPackagePagination computes it.
unfoldable pub package_page_end : ℤ → ℤ → ℕ → ℤ
package_page_end limit offset size =
    if ltb_ℤ (pos 0) limit && ltb_ℤ (wrap64 (offset +ℤ limit)) (pos size)
    then wrap64 (offset +ℤ limit)
    else pos size

abbrev pub or_panic : {A : Type 0} → Option A → Outcome A
or_panic none = err panicked
or_panic (some x) = ok x

-- Unlike ApplyPagination it lets a negative offset reach the slice.
pub apply_package_pagination : {A : Type 0} → List A → ℤ → ℤ → Outcome (List A)
apply_package_pagination ps limit offset =
    if ltb_ℤ offset (pos (length ps))
    then or_panic (slice ps offset (package_page_end limit offset (length ps)))
    else ok []

abbrev collect_packages : PackageStore → Option PackageFilter → Bool → Outcome (List Package)
collect_packages s filter true = collect_latest_packages s.packages filter s.by_name
collect_packages s filter false = ok (collect_all_packages filter s.packages)

abbrev wants_latest : Option PackageFilter → Bool
wants_latest none = false
wants_latest (some f) = f.latest_only

abbrev paginate : Option PackageFilter → List Package → Outcome (List Package)
paginate none ps = ok ps
paginate (some f) ps = apply_package_pagination ps f.limit f.offset

pub list : Bool → PackageStore → Option PackageFilter → Outcome (List Package)
list cancelled s filter = do
  reject_if cancelled context_cancelled
  results ← collect_packages s filter (wants_latest filter)
  paginate filter results
