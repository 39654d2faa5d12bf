-- ===== src/Packages/Listing/Pages.antt =====
-- internal/dms/storage/packages.go: ApplyPackagePagination, with ApplyPagination of
-- internal/adapter/helpers.go beside it.
use netweave.Common.{
  ℕ, ◌+◌, ◌<◌, ◌≡◌, refl, sym, ap, inl, inr, Bool-cases, false, ◌||◌, none, some, List, arith, leb,
  ltb, ltb_ℤ, length, drop, if◌then◌else◌, ℤ, pos, negsuc, int_limit, ok, err,
}
use netweave.Pagination.{slice, page_end, at_least_zero, apply_pagination}
use netweave.Pagination.Pages.{up_to, overflows, slice_page, behind_end, apply_pagination-up_to}
use netweave.Packages.{panicked}
use netweave.Packages.Listing.{apply_package_pagination, package_page_end, or_panic}

-- At an offset that is not negative.
package_page :
    {A : Type 0} (items : List A) (limit : ℤ) (n : ℕ)
    → length items < int_limit
    → at_least_zero limit < int_limit
    → apply_package_pagination items limit (pos n) ≡ (
        if overflows (length items) limit (pos n)
        then err panicked
        else ok (up_to limit (drop n items)))
unfolding apply_package_pagination package_page_end page_end
package_page items limit n s l = elim (Bool-cases (ltb n (length items))) [
  | inr past ↦ rw past (ap ok (sym (behind_end limit n items (ground arith))))
  | inl inside ↦ rw (inside, slice_page limit n items (ground arith) s l) chosen
]
  where
    chosen :
        or_panic (
          if leb int_limit (n + at_least_zero limit)
          then none
          else some (up_to limit (drop n items)))
        ≡ (if leb int_limit (n + at_least_zero limit)
            then err panicked
            else ok (up_to limit (drop n items)))
    chosen = elim (Bool-cases (leb int_limit (n + at_least_zero limit))) [
      | inl b ↦ rw b refl
      | inr b ↦ rw b refl
    ]

-- Let the list be shorter than 2^63 and the limit less than 2^63. ApplyPackagePagination panics
-- exactly if the offset is negative, or if it lies in the list and its sum with the limit is 2^63 or
-- more, so that it wraps around. Otherwise the page is the rest of the list behind the offset, up to
-- the limit, where a limit that is not positive is none. ApplyPagination panics exactly in the second
-- case, takes a negative offset as 0, and has the same page otherwise.
pub apply_package_pagination-up_to :
    {A : Type 0} (items : List A) (limit offset : ℤ)
    → length items < int_limit
    → at_least_zero limit < int_limit
    → (apply_package_pagination items limit offset ≡ (
        if ltb_ℤ offset (pos 0) || overflows (length items) limit offset
        then err panicked
        else ok (up_to limit (drop (at_least_zero offset) items))))
      × (apply_pagination items limit offset ≡ (
          if overflows (length items) limit offset
          then none
          else some (up_to limit (drop (at_least_zero offset) items))))
unfolding apply_package_pagination slice
apply_package_pagination-up_to items limit (pos n) s l =
    let natural : ltb n 0 ≡ false = ground arith in
    (rw natural (package_page items limit n s l), apply_pagination-up_to items limit (pos n) s l)
apply_package_pagination-up_to items limit (negsuc n) s l =
    (refl, apply_pagination-up_to items limit (negsuc n) s l)
