-- ===== src/Pagination.antt =====
-- internal/adapter/helpers.go: ApplyPagination, and what it has in common with the pagination of the
-- package store.
pub mod Pages
mod Tests
use netweave.Common.{
  ℕ, ◌-◌, ◌&&◌, Option, none, some, List, [], leb, if◌then◌else◌, length, take, drop, ℤ, pos,
  negsuc, ltb_ℤ, ◌+ℤ◌, wrap64,
}

-- Go's `items[low:high]`, where the capacity is the length; `none` is its panic.
unfoldable pub slice {ℓ} : {A : Type ℓ} → List A → ℤ → ℤ → Option (List A)
slice items (negsuc m) high = none
slice items (pos low) (negsuc n) = none
slice items (pos low) (pos high) =
    if leb low high && leb high (length items)
    then some (take (high - low) (drop low items))
    else none

-- `end` of the slice; a limit that is not positive is no limit, and the sum may wrap around.
unfoldable pub page_end : ℤ → ℕ → ℕ → ℤ
page_end limit start size =
    if ltb_ℤ (pos 0) limit && ltb_ℤ (wrap64 (pos start +ℤ limit)) (pos size)
    then wrap64 (pos start +ℤ limit)
    else pos size

-- negative values are taken as 0
abbrev pub at_least_zero : ℤ → ℕ
at_least_zero (pos n) = n
at_least_zero (negsuc n) = 0

unfoldable pub apply_pagination {ℓ} : {A : Type ℓ} → List A → ℤ → ℤ → Option (List A)
apply_pagination items limit offset =
    let start = at_least_zero offset in
    if leb (length items) start
    then some []
    else slice items (pos start) (page_end (pos (at_least_zero limit)) start (length items))
