-- ===== src/Pagination/Pages.antt =====
-- internal/adapter/helpers.go, ApplyPagination: what a page is, and when the slice panics.
use netweave.Common.{
  ℕ, zero, suc, ◌+◌, ◌-◌, ◌<◌, ◌≡◌, refl, ◌∙◌, ap, sym, inl, inr, Bool, Bool-cases, true, false,
  ◌&&◌, none, some, List, [], if◌then◌else◌, arith, leb, ltb, length, take, drop, ℤ, pos, negsuc,
  wrap64, int_limit, take_all, drop_all, length-drop,
}
use netweave.Pagination.{slice, page_end, at_least_zero, apply_pagination}

-- The first `limit` elements, or all of them where the limit is not positive.
pub up_to {ℓ} : {A : Type ℓ} → ℤ → List A → List A
up_to (pos zero) xs = xs
up_to (pos (suc n)) xs = take (suc n) xs
up_to (negsuc n) xs = xs

-- The sum of offset and limit leaves the range of an `int`.
abbrev pub overflows : ℕ → ℤ → ℤ → Bool
overflows size limit offset =
    ltb (at_least_zero offset) size && leb int_limit (at_least_zero offset + at_least_zero limit)

module _ {ℓ} {A : Type ℓ} where
  slice_rest :
      (start : ℕ) (xs : List A)
      → start < length xs
      → slice xs (pos start) (pos (length xs)) ≡ some (drop start xs)
  unfolding slice
  slice_rest start xs h =
      let inside : (leb start (length xs) && leb (length xs) (length xs)) ≡ true = ground arith in
      rw inside (ap some (take_all _ (drop start xs) (omega (arith, length-drop {ℓ} start xs))))

  slice_part :
      (start n : ℕ) (xs : List A)
      → start + n < length xs
      → slice xs (pos start) (pos (start + n)) ≡ some (take n (drop start xs))
  unfolding slice
  slice_part start n xs h =
      let inside : (leb start (start + n) && leb (start + n) (length xs)) ≡ true = ground arith in
      let count : start + n - start ≡ n = omega arith in rw (inside, count) refl

  slice_behind : (start n : ℕ) (xs : List A) → slice xs (pos start) (negsuc n) ≡ none
  unfolding slice
  slice_behind start n xs = refl

  -- Cutting up to the end of the page is cutting the rest of the list up to the limit.
  pub slice_page :
      (limit : ℤ) (start : ℕ) (xs : List A)
      → start < length xs
      → length xs < int_limit
      → at_least_zero limit < int_limit
      → slice xs (pos start) (page_end limit start (length xs)) ≡ (
          if leb int_limit (start + at_least_zero limit)
          then none
          else some (up_to limit (drop start xs)))
  unfolding page_end up_to wrap64
  slice_page (pos zero) start xs h s l =
      let fits : leb int_limit (start + 0) ≡ false = ground arith in rw fits (slice_rest start xs h)
  slice_page (negsuc n) start xs h s l =
      let fits : leb int_limit (start + 0) ≡ false = ground arith in rw fits (slice_rest start xs h)
  slice_page (pos (suc n)) start xs h s l =
      let positive : ltb 0 (suc n) ≡ true = ground arith in
      elim (Bool-cases (leb int_limit (start + suc n))) [
        | inl over ↦
            let wraps : ltb (start + suc n) int_limit ≡ false = ground arith in
            rw (over, positive, wraps) (slice_behind start _ xs)
        | inr fits ↦
            let stays : ltb (start + suc n) int_limit ≡ true = ground arith in
            elim (Bool-cases (ltb (start + suc n) (length xs))) [
              | inl e ↦ rw (fits, positive, stays, e) (slice_part start (suc n) xs (ground arith))
              | inr e ↦
                  rw (fits, positive, stays, e)
                    (slice_rest start xs h
                      ∙ ap some (
                          sym (
                            take_all (suc n) (drop start xs)
                              (ground (arith, length-drop start xs)))))
            ]
      ]

  pub up_to-nil : (limit : ℤ) → up_to {A = A} limit [] ≡ []
  unfolding up_to
  up_to-nil (pos zero) = refl
  up_to-nil (pos (suc n)) = refl
  up_to-nil (negsuc n) = refl

  up_to-at_least_zero :
      (limit : ℤ) (xs : List A) → up_to (pos (at_least_zero limit)) xs ≡ up_to limit xs
  unfolding up_to
  up_to-at_least_zero (pos n) xs = refl
  up_to-at_least_zero (negsuc n) xs = refl

  pub behind_end :
      (limit : ℤ) (start : ℕ) (xs : List A)
      → leb (length xs) start ≡ true
      → up_to limit (drop start xs) ≡ []
  behind_end limit start xs h =
      ap (up_to limit) (drop_all start xs (ground arith)) ∙ up_to-nil limit

  -- The page is the rest of the list behind the offset, up to the limit. A negative offset counts
  -- as 0, and a limit that is not positive is none. The slice panics exactly if the offset lies in
  -- the list and its sum with the limit leaves the range.
  pub apply_pagination-up_to :
      (items : List A) (limit offset : ℤ)
      → length items < int_limit
      → at_least_zero limit < int_limit
      → apply_pagination items limit offset ≡ (
          if overflows (length items) limit offset
          then none
          else some (up_to limit (drop (at_least_zero offset) items)))
  unfolding apply_pagination
  apply_pagination-up_to items limit offset s l =
      let start = at_least_zero offset in
      elim (Bool-cases (leb (length items) start)) [
        | inl past ↦
            let out : ltb start (length items) ≡ false = ground arith in
            rw (past, out) (ap some (sym (behind_end limit start items past)))
        | inr inside ↦
            let there : ltb start (length items) ≡ true = ground arith in
            rw
              (inside, there, slice_page (pos (at_least_zero limit)) start items (ground arith) s l)
              (ap (λ page. if leb int_limit (start + at_least_zero limit) then none else some page)
                (up_to-at_least_zero limit (drop start items)))
      ]
