-- ===== src/Routing/Insertion.antt =====
-- Sorting by insertion, an instance of what the router asks of `sort.Slice`.
use netweave.Common.{◌≡◌, Bool, false, List, [], ◌∷◌, if◌then◌else◌, All, Bool-cases, inl, inr}
use netweave.Routing.Rules.{
  IsWeakOrder, IsSorted, Rearranges, none_left, keep, exchange, chain, Sorter,
}

module _ {A : Type 0} (less : A → A → Bool) where
  put : A → List A → List A
  put x [] = x ∷ []
  put x (y ∷ ys) = let later = put x ys in if less y x then y ∷ later else x ∷ y ∷ ys

  pub arrange : List A → List A
  arrange [] = []
  arrange (x ∷ xs) = put x (arrange xs)

  same_elements : (xs : List A) → Rearranges xs xs
  same_elements [] = none_left
  same_elements (x ∷ xs) = keep (same_elements xs)

  put-Rearranges : (x : A) (ys : List A) → Rearranges (put x ys) (x ∷ ys)
  unfolding put
  put-Rearranges x [] = same_elements (x ∷ [])
  put-Rearranges x (y ∷ ys) = elim (Bool-cases (less y x)) [
    | inl b ↦ rw b (chain (keep (put-Rearranges x ys)) exchange)
    | inr b ↦ rw b (same_elements (x ∷ y ∷ ys))
  ]

  pub arrange-Rearranges : (xs : List A) → Rearranges (arrange xs) xs
  unfolding arrange
  arrange-Rearranges [] = none_left
  arrange-Rearranges (x ∷ xs) = chain (put-Rearranges x (arrange xs)) (keep (arrange-Rearranges xs))

  All-put : (P : A → Type 0) (x : A) (ys : List A) → P x → All P ys → All P (put x ys)
  unfolding put
  All-put P x [] p h = (p, tt)
  All-put P x (y ∷ ys) p (q, h) = elim (Bool-cases (less y x)) [
    | inl b ↦ rw b (q, All-put P x ys p h)
    | inr b ↦ rw b (p, (q, h))
  ]

  All-below :
      IsWeakOrder less
      → (x y : A) (ys : List A) → less y x ≡ false
      → All (λ z. less z y ≡ false) ys
      → All (λ z. less z x ≡ false) ys
  All-below w x y [] b h = tt
  All-below w x y (z ∷ ys) b (c, h) = (w.1 z y x c b, All-below w x y ys b h)

  put-IsSorted :
      IsWeakOrder less → (x : A) (ys : List A) → IsSorted less ys → IsSorted less (put x ys)
  unfolding put
  put-IsSorted w x [] h = (tt, tt)
  put-IsSorted w x (y ∷ ys) (h, hs) = elim (Bool-cases (less y x)) [
    | inl b ↦ rw b (All-put (λ z. less z y ≡ false) x ys (w.0 y x b) h, put-IsSorted w x ys hs)
    | inr b ↦ rw b ((b, All-below w x y ys b h), (h, hs))
  ]

  pub arrange-IsSorted : IsWeakOrder less → (xs : List A) → IsSorted less (arrange xs)
  unfolding arrange
  arrange-IsSorted w [] = tt
  arrange-IsSorted w (x ∷ xs) = put-IsSorted w x (arrange xs) (arrange-IsSorted w xs)

abbrev pub insertion : Sorter
insertion = record {
  sort_slice = λ less xs. arrange less xs;
  permutes = λ less xs. arrange-Rearranges less xs;
  sorts = λ less xs w. arrange-IsSorted less w xs;
}
