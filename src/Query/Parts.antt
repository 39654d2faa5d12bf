-- ===== src/Query/Parts.antt =====
-- internal/models/filters.go: reading back each part of a filter but its labels.
use netweave.Common.{
  ℕ, zero, suc, String, ◌≡◌, ◌≢◌, refl, sym, ap, ◌∙◌, subst, inl, inr, true, not, Option, some,
  List, [], ◌∷◌, arith, if◌then◌else◌, ◌==◌, ℤ, pos, negsuc, ltb_ℤ, ◌≤ℤ◌, All, String-cases, ◌≤◌,
}
use netweave.Query.{
  first_of, or_old, is_empty_list, positive_or, natural_or, default_limit, cap_limit, trim_fields,
}
use netweave.Query.Bounds.{IsOrder, final}
use netweave.Query.Text.{atoi, itoa, split, join, comma, trim_space, max_int}
use netweave.Query.Text.Decimals.{atoi-itoa}
use netweave.Query.Text.Laws.{Lacks, split-join}

pub text_back :
    (v : String) (vs : List String)
    → vs ≡ (if not (v == "") then v ∷ [] else [])
    → or_old (first_of vs) "" ≡ v
text_back v vs h = elim (String-cases v "") [
  | inl (b, e) ↦ rw (h, b) (sym e)
  | inr (b, n) ↦ rw (h, b, b) refl
]

pub ids_back : (ids vs : List String) → vs ≡ ids → (if is_empty_list vs then [] else vs) ≡ ids
ids_back [] vs h = rw h refl
ids_back (v ∷ ids) vs h = rw h refl

pub order_back :
    (order : String) (vs : List String)
    → IsOrder order
    → vs ≡ (if not (order == "") then order ∷ [] else [])
    → final (first_of vs) ≡ order
order_back order vs (inl e) h =
    let one : vs ≡ "asc" ∷ [] = subst (λ o. vs ≡ (if not (o == "") then o ∷ [] else [])) e h in
    rw (one, e) refl
order_back order vs (inr e) h =
    let one : vs ≡ "desc" ∷ [] = subst (λ o. vs ≡ (if not (o == "") then o ∷ [] else [])) e h in
    rw (one, e) refl

-- What Itoa writes is not empty.
itoa_number :
    (n : ℕ) (old : ℤ) (read : ℤ → Option ℤ → ℤ)
    → n ≤ max_int
    → (if itoa (pos n) == "" then old else read old (atoi (itoa (pos n)))) ≡ read old (some (pos n))
unfolding atoi
itoa_number n old read h = elim (String-cases (itoa (pos n)) "") [
  | inl (b, e) ↦ absurd (ground (arith, ap atoi e, atoi-itoa n h))
  | inr (b, m) ↦ rw (b, atoi-itoa n h) refl
]

pub limit_back :
    (l : ℤ) (vs : List String)
    → pos 1 ≤ℤ l
    → l ≤ℤ pos 1000
    → vs ≡ (if ltb_ℤ (pos 0) l then itoa l ∷ [] else [])
    → cap_limit (
        default_limit
          (if first_of vs == "" then pos 0 else positive_or (pos 0) (atoi (first_of vs))))
      ≡ l
limit_back (negsuc n) vs low high h = absurd (omega arith)
limit_back (pos n) vs low high h =
    let given : ltb_ℤ (pos 0) (pos n) ≡ true = ground arith in
    rw (h, given, itoa_number n (pos 0) positive_or (omega arith)) (ground arith)

pub offset_back :
    (o : ℤ) (vs : List String)
    → pos 0 ≤ℤ o
    → o ≤ℤ pos max_int
    → vs ≡ (if ltb_ℤ (pos 0) o then itoa o ∷ [] else [])
    → (if first_of vs == "" then pos 0 else natural_or (pos 0) (atoi (first_of vs))) ≡ o
offset_back (negsuc n) vs low high h = absurd (omega arith)
offset_back (pos zero) vs low high h = rw h refl
offset_back (pos (suc n)) vs low high h =
    let given : ltb_ℤ (pos 0) (pos (suc n)) ≡ true = ground arith in
    rw (h, given, itoa_number (suc n) (pos 0) natural_or (omega arith)) (ground arith)

-- What a text has without its white space is the text, and it has no comma.
abbrev pub IsWord : String → Type 0
IsWord w = Lacks comma w × trim_space w ≡ w

words_back : (ws : List String) → All (λ w. IsWord w × w ≢ "") ws → trim_fields ws ≡ ws
unfolding trim_fields
words_back [] h = refl
words_back (w ∷ ws) h = elim (String-cases w "") [
  | inl (b, e) ↦ absurd (h.0.1 e)
  | inr (b, n) ↦ rw (h.0.0.1, b, words_back ws h.1) refl
]

words_lack : (ws : List String) → All (λ w. IsWord w × w ≢ "") ws → All (Lacks comma) ws
words_lack [] h = tt
words_lack (w ∷ ws) h = (h.0.0.0, words_lack ws h.1)

pub fields_back :
    (ws vs : List String)
    → All (λ w. IsWord w × w ≢ "") ws
    → vs ≡ (if not (is_empty_list ws) then join "," ws ∷ [] else [])
    → (if first_of vs == "" then [] else trim_fields (split comma (first_of vs))) ≡ ws
unfolding split
fields_back [] vs h e = rw e refl
fields_back (w ∷ ws) vs h e =
    let parts = split-join comma "," w ws refl (words_lack (w ∷ ws) h) in
    elim (String-cases (join "," (w ∷ ws)) "") [
      | inl (b, same) ↦
          let head : "" ∷ [] ≡ w ∷ ws = ap (split comma) (sym same) ∙ parts in
          absurd (h.0.1 (ground (arith, head)))
      | inr (b, n) ↦ rw (e, b, parts) (words_back (w ∷ ws) h)
    ]
