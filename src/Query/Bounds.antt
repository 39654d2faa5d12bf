-- ===== src/Query/Bounds.antt =====
-- internal/models/filters.go: the ranges of what ParseQueryParams gives.
use netweave.Common.{
  String, ◌≡◌, ◌≢◌, refl, ◌⊎◌, inl, inr, Bool, true, false, Option, none, some, List, [], ◌∷◌,
  arith, if◌then◌else◌, ◌==◌, ℤ, pos, ◌≤ℤ◌, All, Bool-cases, String-cases, subst, sym,
}
use netweave.Query.{
  Filter, Params, get, positive_or, natural_or, default_limit, cap_limit, known_order, trim_fields,
  parse_query_params,
}
use netweave.Query.Text.{atoi, split, comma, trim_space}

limit_range :
    (n : ℤ)
    → pos 0 ≤ℤ n
    → (pos 1 ≤ℤ cap_limit (default_limit n)) × (cap_limit (default_limit n) ≤ℤ pos 1000)
limit_range n h = ground arith

positive_or-pos : (o : Option ℤ) → pos 0 ≤ℤ positive_or (pos 0) o
positive_or-pos none = omega arith
positive_or-pos (some n) = ground arith

natural_or-pos : (o : Option ℤ) → pos 0 ≤ℤ natural_or (pos 0) o
natural_or-pos none = omega arith
natural_or-pos (some n) = ground arith

abbrev pub IsOrder : String → Type 0
IsOrder order = (order ≡ "asc") ⊎ (order ≡ "desc")

abbrev pub chosen : String → String
chosen order = if order == "" then "" else known_order order ""

abbrev pub final : String → String
final order = if chosen order == "" then "asc" else chosen order

final-IsOrder : (order : String) → IsOrder (final order)
final-IsOrder order = elim (String-cases order "asc") [
  | inl (_, e) ↦ subst (λ o. IsOrder (final o)) (sym e) (inl refl)
  | inr (a, _) ↦ elim (String-cases order "desc") [
    | inl (_, e) ↦ subst (λ o. IsOrder (final o)) (sym e) (inr refl)
    | inr (d, _) ↦
        let left : chosen order ≡ "" = elim (Bool-cases (order == "")) [
          | inl b ↦ rw b refl
          | inr b ↦ rw (b, a, d) refl
        ] in
        rw left (inl refl)
  ]
]

trim_fields-ne : (ws : List String) → All (λ w. w ≢ "") (trim_fields ws)
unfolding trim_fields
trim_fields-ne [] = tt
trim_fields-ne (w ∷ ws) = elim (String-cases (trim_space w) "") [
  | inl (b, e) ↦ rw b (trim_fields-ne ws)
  | inr (b, n) ↦ rw b (n, trim_fields-ne ws)
]

pub record IsBounded (f : Filter) : Type 0 where
  pub at_least_one : pos 1 ≤ℤ f.limit
  pub at_most_max : f.limit ≤ℤ pos 1000
  pub offset_natural : pos 0 ≤ℤ f.offset
  pub order : IsOrder f.sort_order
  pub fields_named : All (λ w. w ≢ "") f.fields

given_limit : (b : Bool) (o : Option ℤ) → pos 0 ≤ℤ (if b then pos 0 else positive_or (pos 0) o)
given_limit true o = omega arith
given_limit false o = positive_or-pos o

given_offset : (b : Bool) (o : Option ℤ) → pos 0 ≤ℤ (if b then pos 0 else natural_or (pos 0) o)
given_offset true o = omega arith
given_offset false o = natural_or-pos o

given_fields : (b : Bool) (ws : List String) → All (λ w. w ≢ "") (if b then [] else trim_fields ws)
given_fields true ws = tt
given_fields false ws = trim_fields-ne ws

-- Whatever the query, the filter that ParseQueryParams reads from it has a limit between 1 and 1000,
-- an offset that is not negative, the order "asc" or "desc", and no empty name among its fields.
pub parse_query_params-IsBounded : (params : Params) → IsBounded (parse_query_params params)
unfolding parse_query_params
parse_query_params-IsBounded params =
    let given = given_limit (get "limit" params == "") (atoi (get "limit" params)) in
    let range = limit_range _ given in
    record {
      at_least_one = range.0;
      at_most_max = range.1;
      offset_natural = given_offset (get "offset" params == "") (atoi (get "offset" params));
      order = final-IsOrder (get "sortOrder" params);
      fields_named = given_fields (get "fields" params == "") (split comma (get "fields" params));
    }
