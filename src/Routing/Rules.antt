-- ===== src/Routing/Rules.antt =====
-- internal/routing/routing.go: the rules of a router and their order. `sort.Slice` is the argument
-- `sorter`, with what its documentation says of it.
use netweave.Common.{
  String, ◌≡◌, Bool, true, false, Option, none, some, List, [], ◌∷◌, ◌++◌, if◌then◌else◌, All,
  Result, ok, err, ◌==◌, ltb_ℤ,
}
use netweave.Routing.{Rule, Router, RoutingError, rule_not_found}

-- The two lists have the same elements, each as often.
pub data Rearranges {A : Type 0} : List A → List A → Type 0 where
  none_left : Rearranges [] []
  keep : {x : A} {xs ys : List A} → Rearranges xs ys → Rearranges (x ∷ xs) (x ∷ ys)
  exchange : {x y : A} {xs : List A} → Rearranges (x ∷ y ∷ xs) (y ∷ x ∷ xs)
  chain : {xs ys zs : List A} → Rearranges xs ys → Rearranges ys zs → Rearranges xs zs

module _ {A : Type 0} (less : A → A → Bool) where
  -- What `sort.Slice` asks of a less function.
  abbrev pub IsWeakOrder : Type 0
  IsWeakOrder =
      ((a b : A) → less a b ≡ true → less b a ≡ false)
      × ((a b c : A) → less a b ≡ false → less b c ≡ false → less a c ≡ false)

  -- No element stands behind one that is less.
  abbrev pub IsSorted : List A → Type 0
  IsSorted [] = Unit
  IsSorted (x ∷ xs) = All (λ y. less y x ≡ false) xs × IsSorted xs

-- sort.Slice: it permutes the slice, and sorts it if `less` is an order. It need not be stable.
pub record Sorter : Type 1 where
  pub sort_slice : {A : Type 0} → (A → A → Bool) → List A → List A
  pub permutes :
      {A : Type 0} (less : A → A → Bool) (xs : List A) → Rearranges (sort_slice less xs) xs
  pub sorts :
      {A : Type 0} (less : A → A → Bool) (xs : List A)
      → IsWeakOrder less
      → IsSorted less (sort_slice less xs)

abbrev pub higher : Rule → Rule → Bool
higher a b = ltb_ℤ b.priority a.priority

module _ (sorter : Sorter) where
  unfoldable pub sort_rules : List Rule → List Rule
  sort_rules rules = sorter.sort_slice higher rules

  unfoldable pub add_rule : Router → Rule → Router
  add_rule r rule = record r { rules = sort_rules (r.rules ++ (rule ∷ [])) }

  -- The loop of `UpdateRule` before its sort: the first rule of the name is replaced.
  unfoldable pub replace_rule : Rule → List Rule → Option (List Rule)
  replace_rule rule [] = none
  replace_rule rule (old ∷ rest) =
      let later = replace_rule rule rest in
      if old.name == rule.name
      then some (rule ∷ rest)
      else elim later [ none ↦ none | some changed ↦ some (old ∷ changed) ]

  unfoldable pub update_rule : Router → Rule → Result RoutingError Router
  update_rule r rule = elim (replace_rule rule r.rules) [
    | none ↦ err rule_not_found
    | some changed ↦ ok (record r { rules = sort_rules changed })
  ]

-- The loop of `RemoveRule`.
unfoldable pub without_rule : String → List Rule → List Rule
without_rule name [] = []
without_rule name (rule ∷ rest) =
    let others = without_rule name rest in if rule.name == name then others else rule ∷ others

unfoldable pub remove_rule : Router → String → Router
remove_rule r name = record r { rules = without_rule name r.rules }

-- The loop of `GetRule`.
unfoldable pub find_rule : String → List Rule → Option Rule
find_rule name [] = none
find_rule name (rule ∷ rest) =
    let later = find_rule name rest in if rule.name == name then some rule else later

unfoldable pub get_rule : Router → String → Option Rule
get_rule r name = find_rule name r.rules

pub list_rules : Router → List Rule
list_rules r = r.rules

unfoldable pub enable_aggregation : Router → Router
enable_aggregation r = record r { aggregate_mode = true }

unfoldable pub disable_aggregation : Router → Router
disable_aggregation r = record r { aggregate_mode = false }

pub is_aggregation_enabled : Router → Bool
is_aggregation_enabled r = r.aggregate_mode
