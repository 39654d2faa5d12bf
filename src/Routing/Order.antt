-- ===== src/Routing/Order.antt =====
-- internal/routing/routing.go: the order of the rules, and what it means for the choice.
use netweave.Common.{
  ℕ, suc, String, ◌≡◌, refl, sym, ap, subst, inl, inr, true, Option, List, [], ◌∷◌, ◌++◌, arith,
  All, Among, lookup, Result, ok, after, ◌==◌, ◌≤ℤ◌, ≤ℤ_refl, ltb_ℤ-false, Bool-cases, Option-cases,
  Result-cases,
}
use netweave.DmsRegistry.{Adapter, DmsRegistry}
use netweave.Routing.{
  Rule, Context, Router, RoutingError, still, applies, collect, collect_matching_adapters,
}
use netweave.Routing.Rules.{
  IsWeakOrder, IsSorted, Rearranges, none_left, keep, exchange, chain, Sorter, higher, sort_rules,
  add_rule, update_rule, remove_rule, replace_rule, without_rule, enable_aggregation,
  disable_aggregation,
}
use netweave.Routing.Config.{Config, new_router, convert_rules, or_default}

pub higher-IsWeakOrder : IsWeakOrder higher
higher-IsWeakOrder = (λ a b h. ground arith, λ a b c h k. ground arith)

pub Among-rearranges :
    {A : Type 0} {xs ys : List A} (a : A) → Rearranges xs ys → Among a xs → Among a ys
Among-rearranges a none_left m = m
Among-rearranges a (keep p) (inl same) = inl same
Among-rearranges a (keep p) (inr m) = inr (Among-rearranges a p m)
Among-rearranges a exchange (inl same) = inr (inl same)
Among-rearranges a exchange (inr (inl same)) = inl same
Among-rearranges a exchange (inr (inr m)) = inr (inr m)
Among-rearranges a (chain p q) m = Among-rearranges a q (Among-rearranges a p m)

-- The calls that change a router.
pub data Call : Type 0 where
  adds updates : Rule → Call
  removes : String → Call
  enables_aggregation disables_aggregation : Call

abbrev pub InOrder : Router → Type 0
InOrder r = IsSorted higher r.rules

All-without_rule :
    (P : Rule → Type 0) (name : String) (rules : List Rule)
    → All P rules
    → All P (without_rule name rules)
unfolding without_rule
All-without_rule P name [] h = tt
All-without_rule P name (rule ∷ rules) (h, hs) = elim (Bool-cases (rule.name == name)) [
  | inl e ↦ rw e (All-without_rule P name rules hs)
  | inr e ↦ rw e (h, All-without_rule P name rules hs)
]

without_rule-IsSorted :
    (name : String) (rules : List Rule)
    → IsSorted higher rules
    → IsSorted higher (without_rule name rules)
unfolding without_rule
without_rule-IsSorted name [] h = tt
without_rule-IsSorted name (rule ∷ rules) (h, hs) = elim (Bool-cases (rule.name == name)) [
  | inl e ↦ rw e (without_rule-IsSorted name rules hs)
  | inr e ↦ rw e (All-without_rule _ name rules h, without_rule-IsSorted name rules hs)
]

module _ (sorter : Sorter) where
  pub call : Router → Call → Result RoutingError Router
  call r (adds rule) = ok (add_rule sorter r rule)
  call r (updates rule) = update_rule sorter r rule
  call r (removes name) = ok (remove_rule r name)
  call r enables_aggregation = ok (enable_aggregation r)
  call r disables_aggregation = ok (disable_aggregation r)

  sort_rules-IsSorted : (rules : List Rule) → IsSorted higher (sort_rules sorter rules)
  unfolding sort_rules
  sort_rules-IsSorted rules = sorter.sorts higher rules higher-IsWeakOrder

  update_rule-InOrder : (r t : Router) (rule : Rule) → update_rule sorter r rule ≡ ok t → InOrder t
  unfolding update_rule
  update_rule-InOrder r t rule h = elim (Option-cases (replace_rule sorter rule r.rules)) [
    | inl e ↦ absurd (ground arith)
    | inr (changed, e) ↦
        let same : record r { rules = sort_rules sorter changed } ≡ t = ground arith in
        subst InOrder same (sort_rules-IsSorted changed)
  ]

  call-InOrder : (r t : Router) (c : Call) → call r c ≡ ok t → InOrder r → InOrder t
  unfolding call add_rule remove_rule enable_aggregation disable_aggregation
  call-InOrder r t (adds rule) h v =
      let same : add_rule sorter r rule ≡ t = ground arith in
      subst InOrder same (sort_rules-IsSorted (r.rules ++ (rule ∷ [])))
  call-InOrder r t (updates rule) h v = update_rule-InOrder r t rule h
  call-InOrder r t (removes name) h v =
      let same : remove_rule r name ≡ t = ground arith in
      subst InOrder same (without_rule-IsSorted name r.rules v)
  call-InOrder r t enables_aggregation h v =
      let same : enable_aggregation r ≡ t = ground arith in subst InOrder same v
  call-InOrder r t disables_aggregation h v =
      let same : disable_aggregation r ≡ t = ground arith in subst InOrder same v

  pub run : Router → List Call → Router
  run r [] = r
  run r (c ∷ cs) = run (after r (call r c)) cs

  run_from-InOrder : (r : Router) (cs : List Call) → InOrder r → InOrder (run r cs)
  unfolding run
  run_from-InOrder r [] v = v
  run_from-InOrder r (c ∷ cs) v = elim (Result-cases (call r c)) [
    | inl (t, e) ↦
        subst (λ o. InOrder (run (after r o) cs)) (sym e)
          (run_from-InOrder t cs (call-InOrder r t c e v))
    | inr (x, e) ↦ subst (λ o. InOrder (run (after r o) cs)) (sym e) (run_from-InOrder r cs v)
  ]

  -- A router made from any configuration, after any calls that add, update and remove rules or
  -- switch the aggregation, has no rule behind one of lower priority.
  pub run-InOrder :
      (config : Option Config) (cs : List Call) → InOrder (run (new_router sorter config) cs)
  unfolding new_router
  run-InOrder config cs =
      run_from-InOrder _ cs (sort_rules-IsSorted (convert_rules (or_default config).rules))

pub All-of_Among :
    (P : Rule → Type 0) (rules : List Rule) (rule : Rule) → All P rules → Among rule rules → P rule
All-of_Among P [] rule h m = absurd m
All-of_Among P (r ∷ rules) rule (h, hs) (inl same) = subst P same h
All-of_Among P (r ∷ rules) rule (h, hs) (inr m) = All-of_Among P rules rule hs m

-- A rule of the list that applies, and beside which none that applies has a higher priority.
abbrev pub Best : DmsRegistry → Context → List Rule → Rule → Type 0
Best reg ctx rules rule =
    Among rule rules
    × (applies reg ctx rule ≡ true)
    × ((other : Rule)
        → Among other rules
        → applies reg ctx other ≡ true
        → other.priority ≤ℤ rule.priority)

collect-first :
    (reg : DmsRegistry) (ctx : Context) (i : ℕ) (rules : List Rule) (a : Option Adapter)
    (rest : List (Option Adapter))
    → IsSorted higher rules
    → collect (still reg) i ctx rules [] ≡ a ∷ rest
    → (rule : Rule) × Best reg ctx rules rule × (lookup rule.adapter_name reg.plugins ≡ a)
unfolding collect lookup
collect-first reg ctx i [] a rest s h = absurd (ground arith)
collect-first reg ctx i (rule ∷ rules) a rest (s, ss) h = elim (Bool-cases (applies reg ctx rule)) [
  | inl e ↦
      let same : lookup rule.adapter_name reg.plugins ≡ a = ground arith in
      let top : (other : Rule)
          → Among other (rule ∷ rules)
          → applies reg ctx other ≡ true
          → other.priority ≤ℤ rule.priority =
        λ other m f. elim m [
          | inl is ↦ subst (λ x. x.priority ≤ℤ rule.priority) is (≤ℤ_refl rule.priority)
          | inr later ↦
              ltb_ℤ-false rule.priority other.priority (All-of_Among _ rules other s later)
        ] in
      (rule, (inl refl, e, top), same)
  | inr e ↦
      let later : collect (still reg) (suc i) ctx rules [] ≡ a ∷ rest = ground arith in
      let (q, (m, f, top), same) = collect-first reg ctx (suc i) rules a rest ss later in
      (
        q,
        (
          inr m,
          f,
          λ other there g. elim there [
            | inl is ↦ absurd (ground (arith, ap (applies reg ctx) is))
            | inr there ↦ top other there g
          ],
        ),
        same,
      )
]

-- In a router whose rules are in order of priority, the first adapter that
-- collect_matching_adapters returns is that of a rule that applies, and no rule that applies has a
-- higher priority.
pub collect_matching_adapters-first :
    (reg : DmsRegistry) (ctx : Context) (r : Router) (a : Option Adapter)
    (rest : List (Option Adapter))
    → InOrder r
    → collect_matching_adapters (still reg) r ctx ≡ a ∷ rest
    → (rule : Rule) × Best reg ctx r.rules rule × (lookup rule.adapter_name reg.plugins ≡ a)
unfolding collect_matching_adapters
collect_matching_adapters-first reg ctx r a rest v h = collect-first reg ctx 0 r.rules a rest v h
