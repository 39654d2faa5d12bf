-- ===== src/Routing/Lookup.antt =====
-- internal/routing/routing.go: the rules of a router by their names.
use netweave.Common.{
  String, ◌≡◌, refl, subst, inl, inr, none, some, List, [], ◌∷◌, arith, if◌then◌else◌, Among, ok,
  err, ◌==◌, eq_iff, Bool-cases, Option-cases,
}
use netweave.Routing.{Rule, Router, RoutingError, rule_not_found}
use netweave.Routing.Rules.{
  Sorter, higher, sort_rules, update_rule, remove_rule, replace_rule, without_rule, find_rule,
  get_rule, Rearranges, none_left, keep, exchange, chain,
}
use netweave.Routing.Order.{Among-rearranges}

find_rule-without_rule :
    (name other : String) (rules : List Rule)
    → find_rule other (without_rule name rules)
      ≡ (if name == other then none else find_rule other rules)
unfolding find_rule without_rule
find_rule-without_rule name other [] = ground arith
find_rule-without_rule name other (rule ∷ rules) = ground (
  arith,
  find_rule-without_rule name other rules,
  eq_iff rule.name name,
  eq_iff rule.name other,
  eq_iff name other,
)

-- After remove_rule no rule of that name is found, and each other name finds what it found before.
pub remove_rule-get_rule :
    (r : Router) (name other : String)
    → get_rule (remove_rule r name) other ≡ (if name == other then none else get_rule r other)
unfolding get_rule remove_rule
remove_rule-get_rule r name other = find_rule-without_rule name other r.rules

back : {A : Type 0} {xs ys : List A} → Rearranges xs ys → Rearranges ys xs
back none_left = none_left
back (keep p) = keep (back p)
back exchange = exchange
back (chain p q) = chain (back q) (back p)

module _ (sorter : Sorter) where
  replaced :
      (rule : Rule) (rules changed : List Rule)
      → replace_rule sorter rule rules ≡ some changed
      → Among rule changed × ((old : Rule) × (find_rule rule.name rules ≡ some old))
  unfolding replace_rule find_rule
  replaced rule [] changed h = absurd (ground arith)
  replaced rule (old ∷ rules) changed h = elim (Bool-cases (old.name == rule.name)) [
    | inl b ↦
        let same : rule ∷ rules ≡ changed = ground arith in
        (subst (Among rule) same (inl refl), (old, rw b refl))
    | inr b ↦ elim (Option-cases (replace_rule sorter rule rules)) [
      | inl e ↦ absurd (ground arith)
      | inr (later, e) ↦
          let same : old ∷ later ≡ changed = ground arith in
          let (there, (q, found)) = replaced rule rules later e in
          (subst (Among rule) same (inr there), (q, rw b found))
    ]
  ]

  not_replaced :
      (rule : Rule) (rules : List Rule)
      → replace_rule sorter rule rules ≡ none
      → find_rule rule.name rules ≡ none
  unfolding replace_rule find_rule
  not_replaced rule [] h = refl
  not_replaced rule (old ∷ rules) h = elim (Bool-cases (old.name == rule.name)) [
    | inl b ↦ absurd (ground arith)
    | inr b ↦ elim (Option-cases (replace_rule sorter rule rules)) [
      | inl e ↦ rw b (not_replaced rule rules e)
      | inr (later, e) ↦ absurd (ground arith)
    ]
  ]

  -- A successful update_rule leaves the given rule among the rules, and a rule of its name was
  -- there; update_rule fails exactly with rule_not_found, and then no rule has the name.
  pub update_rule-get_rule :
      (r : Router) (rule : Rule)
      → ((t : Router)
          → update_rule sorter r rule ≡ ok t
          → Among rule t.rules × ((old : Rule) × (get_rule r rule.name ≡ some old)))
        × ((e : RoutingError)
            → update_rule sorter r rule ≡ err e
            → (e ≡ rule_not_found) × (get_rule r rule.name ≡ none))
  unfolding update_rule get_rule sort_rules
  update_rule-get_rule r rule = elim (Option-cases (replace_rule sorter rule r.rules)) [
    | inl e ↦ (λ t h. absurd (ground arith), λ x h. (ground arith, not_replaced rule r.rules e))
    | inr (changed, e) ↦ (
      λ t h.
          let same : record r { rules = sort_rules sorter changed } ≡ t = ground arith in
          let (there, found) = replaced rule r.rules changed e in
          (
            subst (λ x. Among rule x.rules) same
                (Among-rearranges rule (back (sorter.permutes higher changed)) there),
            found,
          ),
      λ x h. absurd (ground arith),
    )
  ]
