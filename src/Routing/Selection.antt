-- ===== src/Routing/Selection.antt =====
-- internal/routing/routing.go: which adapters `collectMatchingAdapters` and `RouteMultiple` choose.
use netweave.Common.{
  ℕ, suc, String, ◌≡◌, refl, ap, ◌∙◌, subst, ◌⊎◌, inl, inr, Bool, true, false, not, ◌&&◌, ◌||◌,
  List, [], ◌∷◌, map, arith, if◌then◌else◌, Among, Map, lookup, insert, lookup-insert, ◌==◌,
  eq_refl, Bool-cases, String-cases,
}
use netweave.DmsRegistry.{DmsRegistry}
use netweave.Routing.{
  Rule, Context, Router, marked, still, applies, collect, collect_matching_adapters,
}

-- A list without repetition.
abbrev pub Distinct : List String → Type 0
Distinct [] = Unit
Distinct (n ∷ ns) = ¬ Among n ns × Distinct ns

module _ (reg : DmsRegistry) (ctx : Context) where
  -- The names under which the loop takes adapters.
  pub chosen : List Rule → Map Bool → List String
  chosen [] seen = []
  chosen (rule ∷ rules) seen =
      let passed = chosen rules seen in
      let taken = chosen rules (insert rule.adapter_name true seen) in
      if not (marked rule.adapter_name seen) && applies reg ctx rule
      then rule.adapter_name ∷ taken
      else passed

  -- A rule of the list that applies has the name.
  abbrev pub Wanted : List Rule → String → Type 0
  Wanted rules n =
      (rule : Rule) × Among rule rules × (applies reg ctx rule ≡ true) × (rule.adapter_name ≡ n)

  abbrev fresh : Rule → Map Bool → Bool
  fresh rule seen = not (marked rule.adapter_name seen) && applies reg ctx rule

  collect-map :
      (i : ℕ) (rules : List Rule) (seen : Map Bool)
      → collect (still reg) i ctx rules seen ≡ map (λ n. lookup n reg.plugins) (chosen rules seen)
  unfolding collect chosen
  collect-map i [] seen = refl
  collect-map i (rule ∷ rules) seen = elim (Bool-cases (fresh rule seen)) [
    | inl e ↦ rw e (ap (◌∷◌ (lookup rule.adapter_name reg.plugins)) (collect-map (suc i) rules _))
    | inr e ↦ rw e (collect-map (suc i) rules seen)
  ]

  marked-insert :
      (name n : String) (seen : Map Bool)
      → marked n (insert name true seen) ≡ ((name == n) || marked n seen)
  marked-insert name n seen = ground (arith, lookup-insert name n true seen)

  -- What is chosen is wanted, and was not seen before.
  chosen_sound :
      (rules : List Rule) (seen : Map Bool) (n : String)
      → Among n (chosen rules seen)
      → Wanted rules n × (marked n seen ≡ false)
  unfolding chosen
  chosen_sound [] seen n h = absurd h
  chosen_sound (rule ∷ rules) seen n h = elim (Bool-cases (fresh rule seen)) [
    | inr e ↦
        let later : Among n (chosen rules seen) = rw e at h in
        let ((r, there, fits, same), new) = chosen_sound rules seen n later in
        ((r, inr there, fits, same), new)
    | inl e ↦
        let cases : Among n
            (rule.adapter_name ∷ chosen rules (insert rule.adapter_name true seen)) =
          rw e at h in
        elim cases [
          | inl same ↦ (
            (rule, inl refl, ground arith, same),
            subst (λ x. marked x seen ≡ false) same (ground arith),
          )
          | inr later ↦
              let ((r, there, fits, called), new) = chosen_sound rules _ n later in
              ((r, inr there, fits, called), ground (arith, marked-insert rule.adapter_name n seen))
        ]
  ]

  -- What is wanted is chosen, or was seen before.
  chosen_complete :
      (rules : List Rule) (seen : Map Bool) (rule : Rule)
      → Among rule rules
      → applies reg ctx rule ≡ true
      → Among rule.adapter_name (chosen rules seen) ⊎ (marked rule.adapter_name seen ≡ true)
  unfolding chosen
  chosen_complete [] seen rule m a = absurd m
  chosen_complete (r ∷ rules) seen rule (inl same) a = elim (Bool-cases (fresh r seen)) [
    | inl e ↦ inl (rw e (inl (ap (λ x. x.adapter_name) same)))
    | inr e ↦
        let a' : applies reg ctx r ≡ true = ap (applies reg ctx) same ∙ a in
        inr (subst (λ x. marked x.adapter_name seen ≡ true) same (ground arith))
  ]
  chosen_complete (r ∷ rules) seen rule (inr m) a = elim (Bool-cases (fresh r seen)) [
    | inr e ↦ rw e (chosen_complete rules seen rule m a)
    | inl e ↦ elim (String-cases r.adapter_name rule.adapter_name) [
      | inl (b, same) ↦ inl (rw e (inl same))
      | inr (b, other) ↦ elim (chosen_complete rules (insert r.adapter_name true seen) rule m a) [
        | inl there ↦ inl (rw e (inr there))
        | inr old ↦ inr (ground (arith, marked-insert r.adapter_name rule.adapter_name seen))
      ]
    ]
  ]

  chosen-Distinct : (rules : List Rule) (seen : Map Bool) → Distinct (chosen rules seen)
  unfolding chosen
  chosen-Distinct [] seen = tt
  chosen-Distinct (rule ∷ rules) seen = elim (Bool-cases (fresh rule seen)) [
    | inr e ↦ rw e (chosen-Distinct rules seen)
    | inl e ↦
        let rest = insert rule.adapter_name true seen in
        let once : ¬ Among rule.adapter_name (chosen rules rest) = λ m.
          let (w, new) = chosen_sound rules rest rule.adapter_name m in
          ground (
            arith,
            marked-insert rule.adapter_name rule.adapter_name seen,
            eq_refl rule.adapter_name,
          ) in
        rw e (once, chosen-Distinct rules rest)
  ]

-- While the registry does not change, collect_matching_adapters returns the registered adapters of a list of names without repetition.
-- A name is in that list exactly if a rule of the router that is enabled, matches the context and
-- has a valid adapter has it as its adapter name.
pub collect_matching_adapters_exact :
    (reg : DmsRegistry) (r : Router) (ctx : Context)
    → (names : List String) × (collect_matching_adapters (still reg) r ctx
        ≡ map (λ n. lookup n reg.plugins) names)
      × Distinct names
      × ((n : String) → Among n names → Wanted reg ctx r.rules n)
      × ((n : String) → Wanted reg ctx r.rules n → Among n names)
unfolding collect_matching_adapters lookup
collect_matching_adapters_exact reg r ctx = (
  chosen reg ctx r.rules [],
  collect-map reg ctx 0 r.rules [],
  chosen-Distinct reg ctx r.rules [],
  λ n m. (chosen_sound reg ctx r.rules [] n m).0,
  λ n (rule, there, a, same). elim (chosen_complete reg ctx r.rules [] rule there a) [
    | inl m ↦ subst (λ x. Among x (chosen reg ctx r.rules [])) same m
    | inr old ↦ absurd (ground arith)
  ],
)
