-- ===== src/Registry/Selection.antt =====
-- internal/registry/registry.go, SelectPlugin.
use netweave.Common.{
  as_map, String, ◌≡◌, ◌≢◌, refl, ap, subst, ◌⊎◌, inl, inr, Bool, true, false, Option, none, some,
  List, [], ◌∷◌, arith, if◌then◌else◌, Map, lookup, ok, err, ◌>>=◌, ◌>>◌, or_fail, ℤ, pos, negsuc,
  ltb_ℤ, ◌≤ℤ◌, ≤ℤ_refl, ≤ℤ_trans, ltb_ℤ-true, ltb_ℤ-false, Any, ◌==◌, Among, eq_iff, Bool-cases,
  Option-cases, >>=-eq-ok, >>=-eq-err, Result-cases, reject_if,
}
use netweave.Registry.{
  Plugin, Registry, Error, Outcome, no_plugins, no_active_plugin, panicked, status_active,
  matches_criteria, values, category_map, matches_metadata,
}

-- `selected` and `highestPriority`
pub record Choice : Type 0 where
  pub selected : Option Plugin
  pub highest : ℤ

-- The round for one plugin.
abbrev consider : Plugin → Bool → Choice → Choice
consider p false c = c
consider p true c =
    if ltb_ℤ c.highest p.priority then record { selected = some p; highest = p.priority } else c

abbrev admits : Plugin → Map Any → Outcome Bool
admits p criteria = if p.status == status_active then matches_criteria p criteria else ok false

unfoldable pub select_from : Map Any → List Plugin → Choice → Outcome Choice
select_from criteria [] c = ok c
select_from criteria (p ∷ ps) c = do
  fits ← admits p criteria
  select_from criteria ps (consider p fits c)

-- highestPriority := -1
abbrev no_choice : Choice
no_choice = record { selected = none; highest = negsuc 0 }

abbrev is_empty_list {ℓ} : {A : Type ℓ} → List A → Bool
is_empty_list [] = true
is_empty_list _ = false

unfoldable pub select_plugin : Registry → String → Map Any → Outcome Plugin
select_plugin r category criteria = do
  reject_if (is_empty_list (category_map category r.plugins)) no_plugins
  c ← select_from criteria (values (category_map category r.plugins)) no_choice
  or_fail c.selected no_active_plugin

-- What a plugin must be to come into question: active, and a match of the criteria.
abbrev pub Selectable : Map Any → Plugin → Type 0
Selectable criteria p = (p.status ≡ status_active) × (matches_criteria p criteria ≡ ok true)

admits-Selectable :
    (criteria : Map Any) (p : Plugin) → admits p criteria ≡ ok true → Selectable criteria p
admits-Selectable criteria p h = elim (Bool-cases (p.status == status_active)) [
  | inl e ↦ ((eq_iff p.status status_active).0 e, rw e at h)
  | inr e ↦ absurd (ground arith)
]

Selectable-admits :
    (criteria : Map Any) (p : Plugin) → Selectable criteria p → admits p criteria ≡ ok true
Selectable-admits criteria p h = rw ((eq_iff p.status status_active).1 h.0) h.1

consider-grows : (p : Plugin) (fits : Bool) (c : Choice) → c.highest ≤ℤ (consider p fits c).highest
consider-grows p false c = ≤ℤ_refl c.highest
consider-grows p true c = elim (Bool-cases (ltb_ℤ c.highest p.priority)) [
  | inl e ↦ rw e (ltb_ℤ-true c.highest p.priority e)
  | inr e ↦ rw e (≤ℤ_refl c.highest)
]

consider-covers : (p : Plugin) (c : Choice) → p.priority ≤ℤ (consider p true c).highest
consider-covers p c = elim (Bool-cases (ltb_ℤ c.highest p.priority)) [
  | inl e ↦ rw e (≤ℤ_refl p.priority)
  | inr e ↦ rw e (ltb_ℤ-false c.highest p.priority e)
]

module _ (criteria : Map Any) where
  select_from-grows :
      (ps : List Plugin) (c d : Choice) → select_from criteria ps c ≡ ok d → c.highest ≤ℤ d.highest
  unfolding select_from
  select_from-grows [] c d h = ground arith
  select_from-grows (p ∷ ps) c d h =
      let (fits, e, rest) = >>=-eq-ok (admits p criteria) _ h in
      ≤ℤ_trans c.highest (consider p fits c).highest d.highest (consider-grows p fits c)
        (select_from-grows ps (consider p fits c) d rest)

  select_from-covers :
      (ps : List Plugin) (c d : Choice) (q : Plugin)
      → select_from criteria ps c ≡ ok d
      → Among q ps
      → Selectable criteria q
      → q.priority ≤ℤ d.highest
  unfolding select_from
  select_from-covers [] c d q h m s = absurd m
  select_from-covers (p ∷ ps) c d q h (inl same) s =
      let (fits, e, rest) = >>=-eq-ok (admits p criteria) _ h in
      let yes_fits : fits ≡ true =
        ground (arith, e, Selectable-admits criteria q s, ap (λ x. admits x criteria) same) in
      ≤ℤ_trans q.priority (consider p fits c).highest d.highest
        (rw (← same, yes_fits) (consider-covers p c))
        (select_from-grows ps (consider p fits c) d rest)
  select_from-covers (p ∷ ps) c d q h (inr m) s =
      let (fits, e, rest) = >>=-eq-ok (admits p criteria) _ h in
      select_from-covers ps (consider p fits c) d q rest m s

  -- The choice is the one that the loop began with, or a plugin that came into question.
  abbrev Chosen : List Plugin → Choice → Type 0
  Chosen ps d =
      (q : Plugin) × Among q ps
      × Selectable criteria q
      × (d.selected ≡ some q)
      × (d.highest ≡ q.priority)
      × (pos 0 ≤ℤ q.priority)

  consider-from :
      (p : Plugin) (ps : List Plugin) (fits : Bool) (c d : Choice)
      → negsuc 0 ≤ℤ c.highest
      → admits p criteria ≡ ok fits
      → d ≡ consider p fits c
      → (d ≡ c) ⊎ Chosen (p ∷ ps) d
  consider-from p ps false c d low e same = inl same
  consider-from p ps true c d low e same = elim (Bool-cases (ltb_ℤ c.highest p.priority)) [
    | inl better ↦
        let is : d ≡ record { selected = some p; highest = p.priority } = rw better at same in
        inr (
          p,
          inl refl,
          admits-Selectable criteria p e,
          ap (λ x. x.selected) is,
          ap (λ x. x.highest) is,
          ground arith,
        )
    | inr worse ↦ inl (rw worse at same)
  ]

  select_from-from :
      (ps : List Plugin) (c d : Choice)
      → negsuc 0 ≤ℤ c.highest
      → select_from criteria ps c ≡ ok d
      → (d ≡ c) ⊎ Chosen ps d
  unfolding select_from
  select_from-from [] c d low h = inl (ground arith)
  select_from-from (p ∷ ps) c d low h =
      let (fits, e, rest) = >>=-eq-ok (admits p criteria) _ h in
      let still =
        ≤ℤ_trans (negsuc 0) c.highest (consider p fits c).highest low (consider-grows p fits c) in
      elim (select_from-from ps (consider p fits c) d still rest) [
        | inr (q, m, s, f, g, z) ↦ inr (q, inr m, s, f, g, z)
        | inl same ↦ consider-from p ps fits c d low e same
      ]

-- The plugin that `select_plugin` returns is in the category, is active and matches the criteria,
-- and no such plugin of the category has a higher priority; its priority is not negative.
pub select_plugin_sound :
    (r : Registry) (category : String) (criteria : Map Any) (q : Plugin)
    → select_plugin r category criteria ≡ ok q
    → Among q (values (category_map category r.plugins))
      × Selectable criteria q
      × ((p : Plugin)
          → Among p (values (category_map category r.plugins))
          → Selectable criteria p
          → p.priority ≤ℤ q.priority)
      × (pos 0 ≤ℤ q.priority)
unfolding select_plugin
select_plugin_sound r category criteria q h =
    let ps = values (category_map category r.plugins) in
    let (u, full, run) =
      >>=-eq-ok (reject_if (is_empty_list (category_map category r.plugins)) no_plugins) _ h in
    let (d, e, got) = >>=-eq-ok (select_from criteria ps no_choice) _ run in
    elim (select_from-from criteria ps no_choice d (omega arith) e) [
      | inl same ↦ absurd (ground arith)
      | inr (p, m, s, f, g, z) ↦
          let same : p ≡ q = ground arith in
          subst
            (λ x.
              Among x ps
              × Selectable criteria x
              × ((p : Plugin) → Among p ps → Selectable criteria p → p.priority ≤ℤ x.priority)
              × (pos 0 ≤ℤ x.priority))
            same
            (m, s, λ o mo so. rw (← g) (select_from-covers criteria ps no_choice d o e mo so), z)
    ]

not_empty : (m : Map Plugin) (p : Plugin) → Among p (values m) → is_empty_list m ≡ false
not_empty [] p h = absurd h
not_empty (x ∷ m) p h = refl

matches_metadata-err :
    (have wanted : Map Any) {e : Error} → matches_metadata have wanted ≡ err e → e ≡ panicked
unfolding matches_metadata
matches_metadata-err have [] h = absurd (ground arith)
matches_metadata-err have ((k, v) ∷ wanted) {e} h =
    ground (arith, matches_metadata-err have wanted {e = e}, Option-cases (lookup k have))

admits-err :
    (p : Plugin) (criteria : Map Any) {e : Error} → admits p criteria ≡ err e → e ≡ panicked
unfolding matches_criteria
admits-err p criteria {e} h = elim (Option-cases (as_map (lookup "metadata" criteria))) [
  | inl f ↦ absurd (ground arith)
  | inr (wanted, f) ↦ ground (arith, matches_metadata-err p.metadata wanted {e = e})
]

select_from-err :
    (criteria : Map Any) (ps : List Plugin) (c : Choice) {e : Error}
    → select_from criteria ps c ≡ err e
    → e ≡ panicked
unfolding select_from
select_from-err criteria [] c h = absurd (ground arith)
select_from-err criteria (p ∷ ps) c h = elim (>>=-eq-err (admits p criteria) _ h) [
  | inl f ↦ admits-err p criteria f
  | inr (fits, f, rest) ↦ select_from-err criteria ps (consider p fits c) rest
]

-- If some active plugin of the category matches the criteria and its priority is not negative, then
-- a plugin is selected, unless the comparison of two metadata values panics.
pub select_plugin_complete :
    (r : Registry) (category : String) (criteria : Map Any) (p : Plugin)
    → Among p (values (category_map category r.plugins))
    → Selectable criteria p
    → pos 0 ≤ℤ p.priority
    → ((q : Plugin) × (select_plugin r category criteria ≡ ok q))
      ⊎ (select_plugin r category criteria ≡ err panicked)
unfolding select_plugin
select_plugin_complete r category criteria p m s z =
    let ps = values (category_map category r.plugins) in
    let some_there : is_empty_list (category_map category r.plugins) ≡ false =
      not_empty (category_map category r.plugins) p m in
    rw some_there (elim (Result-cases (select_from criteria ps no_choice)) [
      | inl (d, e) ↦ elim (select_from-from criteria ps no_choice d (omega arith) e) [
        | inl same ↦
            let top = select_from-covers criteria ps no_choice d p e m s in
            let low : d.highest ≡ negsuc 0 = ap (λ x. x.highest) same in
            absurd (
              omega (
                arith,
                ≤ℤ_trans (pos 0) p.priority (negsuc 0) z (subst (λ x. p.priority ≤ℤ x) low top),
              ))
        | inr (q, mq, sq, f, g, zq) ↦ inl (q, rw (e, f) refl)
      ]
      | inr (x, e) ↦ inr (rw (e, select_from-err criteria ps no_choice e) refl)
    ])

-- Plugins of negative priority are never selected: if every active match has one, the result is an
-- error.
pub select_plugin-negative :
    (r : Registry) (category : String) (criteria : Map Any)
    → ((p : Plugin)
        → Among p (values (category_map category r.plugins))
        → Selectable criteria p
        → p.priority ≤ℤ negsuc 0)
    → (q : Plugin) → select_plugin r category criteria ≢ ok q
select_plugin-negative r category criteria low q h =
    let (m, s, top, z) = select_plugin_sound r category criteria q h in
    absurd (omega (arith, low q m s))
