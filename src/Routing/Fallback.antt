-- ===== src/Routing/Fallback.antt =====
-- internal/routing/routing.go, RouteMultiple: its result, fallback included, while other calls may
-- change the registry between its reads.
use netweave.Common.{
  ℕ, suc, ◌≡◌, ◌≢◌, refl, sym, subst, ◌⊎◌, inl, inr, Bool, true, false, not, ◌&&◌, Option, some,
  List, [], ◌∷◌, arith, Among, Map, lookup, insert, ok, Bool-cases, Option-cases, String-cases,
}
use netweave.DmsRegistry.{Adapter, DmsRegistry}
use netweave.Routing.{
  Rule, Context, Router, Moments, applies_at, marked, collect, collect_matching_adapters,
  add_default_adapter, is_empty, route_multiple, is_adapter_valid,
}

-- Of the rule with that number: it is enabled, it matches and its adapter is valid at the reads of
-- the code; and this is what is registered under its adapter name when the code fetches it. It is
-- nil only if the adapter was registered at the check and is not any more.
abbrev pub IsFetched : Moments → ℕ → Context → Rule → Option Adapter → Type 0
IsFetched m i ctx rule a =
    (applies_at m i ctx rule ≡ true)
    × (a ≡ lookup rule.adapter_name (m.at_fetch i).plugins)
    × ((p : Adapter) × (lookup rule.adapter_name (m.at_check i).plugins ≡ some p))

-- So is it for one of the rules, which are numbered from `i`.
abbrev pub IsRouted : Moments → ℕ → Context → List Rule → Option Adapter → Type 0
IsRouted m i ctx [] a = ⊥
IsRouted m i ctx (rule ∷ rules) a = IsFetched m i ctx rule a ⊎ IsRouted m (suc i) ctx rules a

abbrev pub NoneApplies : Moments → ℕ → Context → List Rule → Type 0
NoneApplies m i ctx [] = Unit
NoneApplies m i ctx (rule ∷ rules) =
    (applies_at m i ctx rule ≡ false) × NoneApplies m (suc i) ctx rules

-- No rule applies, and the adapter is the registered default one.
abbrev pub IsFallback : Moments → Context → Router → Option Adapter → Type 0
IsFallback m ctx r a =
    NoneApplies m 0 ctx r.rules
    × (r.fallback_enabled ≡ true)
    × (m.at_default.default_plugin ≢ "")
    × ((p : Adapter) × (a ≡ some p)
        × (lookup m.at_default.default_plugin m.at_default.plugins ≡ some p))

applies-IsFetched :
    (m : Moments) (i : ℕ) (ctx : Context) (rule : Rule)
    → applies_at m i ctx rule ≡ true
    → IsFetched m i ctx rule (lookup rule.adapter_name (m.at_fetch i).plugins)
unfolding is_adapter_valid
applies-IsFetched m i ctx rule h = (
  h,
  refl,
  elim (Option-cases (lookup rule.adapter_name (m.at_check i).plugins)) [
    | inl e ↦ absurd (ground arith)
    | inr there ↦ there
  ],
)

collect-IsRouted :
    (m : Moments) (i : ℕ) (ctx : Context) (rules : List Rule) (seen : Map Bool) (a : Option Adapter)
    → Among a (collect m i ctx rules seen)
    → IsRouted m i ctx rules a
unfolding collect
collect-IsRouted m i ctx [] seen a h = h
collect-IsRouted m i ctx (rule ∷ rules) seen a h =
    let taken = collect m (suc i) ctx rules (insert rule.adapter_name true seen) in
    let fetched = lookup rule.adapter_name (m.at_fetch i).plugins in
    elim (Bool-cases (not (marked rule.adapter_name seen) && applies_at m i ctx rule)) [
      | inr e ↦
          let later : Among a (collect m (suc i) ctx rules seen) = rw e at h in
          inr (collect-IsRouted m (suc i) ctx rules seen a later)
      | inl e ↦
          let cases : Among a (fetched ∷ taken) = rw e at h in
          elim cases [
            | inl same ↦ inl (
                subst (IsFetched m i ctx rule) same (applies-IsFetched m i ctx rule (ground arith)))
            | inr later ↦
                inr (
                  collect-IsRouted m (suc i) ctx rules (insert rule.adapter_name true seen) a later)
          ]
    ]

collect-NoneApplies :
    (m : Moments) (i : ℕ) (ctx : Context) (rules : List Rule)
    → is_empty (collect m i ctx rules []) ≡ true
    → NoneApplies m i ctx rules
unfolding collect is_empty lookup
collect-NoneApplies m i ctx [] h = tt
collect-NoneApplies m i ctx (rule ∷ rules) h = elim (Bool-cases (applies_at m i ctx rule)) [
  | inl e ↦ absurd (ground arith)
  | inr e ↦ (e, collect-NoneApplies m (suc i) ctx rules (ground arith))
]

default-there :
    (reg : DmsRegistry) (a : Option Adapter)
    → Among a (add_default_adapter reg)
    → (reg.default_plugin ≢ "")
      × ((p : Adapter) × (a ≡ some p) × (lookup reg.default_plugin reg.plugins ≡ some p))
unfolding add_default_adapter
default-there reg a m = elim (Option-cases (lookup reg.default_plugin reg.plugins)) [
  | inl e ↦ absurd (rw (e, add_default_adapter) at m)
  | inr (p, e) ↦ elim (String-cases reg.default_plugin "") [
    | inl (b, _) ↦ absurd (rw (e, b, add_default_adapter) at m)
    | inr (b, other) ↦
        let one : Among a (some p ∷ []) = rw (e, b, add_default_adapter) at m in
        elim one [ inl same ↦ (other, (p, sym same, e)) | inr other_one ↦ absurd other_one ]
  ]
]

-- Other calls may change the registry between the reads of route_multiple. Each entry that it
-- returns is what is registered, at the time it is fetched, under the adapter name of a rule that
-- is enabled, matches and has a valid adapter at the time of its checks; or no such rule exists, the
-- fallback is enabled and the entry is the registered default. So an entry is nil only if its
-- adapter was registered at the check and is not any more when it is fetched.
pub route_multiple_sound :
    (m : Moments) (r : Router) (ctx : Context) (found : List (Option Adapter)) (a : Option Adapter)
    → route_multiple m r ctx ≡ ok found
    → Among a found
    → IsRouted m 0 ctx r.rules a ⊎ IsFallback m ctx r a
unfolding route_multiple collect_matching_adapters
route_multiple_sound m r ctx found a h there =
    let collected = collect m 0 ctx r.rules [] in
    elim (Bool-cases (is_empty collected && r.fallback_enabled)) [
      | inr b ↦
          let same : collected ≡ found = ground arith in
          inl (collect-IsRouted m 0 ctx r.rules [] a (subst (Among a) (sym same) there))
      | inl b ↦
          let same : add_default_adapter m.at_default ≡ found = ground arith in
          let d = default-there m.at_default a (subst (Among a) (sym same) there) in
          inr (collect-NoneApplies m 0 ctx r.rules (ground arith), ground arith, d.0, d.1)
    ]
