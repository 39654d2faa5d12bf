-- ===== src/Smo/Health.antt =====
-- internal/smo/registry.go: a round of health checks, and every registry that calls can reach.
use netweave.Common.{
  ℕ, String, ◌≡◌, refl, sym, ap, ◌∙◌, subst, Bool, true, false, Option, none, some, [], ◌∷◌, arith,
  if◌then◌else◌, Map, lookup, Unique, All, All-of_lookup, keep, ok, ◌==◌, inl, inr, Bool-cases,
  String-cases,
}
use netweave.Smo.{
  Registry, Plugin, PluginInfo, exists, values, is_well, healthy_among, get_healthy, note_health,
  check_each, check_all_plugins_health, new_registry, register, unregister, set_default, close,
}
use netweave.Smo.Joining.{register-IsConsistent, unregister-IsConsistent}
use netweave.Smo.Laws.{
  IsConsistent, lookup-change, exists-change, changed, set_default-IsConsistent,
  check_all-IsConsistent,
}

changed_not : (f : PluginInfo → PluginInfo) (o : Option PluginInfo) → changed false f o ≡ o
changed_not f none = refl
changed_not f (some info) = refl

well_noted :
    (now : ℕ) (healthy : Bool) (o : Option PluginInfo)
    → exists o ≡ true
    → is_well (changed true (λ info. record info { healthy = healthy; last_health_at = now }) o)
      ≡ healthy
well_noted now healthy none e = absurd (ground (arith, e))
well_noted now healthy (some info) e = refl

lookup-check_each :
    (now : ℕ) (health : Plugin → Bool) (ps : Map Plugin) (infos : Map PluginInfo) (k : String)
    → lookup k ps ≡ none
    → lookup k (check_each now health ps infos) ≡ lookup k infos
unfolding check_each lookup
lookup-check_each now health [] infos k h = refl
lookup-check_each now health ((name, p) ∷ ps) infos k h = elim (Bool-cases (name == k)) [
  | inl b ↦ absurd (ground (arith, h, b))
  | inr b ↦
      lookup-check_each now health ps (note_health now name (health p) infos) k (rw b at h)
      ∙ lookup-change name k _ infos
      ∙ rw b (
          changed_not (λ info. record info { healthy = health p; last_health_at = now })
            (lookup k infos))
]

is_well-check_each :
    (now : ℕ) (health : Plugin → Bool) (ps : Map Plugin) (infos : Map PluginInfo) (k : String)
    (p : Plugin)
    → Unique ps
    → lookup k ps ≡ some p
    → exists (lookup k infos) ≡ true
    → is_well (lookup k (check_each now health ps infos)) ≡ health p
unfolding check_each lookup
is_well-check_each now health [] infos k p u h e = absurd (ground (arith, h))
is_well-check_each now health ((name, q) ∷ ps) infos k p u h e = elim (String-cases name k) [
  | inl (b, same) ↦
      let here : q ≡ p = ground (arith, h, b) in
      let gone : lookup k ps ≡ none = subst (λ n. lookup n ps ≡ none) same u.0 in
      ap is_well (lookup-check_each now health ps _ k gone ∙ lookup-change name k _ infos)
      ∙ rw b (well_noted now (health q) (lookup k infos) e)
      ∙ ap health here
  | inr (b, n) ↦
      is_well-check_each now health ps (note_health now name (health q) infos) k p u.1 (rw b at h)
        (exists-change name k _ infos ∙ e)
]

healthy_among-keep :
    (infos : Map PluginInfo) (health : Plugin → Bool) (ps : Map Plugin)
    → All (λ e. is_well (lookup e.0 infos) ≡ health e.1) ps
    → healthy_among infos ps ≡ keep health (values ps)
unfolding healthy_among
healthy_among-keep infos health [] h = refl
healthy_among-keep infos health ((name, p) ∷ ps) h =
    rw h.0
      (ap (λ rest. if health p then p ∷ rest else rest) (healthy_among-keep infos health ps h.1))

-- After a round of health checks of a consistent registry, get_healthy returns exactly the plugins
-- that answered that they are healthy, each once and in the order of the map, whatever was known of
-- them before.
pub get_healthy-check_all :
    (now : ℕ) (health : Plugin → Bool) (r : Registry)
    → IsConsistent r
    → get_healthy (check_all_plugins_health now health r) ≡ keep health (values r.plugins)
unfolding get_healthy check_all_plugins_health
get_healthy-check_all now health r c =
    let infos = check_each now health r.plugins r.plugin_info in
    healthy_among-keep infos health r.plugins (
      All-of_lookup (λ k p. is_well (lookup k infos) ≡ health p) r.plugins c.unique_plugins
        λ k p e.
          is_well-check_each now health r.plugins r.plugin_info k p c.unique_plugins e
            (sym (c.same_names k) ∙ ap exists e))

-- The calls that change a registry.
pub data Call : Registry → Registry → Type 0 where
  registers :
      (now : ℕ) (healthy d : Bool) (name : String) (given : Option Plugin) (r s : Registry)
      → register now healthy r name given d ≡ ok s
      → Call r s
  unregisters : (name : String) (r s : Registry) → unregister r name ≡ ok s → Call r s
  sets_default : (name : String) (r s : Registry) → set_default r name ≡ ok s → Call r s
  checks :
      (now : ℕ) (health : Plugin → Bool) (r : Registry)
      → Call r (check_all_plugins_health now health r)
  closes : (fails : Plugin → Bool) (r : Registry) → Call r (close fails r).0

pub data Reached : Registry → Type 0 where
  fresh : Reached new_registry
  after_call : {r s : Registry} → Reached r → Call r s → Reached s

new_registry-IsConsistent : IsConsistent new_registry
unfolding new_registry lookup
new_registry-IsConsistent = record {
  same_names = λ k. refl;
  unique_plugins = tt;
  unique_infos = tt;
  no_empty_name = refl;
  default_there = inl (refl, refl);
}

Call-IsConsistent : {r s : Registry} → Call r s → IsConsistent r → IsConsistent s
unfolding close
Call-IsConsistent (registers now healthy d name given r s h) c =
    register-IsConsistent now healthy r s name given d c h
Call-IsConsistent (unregisters name r s h) c = unregister-IsConsistent r s name c h
Call-IsConsistent (sets_default name r s h) c = set_default-IsConsistent r s name c h
Call-IsConsistent (checks now health r) c = check_all-IsConsistent now health r c
Call-IsConsistent (closes fails r) c = new_registry-IsConsistent

-- Every registry that calls of its methods reach is consistent: the same names have a plugin and
-- information, no name stands twice or is empty, and the default is a registered plugin, missing
-- only from an empty registry.
pub registry-IsConsistent : {r : Registry} → Reached r → IsConsistent r
registry-IsConsistent fresh = new_registry-IsConsistent
registry-IsConsistent (after_call before call) =
    Call-IsConsistent call (registry-IsConsistent before)
