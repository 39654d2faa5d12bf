-- ===== src/Registry/Health.antt =====
-- internal/registry/registry.go, HealthCheck. Each active plugin is checked in a goroutine of its
-- own, which ends by one call of UpdateStatus; the list of plugins is the order in which these calls
-- happen, and what is proved holds for every order. What `Health` answers is the parameter `health`.
use Prim.Native.String
use netweave.Common.{
  String, ◌≡◌, refl, ◌∙◌, ap, inl, inr, Bool, true, false, ◌&&◌, ◌||◌, Option, none, some, List, [],
  ◌∷◌, ◌++◌, arith, if◌then◌else◌, Map, insert, after, ◌==◌, eq_iff, Option-cases, Result-cases,
}
use netweave.Registry.{
  Plugin, Registry, Instance, absent, plain, health_checker, status_active, status_unhealthy,
  values, update_status,
}
use netweave.Registry.Laws.{plugin_at, update_status-plugin_at, update_status-err}

abbrev is_checker : Instance → Bool
is_checker health_checker = true
is_checker _ = false

-- the plugins of one category that are checked
pub active_plugins : List Plugin → List Plugin
active_plugins [] = []
active_plugins (p ∷ ps) =
    let rest = active_plugins ps in if p.status == status_active then p ∷ rest else rest

pub all_active : Map (Map Plugin) → List Plugin
all_active [] = []
all_active ((c, ps) ∷ m) = active_plugins (values ps) ++ all_active m

pub result_key : Plugin → String
result_key p = String.◌++◌ p.category (String.◌++◌ "/" p.name)

abbrev verdict : Option String → String
verdict none = status_active
verdict (some e) = status_unhealthy

-- What the goroutines share: the registry, and the results by key.
pub record Checks : Type 0 where
  pub registry : Registry
  pub results : Map (Option String)

module _ (health : String → String → Option String) where
  abbrev check_instance : Instance → Plugin → Checks → Checks
  check_instance health_checker p s = record {
    registry =
        after s.registry
          (update_status s.registry p.category p.name (verdict (health p.category p.name)));
    results = insert (result_key p) (health p.category p.name) s.results;
  }
  check_instance _ p s = record s { results = insert (result_key p) none s.results }

  -- one goroutine
  pub check_plugin : Plugin → Checks → Checks
  check_plugin p s = check_instance p.instance_value p s

  pub check_plugins : List Plugin → Checks → Checks
  check_plugins [] s = s
  check_plugins (p ∷ ps) s = check_plugins ps (check_plugin p s)

  pub health_check : Registry → Checks
  health_check r = check_plugins (all_active r.plugins) (record { registry = r; results = [] })

  -- Whether a goroutine reports on the plugin at a category and a name.
  abbrev pub is_reported : List Plugin → String → String → Bool
  is_reported [] c n = false
  is_reported (p ∷ ps) c n =
      (is_checker p.instance_value && (p.category == c && p.name == n)) || is_reported ps c n

  abbrev pub checked_status : Bool → String → String → Plugin → Plugin
  checked_status false c n p = p
  checked_status true c n p = record p { status = verdict (health c n) }

  abbrev pub checked_plugin : Bool → String → String → Option Plugin → Option Plugin
  checked_plugin b c n none = none
  checked_plugin b c n (some p) = some (checked_status b c n p)

  unchanged : (o : Option Plugin) (c n : String) → o ≡ checked_plugin false c n o
  unchanged none c n = refl
  unchanged (some p) c n = refl

  -- One goroutine changes the status of its own plugin only.
  check_instance-plugin_at :
      (i : Instance) (p : Plugin) (s : Checks) (c n : String)
      → plugin_at (check_instance i p s).registry c n
        ≡ checked_plugin
            (is_checker i && (p.category == c && p.name == n))
            c
            n
            (plugin_at s.registry c n)
  check_instance-plugin_at absent p s c n = unchanged (plugin_at s.registry c n) c n
  check_instance-plugin_at plain p s c n = unchanged (plugin_at s.registry c n) c n
  check_instance-plugin_at health_checker p s c n =
      let v = verdict (health p.category p.name) in
      elim (Result-cases (update_status s.registry p.category p.name v)) [
        | inl (t, e) ↦
            let (q, there, at) = update_status-plugin_at s.registry t p.category p.name v e in
            rw (e, at c n)
              (ground (
                arith,
                eq_iff p.category c,
                eq_iff p.name n,
                Option-cases (plugin_at s.registry c n),
              ))
        | inr (x, e) ↦
            let missing = update_status-err s.registry p.category p.name v e in
            rw e (
              ground (
                arith,
                eq_iff p.category c,
                eq_iff p.name n,
                Option-cases (plugin_at s.registry c n),
              ))
      ]

  checked_twice :
      (a b : Bool) (c n : String) (o : Option Plugin)
      → checked_plugin b c n (checked_plugin a c n o) ≡ checked_plugin (a || b) c n o
  checked_twice a b c n none = refl
  checked_twice true true c n (some p) = refl
  checked_twice true false c n (some p) = refl
  checked_twice false b c n (some p) = refl

  -- Whatever the order in which the goroutines of `HealthCheck` end, a plugin on which one reports
  -- has the status that its answer gives, and nothing else in the registry changes.
  pub check_plugins-plugin_at :
      (ps : List Plugin) (s : Checks) (c n : String)
      → plugin_at (check_plugins ps s).registry c n
        ≡ checked_plugin (is_reported ps c n) c n (plugin_at s.registry c n)
  unfolding check_plugins check_plugin
  check_plugins-plugin_at [] s c n = unchanged (plugin_at s.registry c n) c n
  check_plugins-plugin_at (p ∷ ps) s c n =
      check_plugins-plugin_at ps (check_plugin p s) c n
      ∙ ap (checked_plugin (is_reported ps c n) c n)
          (check_instance-plugin_at p.instance_value p s c n)
      ∙ checked_twice (is_checker p.instance_value && (p.category == c && p.name == n))
          (is_reported ps c n) c n (plugin_at s.registry c n)
