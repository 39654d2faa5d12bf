-- ===== src/Registry/Tests.antt =====
-- Runs of the plugin registry, and its theorems at concrete registries.
use netweave.Common.{
  String, ◌≡◌, ◌≤ℤ◌, refl, subst, ◌⊎◌, inl, inr, Option, none, some, List, [], ◌∷◌, arith,
  if◌then◌else◌, ◌&&◌, Among, Map, lookup, insert, erase, ok, err, pos, negsuc, ◌==◌, Any,
}
use netweave.Registry.{
  Plugin, Registry, health_checker, panicked, category_map, values, validate_plugin, register,
  unregister, update_status, new_registry, matches_criteria,
}
use netweave.Registry.Selection.{
  Selectable, select_plugin, select_from, select_plugin_sound, select_plugin_complete,
}
use netweave.Registry.Laws.{
  plugin_at, IsKeyed, Call, registers, unregisters, sets_status, run, run-IsKeyed,
  register-plugin_at,
}
use netweave.Registry.Health.{check_plugins, is_reported, checked_plugin, check_plugins-plugin_at}

abbrev argo : Plugin
argo = record {
  category = "dms";
  name = "argocd";
  version = "1";
  priority = pos 5;
  status = "active";
  capabilities = "rollback" ∷ [];
  instance_value = health_checker;
  metadata = [];
}

abbrev helm : Plugin
helm = record argo { name = "helm"; priority = pos 3 }

abbrev one_plugin : Registry
one_plugin = record { plugins = ("dms", ("argocd", argo) ∷ []) ∷ [] }

abbrev two_plugins : Registry
two_plugins = record { plugins = ("dms", ("argocd", argo) ∷ ("helm", helm) ∷ []) ∷ [] }

abbrev criteria : Map Any
criteria = ("capability", Any.str "rollback") ∷ []

register_run : register one_plugin (some helm) ≡ ok two_plugins
unfolding register validate_plugin lookup insert
register_run = refl

register-plugin_at_example :
    (p : Plugin) × (◌≡◌ {A = Option Plugin} (some helm) (some p))
    × (plugin_at one_plugin p.category p.name ≡ none)
    × ((c n : String)
        → plugin_at two_plugins c n
          ≡ (if p.category == c && p.name == n then some p else plugin_at one_plugin c n))
register-plugin_at_example = register-plugin_at one_plugin two_plugins (some helm) register_run

unregister_run : unregister two_plugins "dms" "helm" ≡ ok one_plugin
unfolding unregister lookup insert erase
unregister_run = refl

abbrev argo_failed : Registry
argo_failed = record { plugins = ("dms", ("argocd", record argo { status = "failed" }) ∷ []) ∷ [] }

update_run : update_status one_plugin "dms" "argocd" "failed" ≡ ok argo_failed
unfolding update_status lookup insert
update_run = refl

abbrev calls : List Call
calls =
    registers (some argo)
    ∷ registers (some helm)
    ∷ sets_status "dms" "helm" "failed"
    ∷ unregisters "dms" "argocd"
    ∷ []

run-IsKeyed_example : IsKeyed (run new_registry calls)
run-IsKeyed_example = run-IsKeyed calls

select_run : select_plugin two_plugins "dms" criteria ≡ ok argo
unfolding select_plugin select_from matches_criteria lookup
select_run = refl

select_plugin-sound_example :
    Among argo (values (category_map "dms" two_plugins.plugins))
    × Selectable criteria argo
    × ((p : Plugin)
        → Among p (values (category_map "dms" two_plugins.plugins))
        → Selectable criteria p
        → p.priority ≤ℤ argo.priority)
    × (pos 0 ≤ℤ argo.priority)
select_plugin-sound_example = select_plugin_sound two_plugins "dms" criteria argo select_run

helm_there : Among helm (values (category_map "dms" two_plugins.plugins))
unfolding lookup
helm_there = inr (inl refl)

helm-Selectable : Selectable criteria helm
unfolding matches_criteria lookup
helm-Selectable = (refl, refl)

select_plugin-complete_example :
    ((q : Plugin) × (select_plugin two_plugins "dms" criteria ≡ ok q))
    ⊎ (select_plugin two_plugins "dms" criteria ≡ err panicked)
select_plugin-complete_example =
    select_plugin_complete two_plugins "dms" criteria helm helm_there helm-Selectable (omega arith)

abbrev low_plugin : Registry
low_plugin = record { plugins = ("dms", ("argocd", record argo { priority = negsuc 4 }) ∷ []) ∷ [] }

all_low :
    (p : Plugin)
    → Among p (values (category_map "dms" low_plugin.plugins))
    → Selectable criteria p
    → p.priority ≤ℤ negsuc 0
unfolding lookup
all_low p (inl same) s = subst (λ q. q.priority ≤ℤ negsuc 0) same (omega arith)
all_low p (inr m) s = absurd m

abbrev sick : String → String → Option String
sick c n = if n == "helm" then some "timeout" else none

check_plugins-plugin_at_example :
    plugin_at
      (check_plugins sick
        (argo ∷ helm ∷ [])
        (record { registry = two_plugins; results = [] })).registry
      "dms"
      "helm"
    ≡ checked_plugin sick
        (is_reported sick (argo ∷ helm ∷ []) "dms" "helm")
        "dms"
        "helm"
        (plugin_at two_plugins "dms" "helm")
check_plugins-plugin_at_example =
    check_plugins-plugin_at sick (argo ∷ helm ∷ [])
      (record { registry = two_plugins; results = [] }) "dms" "helm"
