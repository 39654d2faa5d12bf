-- ===== src/Routing/Tests.antt =====
-- Runs of the router, and its theorems at concrete registries and rules.
use netweave.Common.{
  String, ◌≡◌, refl, ◌⊎◌, inl, true, false, none, some, List, [], ◌∷◌, map, Among, All, lookup,
  insert, ok, err, pos, starts,
}
use netweave.DmsRegistry.{Adapter, PluginMetadata, DmsRegistry, get_metadata}
use netweave.Routing.{
  LocationCondition, Rule, Context, Router, no_adapters, matches_location,
  collect_matching_adapters, route_multiple, collect, is_empty, matches_rule, matches_resource_type,
  matches_conditions, matches_labels, has_capabilities, is_adapter_valid, get_adapter_capabilities,
  add_default_adapter, Moments, still,
}
use netweave.Routing.Rules.{Rearranges}
use netweave.Routing.Config.{
  RuleConfig, Config, new_router, load_rules_from_config, validate_routing_config, validate_rules,
  validate_rule_config,
}
use netweave.Routing.Insertion.{insertion}
use netweave.Routing.Selection.{Wanted, Distinct, collect_matching_adapters_exact}
use netweave.Routing.Fallback.{IsRouted, IsFallback, route_multiple_sound}
use netweave.Routing.Order.{adds, removes, run, InOrder, run-InOrder}
use netweave.Routing.Loading.{IsUsable, validate_routing_config-new_router}

abbrev helm : Adapter
helm = record { handle = 1; version = "3"; capabilities = "rollback" ∷ [] }

abbrev helm_meta : PluginMetadata
helm_meta = record {
  name = "helm";
  plugin_type = "helm";
  version = "3";
  enabled = true;
  default = true;
  capabilities = "rollback" ∷ [];
  registered_at = 5;
  last_health_check = 5;
  healthy = true;
  health_error = none;
  config = [];
}

abbrev one_adapter : DmsRegistry
one_adapter = record {
  plugins = ("helm", helm) ∷ [];
  meta = ("helm", helm_meta) ∷ [];
  default_plugin = "helm";
}

abbrev no_adapter : DmsRegistry
no_adapter = record { plugins = []; meta = []; default_plugin = "" }

abbrev berlin : LocationCondition
berlin = record { starting = "eu-"; ending = ""; containing = ""; exact = "" }

abbrev in_europe : Rule
in_europe = record {
  name = "europe";
  priority = pos 70;
  adapter_name = "helm";
  resource_type = "*";
  conditions = some (record {
    labels = [];
    location = some berlin;
    capabilities = "rollback" ∷ [];
    extensions = [];
  });
  enabled = true;
}

abbrev anywhere : Rule
anywhere = record in_europe { name = "any"; priority = pos 50; conditions = none }

abbrev two_rules : Router
two_rules = record {
  rules = in_europe ∷ anywhere ∷ [];
  fallback_enabled = true;
  aggregate_mode = false;
}

abbrev request : Context
request = record {
  resource_type = "deployment";
  labels = [];
  location = "eu-berlin";
  required_capabilities = "rollback" ∷ [];
}

abbrev strange : Context
strange = record request { required_capabilities = "scaling" ∷ [] }

collect_matching_adapters_exact_example :
    (names : List String) × (collect_matching_adapters (still one_adapter) two_rules request
      ≡ map (λ n. lookup n one_adapter.plugins) names)
    × Distinct names
    × ((n : String) → Among n names → Wanted one_adapter request two_rules.rules n)
    × ((n : String) → Wanted one_adapter request two_rules.rules n → Among n names)
collect_matching_adapters_exact_example =
    collect_matching_adapters_exact one_adapter two_rules request

route_run : route_multiple (still one_adapter) two_rules request ≡ ok (some helm ∷ [])
unfolding route_multiple collect_matching_adapters collect lookup get_metadata insert is_empty
    matches_rule matches_resource_type matches_conditions matches_labels matches_location starts
    has_capabilities is_adapter_valid get_adapter_capabilities
route_run = refl

-- The adapter is unregistered between the check and the fetch.
abbrev unregistered : Moments
unregistered = record (still one_adapter) { at_fetch = λ i. no_adapter }

nil_run : route_multiple unregistered two_rules request ≡ ok (none ∷ [])
unfolding route_multiple collect_matching_adapters collect lookup get_metadata insert is_empty
    matches_rule matches_resource_type matches_conditions matches_labels matches_location starts
    has_capabilities is_adapter_valid get_adapter_capabilities
nil_run = refl

route_multiple_sound_example :
    IsRouted unregistered 0 request two_rules.rules none
    ⊎ IsFallback unregistered request two_rules none
route_multiple_sound_example =
    route_multiple_sound unregistered two_rules request (none ∷ []) none nil_run (inl refl)

route_failure : route_multiple (still no_adapter) two_rules request ≡ err no_adapters
unfolding route_multiple collect_matching_adapters collect lookup get_metadata insert is_empty
    matches_rule matches_resource_type matches_conditions matches_labels matches_location starts
    has_capabilities is_adapter_valid get_adapter_capabilities add_default_adapter
route_failure = refl

abbrev europe_config : RuleConfig
europe_config = record {
  name = "europe";
  priority = pos 0;
  plugin = "helm";
  resource_type = "";
  enabled = true;
  conditions = record { labels = []; location = berlin; capabilities = []; extensions = [] };
}

abbrev one_rule : Config
one_rule = record {
  default = "helm";
  fallback_enabled = true;
  aggregate_mode = false;
  rules = europe_config ∷ [];
}

run-InOrder_example : InOrder (
    run insertion
      (new_router insertion (some one_rule))
      (adds in_europe ∷ removes "europe" ∷ adds anywhere ∷ []))
run-InOrder_example =
    run-InOrder insertion (some one_rule) (adds in_europe ∷ removes "europe" ∷ adds anywhere ∷ [])

one_rule_valid : validate_routing_config (some one_rule) ≡ ok tt
unfolding validate_routing_config validate_rules validate_rule_config
one_rule_valid = refl

validate_routing_config-new_router_example :
    (rules : List Rule) × (load_rules_from_config (some one_rule) ≡ ok rules)
    × All IsUsable rules
    × Rearranges (new_router insertion (some one_rule)).rules rules
validate_routing_config-new_router_example =
    validate_routing_config-new_router insertion one_rule one_rule_valid

two_rules-InOrder : InOrder two_rules
two_rules-InOrder = ((refl, tt), (tt, tt))

collected_run : collect_matching_adapters (still one_adapter) two_rules request ≡ some helm ∷ []
unfolding collect_matching_adapters collect lookup get_metadata insert matches_rule
    matches_resource_type matches_conditions matches_labels matches_location starts has_capabilities
    is_adapter_valid get_adapter_capabilities
collected_run = refl
