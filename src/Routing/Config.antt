-- ===== src/Routing/Config.antt =====
-- internal/routing/config.go and NewRouter of routing.go: rules from a configuration.
use netweave.Common.{
  String, Bool, true, false, not, ◌&&◌, Option, none, some, List, [], ◌∷◌, if◌then◌else◌, Result,
  ok, err, ◌>>=◌, ◌>>◌, reject_if, ◌==◌, ℤ, pos, ltb_ℤ, Map, Any,
}
use netweave.Routing.{
  LocationCondition, Conditions, Rule, Router, RoutingError, is_empty, no_name, no_plugin,
  negative_priority, no_config, no_type,
}
use netweave.Routing.Rules.{Sorter, sort_rules}

pub record ConditionsConfig : Type 0 where
  pub labels : Map String
  pub location : LocationCondition
  pub capabilities : List String
  pub extensions : Map Any

pub record RuleConfig : Type 0 where
  pub name : String
  pub priority : ℤ
  pub plugin : String
  pub resource_type : String
  pub enabled : Bool
  pub conditions : ConditionsConfig

pub record Config : Type 0 where
  pub default : String
  pub fallback_enabled : Bool
  pub aggregate_mode : Bool
  pub rules : List RuleConfig

pub record PluginConfig : Type 0 where
  pub name : String
  pub plugin_type : String
  pub enabled : Bool
  pub default : Bool
  pub config : Map Any

pub is_empty_location_condition : LocationCondition → Bool
is_empty_location_condition c =
    c.starting == "" && c.ending == "" && c.containing == "" && c.exact == ""

pub is_empty_conditions : ConditionsConfig → Bool
is_empty_conditions c =
    is_empty c.labels
    && is_empty_location_condition c.location
    && is_empty c.capabilities
    && is_empty c.extensions

-- A capability is its text, so the conversion of the capabilities is the identity.
pub convert_conditions : ConditionsConfig → Conditions
convert_conditions c = record {
  labels = c.labels;
  location = if is_empty_location_condition c.location then none else some c.location;
  capabilities = c.capabilities;
  extensions = c.extensions;
}

abbrev is_zero : ℤ → Bool
is_zero p = not (ltb_ℤ p (pos 0)) && not (ltb_ℤ (pos 0) p)

-- The rule that a valid configuration becomes; a priority of 0 counts as not given.
abbrev pub converted : RuleConfig → Rule
converted c = record {
  name = c.name;
  priority = if is_zero c.priority then pos 50 else c.priority;
  adapter_name = c.plugin;
  resource_type = c.resource_type;
  conditions =
      if is_empty_conditions c.conditions then none else some (convert_conditions c.conditions);
  enabled = c.enabled;
}

unfoldable pub convert_rule_config : RuleConfig → Result RoutingError Rule
convert_rule_config c = do
  reject_if (c.name == "") no_name
  reject_if (c.plugin == "") no_plugin
  ok (converted c)

-- The loop of `LoadRulesFromConfig`.
unfoldable pub load_rules : List RuleConfig → Result RoutingError (List Rule)
load_rules [] = ok []
load_rules (c ∷ cs) = do rule ← convert_rule_config c; rules ← load_rules cs; ok (rule ∷ rules)

unfoldable pub load_rules_from_config : Option Config → Result RoutingError (List Rule)
load_rules_from_config none = err no_config
load_rules_from_config (some config) = load_rules config.rules

pub validate_plugin_config : PluginConfig → Result {0, 0} RoutingError Unit
validate_plugin_config c = do
  reject_if (c.name == "") no_name
  reject_if (c.plugin_type == "") no_type

unfoldable pub validate_rule_config : RuleConfig → Result {0, 0} RoutingError Unit
validate_rule_config c = do
  reject_if (c.name == "") no_name
  reject_if (c.plugin == "") no_plugin
  reject_if (ltb_ℤ c.priority (pos 0)) negative_priority

-- The loop of `ValidateRoutingConfig`.
unfoldable pub validate_rules : List RuleConfig → Result {0, 0} RoutingError Unit
validate_rules [] = ok tt
validate_rules (c ∷ cs) = do validate_rule_config c; validate_rules cs

unfoldable pub validate_routing_config : Option Config → Result {0, 0} RoutingError Unit
validate_routing_config none = err no_config
validate_routing_config (some config) = validate_rules config.rules

abbrev append_converted : Result RoutingError Rule → List Rule → List Rule
append_converted (ok rule) rules = rule ∷ rules
append_converted (err e) rules = rules

-- The loop of `NewRouter`: a rule that cannot be converted is passed over.
unfoldable pub convert_rules : List RuleConfig → List Rule
convert_rules [] = []
convert_rules (c ∷ cs) = append_converted (convert_rule_config c) (convert_rules cs)

-- The configuration of a router that is given none.
abbrev pub default_config : Config
default_config = record {
  default = "";
  fallback_enabled = true;
  aggregate_mode = false;
  rules = [];
}

abbrev pub or_default : Option Config → Config
or_default none = default_config
or_default (some config) = config

unfoldable pub new_router : Sorter → Option Config → Router
new_router sorter config = record {
  rules = sort_rules sorter (convert_rules (or_default config).rules);
  fallback_enabled = (or_default config).fallback_enabled;
  aggregate_mode = (or_default config).aggregate_mode;
}
