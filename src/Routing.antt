-- ===== src/Routing.antt =====
-- internal/routing/routing.go: which DMS adapters a request goes to. The registry of the adapters
-- is that of `DmsRegistry`; a request reads it at one moment.
pub mod Rules
pub mod Config
pub mod Location
pub mod Selection
pub mod Fallback
pub mod Order
pub mod Loading
pub mod Lookup
mod Insertion
mod Tests
use netweave.Common.{
  ℕ, suc, String, Bool, true, false, not, ◌&&◌, ◌||◌, Option, none, some, List, [], ◌∷◌,
  if◌then◌else◌, contains, Map, lookup, insert, Result, ok, err, ◌>>=◌, ◌>>◌, reject_if, Any, ◌==◌,
  ℤ, codes, starts, ends, occurs,
}
use netweave.DmsRegistry.{Adapter, DmsRegistry, PluginMetadata, get_metadata}

pub record LocationCondition : Type 0 where
  pub starting : String
  pub ending : String
  pub containing : String
  pub exact : String

pub record Conditions : Type 0 where
  pub labels : Map String
  pub location : Option LocationCondition
  pub capabilities : List String
  pub extensions : Map Any

pub record Rule : Type 0 where
  pub name : String
  pub priority : ℤ
  pub adapter_name : String
  pub resource_type : String
  pub conditions : Option Conditions
  pub enabled : Bool

-- `Context` without its filter, which the router does not read.
pub record Context : Type 0 where
  pub resource_type : String
  pub labels : Map String
  pub location : String
  pub required_capabilities : List String

-- The state of a router, the registry and the logger aside.
pub record Router : Type 0 where
  pub rules : List Rule
  pub fallback_enabled : Bool
  pub aggregate_mode : Bool

pub data RoutingError : Type 0 where
  no_adapters rule_not_found no_config no_name no_plugin negative_priority no_type : RoutingError

pub matches_resource_type : Rule → Context → Bool
matches_resource_type rule ctx =
    if rule.resource_type == "" || rule.resource_type == "*"
    then true
    else ctx.resource_type == rule.resource_type

-- m[key] of a map of texts
abbrev text_at : String → Map String → String
text_at key m = elim (lookup key m) [ none ↦ "" | some v ↦ v ]

pub matches_labels : Map String → Map String → Bool
matches_labels [] labels = true
matches_labels ((key, value) ∷ rest) labels =
    let others = matches_labels rest labels in text_at key labels == value && others

pub matches_location : LocationCondition → String → Bool
matches_location c location =
    if location == ""
    then false
    else if not (c.exact == "")
    then location == c.exact
    else if not (c.starting == "")
    then starts (codes location) (codes c.starting)
    else if not (c.ending == "")
    then ends (codes location) (codes c.ending)
    else if not (c.containing == "")
    then occurs (codes location) (codes c.containing)
    else true

pub has_capabilities : List String → List String → Bool
has_capabilities adapter_caps [] = true
has_capabilities adapter_caps (required ∷ rest) =
    contains adapter_caps required && has_capabilities adapter_caps rest

pub get_adapter_capabilities : DmsRegistry → String → List String
get_adapter_capabilities reg name = elim (get_metadata reg name) [
  | none ↦ []
  | some meta ↦ meta.capabilities
]

abbrev location_fits : Option LocationCondition → String → Bool
location_fits none location = true
location_fits (some c) location = matches_location c location

pub matches_conditions : DmsRegistry → Rule → Conditions → Context → Bool
matches_conditions reg rule c ctx =
    matches_labels c.labels ctx.labels
    && location_fits c.location ctx.location
    && has_capabilities (get_adapter_capabilities reg rule.adapter_name) c.capabilities

abbrev conditions_fit : DmsRegistry → Rule → Option Conditions → Context → Bool
conditions_fit reg rule none ctx = true
conditions_fit reg rule (some c) ctx = matches_conditions reg rule c ctx

pub matches_rule : DmsRegistry → Rule → Context → Bool
matches_rule reg rule ctx =
    matches_resource_type rule ctx && conditions_fit reg rule rule.conditions ctx

abbrev meets : List String → Option PluginMetadata → Bool
meets required none = false
meets required (some meta) =
    meta.enabled && meta.healthy && has_capabilities meta.capabilities required

abbrev present : Option Adapter → Bool
present none = false
present (some p) = true

-- The plugin and its metadata are read under two locks.
pub is_adapter_valid : DmsRegistry → DmsRegistry → String → List String → Bool
is_adapter_valid reg later name required =
    present (lookup name reg.plugins) && meets required (get_metadata later name)

-- seen[name]
abbrev pub marked : String → Map Bool → Bool
marked name seen = elim (lookup name seen) [ none ↦ false | some b ↦ b ]

-- The registry at each of the reads of a call, which each hold its lock on their own: those for the
-- rule with a number, and the one for the fallback.
pub record Moments : Type 0 where
  pub at_match : ℕ → DmsRegistry
  pub at_check : ℕ → DmsRegistry
  pub at_metadata : ℕ → DmsRegistry
  pub at_fetch : ℕ → DmsRegistry
  pub at_default : DmsRegistry

-- A registry that does not change during the call.
abbrev pub still : DmsRegistry → Moments
still reg = record {
  at_match = λ i. reg;
  at_check = λ i. reg;
  at_metadata = λ i. reg;
  at_fetch = λ i. reg;
  at_default = reg;
}

-- The loop's tests of the rule with that number, those of the adapters seen aside.
abbrev pub applies_at : Moments → ℕ → Context → Rule → Bool
applies_at m i ctx rule =
    rule.enabled
    && matches_rule (m.at_match i) rule ctx
    && is_adapter_valid (m.at_check i) (m.at_metadata i) rule.adapter_name ctx.required_capabilities

abbrev pub applies : DmsRegistry → Context → Rule → Bool
applies reg ctx rule = applies_at (still reg) 0 ctx rule

-- The loop of `collectMatchingAdapters`; an entry may be nil as far as the code goes.
unfoldable pub collect : Moments → ℕ → Context → List Rule → Map Bool → List (Option Adapter)
collect m i ctx [] seen = []
collect m i ctx (rule ∷ rules) seen =
    let passed = collect m (suc i) ctx rules seen in
    let taken = collect m (suc i) ctx rules (insert rule.adapter_name true seen) in
    if not (marked rule.adapter_name seen) && applies_at m i ctx rule
    then lookup rule.adapter_name (m.at_fetch i).plugins ∷ taken
    else passed

unfoldable pub collect_matching_adapters : Moments → Router → Context → List (Option Adapter)
collect_matching_adapters m r ctx = collect m 0 ctx r.rules []

pub add_default_adapter : DmsRegistry → List (Option Adapter)
add_default_adapter reg = elim (lookup reg.default_plugin reg.plugins) [
  | none ↦ []
  | some p ↦ if reg.default_plugin == "" then [] else some p ∷ []
]

pub is_empty {ℓ} : {A : Type ℓ} → List A → Bool
is_empty [] = true
is_empty (x ∷ xs) = false

pub route_multiple : Moments → Router → Context → Result RoutingError (List (Option Adapter))
route_multiple m r ctx = do
  let collected = collect_matching_adapters m r ctx
  let adapters =
      if is_empty collected && r.fallback_enabled
      then add_default_adapter m.at_default
      else collected
  reject_if (is_empty adapters) no_adapters
  ok adapters
