-- ===== src/DmsRegistry.antt =====
-- internal/dms/registry/registry.go: the registry of DMS adapters, with its metadata and default.
-- What an adapter answers to `Health` is the argument `health` (`none` for no error), and to
-- `Close` the argument `answers`, where it is more than logged. Times are passed by the caller.
pub mod Laws
pub mod Defaults
mod Tests
use netweave.Common.{
  ℕ, String, Bool, true, false, not, ◌&&◌, ◌||◌, Option, none, some, List, [], ◌∷◌, if◌then◌else◌,
  contains, Map, lookup, insert, erase, Result, ok, err, ◌>>=◌, ◌>>◌, reject_if, or_fail, Any, ◌==◌,
}

-- A DMS adapter: its identity, and what Version and Capabilities return.
pub record Adapter : Type 0 where
  pub handle : ℕ
  pub version : String
  pub capabilities : List String

pub record PluginMetadata : Type 0 where
  pub name : String
  pub plugin_type : String
  pub version : String
  pub enabled : Bool
  pub default : Bool
  pub capabilities : List String
  pub registered_at : ℕ
  pub last_health_check : ℕ
  pub healthy : Bool
  pub health_error : Option String
  pub config : Map Any

pub record DmsRegistry : Type 0 where
  pub plugins : Map Adapter
  pub meta : Map PluginMetadata
  pub default_plugin : String

pub data Error : Type 0 where
  already_registered not_found : Error

abbrev pub Outcome : Type 0 → Type 0
Outcome = Result Error

pub new_registry : DmsRegistry
new_registry = record { plugins = []; meta = []; default_plugin = "" }

abbrev pub exists {ℓ} : {A : Type ℓ} → Option A → Bool
exists none = false
exists (some a) = true

-- err == nil
abbrev pub is_healthy : Option String → Bool
is_healthy none = true
is_healthy (some e) = false

abbrev pub new_metadata :
    ℕ → Option String → String → String → Adapter → Map Any → Bool → PluginMetadata
new_metadata now health name typ plugin config is_default = record {
  name = name;
  plugin_type = typ;
  version = plugin.version;
  enabled = true;
  default = is_default;
  capabilities = plugin.capabilities;
  registered_at = now;
  last_health_check = now;
  healthy = is_healthy health;
  health_error = health;
  config = config;
}

pub register :
    ℕ
    → Option String
    → DmsRegistry
    → String
    → String
    → Adapter
    → Map Any
    → Bool
    → Outcome DmsRegistry
register now health r name typ plugin config is_default = do
  reject_if (exists (lookup name r.plugins)) already_registered
  ok (record {
    plugins = insert name plugin r.plugins;
    meta = insert name (new_metadata now health name typ plugin config is_default) r.meta;
    default_plugin = if is_default then name else r.default_plugin;
  })

pub unregister : DmsRegistry → String → Outcome DmsRegistry
unregister r name = do
  reject_if (not (exists (lookup name r.plugins))) not_found
  ok (record {
    plugins = erase name r.plugins;
    meta = erase name r.meta;
    default_plugin = if r.default_plugin == name then "" else r.default_plugin;
  })

pub get : DmsRegistry → String → Option Adapter
get r name = lookup name r.plugins

pub get_default : DmsRegistry → Option Adapter
get_default r = if r.default_plugin == "" then none else lookup r.default_plugin r.plugins

-- A copy, whose fields are those of the stored metadata.
unfoldable pub get_metadata : DmsRegistry → String → Option PluginMetadata
get_metadata r name = lookup name r.meta

abbrev change_meta : DmsRegistry → String → (PluginMetadata → PluginMetadata) → Outcome DmsRegistry
change_meta r name f = do
  m ← or_fail (lookup name r.meta) not_found
  ok (record r { meta = insert name (f m) r.meta })

pub enable : DmsRegistry → String → Outcome DmsRegistry
enable r name = change_meta r name λ m. record m { enabled = true }

pub disable : DmsRegistry → String → Outcome DmsRegistry
disable r name = change_meta r name λ m. record m { enabled = false }

-- if meta := metas[name]; meta != nil { meta.Default = b }
abbrev flag : String → Bool → Map PluginMetadata → Map PluginMetadata
flag name b metas = elim (lookup name metas) [
  | none ↦ metas
  | some m ↦ insert name (record m { default = b }) metas
]

pub set_default : DmsRegistry → String → Outcome DmsRegistry
set_default r name = do
  reject_if (not (exists (lookup name r.plugins))) not_found
  ok (record r {
    meta =
        flag name true
          (if r.default_plugin == "" then r.meta else flag r.default_plugin false r.meta);
    default_plugin = name;
  })

-- The part of `checkPluginHealth` that follows the answer of the adapter.
pub check_plugin_health : ℕ → DmsRegistry → String → Option String → DmsRegistry
check_plugin_health now r name health = elim (lookup name r.meta) [
  | none ↦ r
  | some m ↦ record r {
    meta =
        insert name
          (record m { healthy = is_healthy health; health_error = health; last_health_check = now })
          r.meta;
  }
]

abbrev later : Option String → Option String → Option String
later none last = last
later (some e) last = some e

-- The loop of `Close`: the last error that an adapter answers.
pub last_error : (String → Option String) → Map Adapter → Option String → Option String
last_error answers [] last = last
last_error answers ((name, p) ∷ ps) last = last_error answers ps (later (answers name) last)

pub close : (String → Option String) → DmsRegistry → DmsRegistry × Option String
close answers r = (new_registry, last_error answers r.plugins none)

abbrev is_well : Option PluginMetadata → Bool
is_well none = false
is_well (some m) = m.healthy

-- the loop of `ListHealthy`
pub healthy_among : Map PluginMetadata → Map Adapter → List Adapter
healthy_among meta [] = []
healthy_among meta ((name, p) ∷ ps) =
    let rest = healthy_among meta ps in if is_well (lookup name meta) then p ∷ rest else rest

pub list_healthy : DmsRegistry → List Adapter
list_healthy r = healthy_among r.meta r.plugins

abbrev pub supports : String → Option PluginMetadata → Bool
supports capability none = false
supports capability (some m) = m.enabled && m.healthy && contains m.capabilities capability

-- the loop of `FindByCapability`
pub capable_among : String → Map PluginMetadata → Map Adapter → List Adapter
capable_among capability meta [] = []
capable_among capability meta ((name, p) ∷ ps) =
    let rest = capable_among capability meta ps in
    if supports capability (lookup name meta) then p ∷ rest else rest

pub find_by_capability : DmsRegistry → String → List Adapter
find_by_capability r capability = capable_among capability r.meta r.plugins

abbrev is_of_type : String → Option PluginMetadata → Bool
is_of_type typ none = false
is_of_type typ (some m) = m.plugin_type == typ && m.enabled

-- the loop of `FindByType`
pub of_type_among : String → Map PluginMetadata → Map Adapter → List Adapter
of_type_among typ meta [] = []
of_type_among typ meta ((name, p) ∷ ps) =
    let rest = of_type_among typ meta ps in
    if is_of_type typ (lookup name meta) then p ∷ rest else rest

pub find_by_type : DmsRegistry → String → List Adapter
find_by_type r typ = of_type_among typ r.meta r.plugins
