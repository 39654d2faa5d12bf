-- ===== src/Smo.antt =====
-- internal/smo/registry.go: the registry of SMO plugins. What a plugin answers to `Health` and to
-- `Close` is an argument, and times are passed by the caller. The order of a map's list stands for
-- the order that a `range` loop takes. The loop of the health checks is in Checking.antt.
pub mod Laws
pub mod Joining
pub mod Flags
pub mod Health
pub mod Checking
mod Tests
use netweave.Common.{
  ℕ, String, Bool, true, false, not, ◌&&◌, ◌||◌, Option, none, some, List, [], ◌∷◌, if◌then◌else◌,
  contains, Map, lookup, insert, erase, Result, ok, err, ◌>>=◌, ◌>>◌, reject_if, or_fail, ◌==◌,
}

-- A plugin: its identity, and what Metadata and Capabilities return.
pub record Plugin : Type 0 where
  pub handle : ℕ
  pub name : String
  pub version : String
  pub description : String
  pub vendor : String
  pub capabilities : List String

pub record PluginInfo : Type 0 where
  pub name : String
  pub version : String
  pub description : String
  pub vendor : String
  pub capabilities : List String
  pub healthy : Bool
  pub is_default : Bool
  pub registered_at : ℕ
  pub last_health_at : ℕ

pub record Registry : Type 0 where
  pub plugins : Map Plugin
  pub plugin_info : Map PluginInfo
  pub default_plugin : String

pub data Error : Type 0 where
  empty_name nil_plugin already_registered not_found : Error

abbrev pub Outcome : Type 0 → Type 0
Outcome = Result Error

pub new_registry : Registry
new_registry = record { plugins = []; plugin_info = []; default_plugin = "" }

abbrev pub exists {ℓ} : {A : Type ℓ} → Option A → Bool
exists none = false
exists (some a) = true

abbrev pub new_info : ℕ → Bool → Bool → Plugin → PluginInfo
new_info now healthy is_default plugin = record {
  name = plugin.name;
  version = plugin.version;
  description = plugin.description;
  vendor = plugin.vendor;
  capabilities = plugin.capabilities;
  healthy = healthy;
  is_default = is_default;
  registered_at = now;
  last_health_at = now;
}

pub register : ℕ → Bool → Registry → String → Option Plugin → Bool → Outcome Registry
register now healthy r name given is_default = do
  reject_if (name == "") empty_name
  plugin ← or_fail given nil_plugin
  reject_if (exists (lookup name r.plugins)) already_registered
  ok (record {
    plugins = insert name plugin r.plugins;
    plugin_info = insert name (new_info now healthy is_default plugin) r.plugin_info;
    default_plugin = if is_default || r.default_plugin == "" then name else r.default_plugin;
  })

abbrev pub put_changed :
    Option PluginInfo → String → (PluginInfo → PluginInfo) → Map PluginInfo → Map PluginInfo
put_changed none name f infos = infos
put_changed (some info) name f infos = insert name (f info) infos

-- if info, ok := r.pluginInfo[name]; ok { a change of info }
abbrev pub change : String → (PluginInfo → PluginInfo) → Map PluginInfo → Map PluginInfo
change name f infos = put_changed (lookup name infos) name f infos

-- info.IsDefault = b
abbrev pub flag : String → Bool → Map PluginInfo → Map PluginInfo
flag name b infos = change name (λ info. record info { is_default = b }) infos

-- The first round of the loop over the plugins that are left.
pub choose_default : Map Plugin → Map PluginInfo → Registry
choose_default [] infos = record { plugins = []; plugin_info = infos; default_plugin = "" }
choose_default ((n, p) ∷ ps) infos = record {
  plugins = (n, p) ∷ ps;
  plugin_info = flag n true infos;
  default_plugin = n;
}

pub unregister : Registry → String → Outcome Registry
unregister r name = do
  reject_if (not (exists (lookup name r.plugins))) not_found
  ok (
      if r.default_plugin == name
      then choose_default (erase name r.plugins) (erase name r.plugin_info)
      else record r { plugins = erase name r.plugins; plugin_info = erase name r.plugin_info })

pub set_default : Registry → String → Outcome Registry
set_default r name = do
  reject_if (not (exists (lookup name r.plugins))) not_found
  ok (record r {
    plugin_info = flag name true (flag r.default_plugin false r.plugin_info);
    default_plugin = name;
  })

abbrev pub values {ℓ} : {V : Type ℓ} → Map V → List V
values [] = []
values ((k, v) ∷ m) = v ∷ values m

pub list : Registry → List PluginInfo
list r = values r.plugin_info

abbrev supports : String → Option PluginInfo → Bool
supports capability none = false
supports capability (some info) = info.healthy && contains info.capabilities capability

-- the loop of `FindByCapability`
pub capable_among : String → Map PluginInfo → Map Plugin → List Plugin
capable_among capability infos [] = []
capable_among capability infos ((name, p) ∷ ps) =
    let rest = capable_among capability infos ps in
    if supports capability (lookup name infos) then p ∷ rest else rest

pub find_by_capability : Registry → String → List Plugin
unfolding capable_among
find_by_capability r capability = capable_among capability r.plugin_info r.plugins

abbrev pub is_well : Option PluginInfo → Bool
is_well none = false
is_well (some info) = info.healthy

-- the loop of `GetHealthy`
pub healthy_among : Map PluginInfo → Map Plugin → List Plugin
healthy_among infos [] = []
healthy_among infos ((name, p) ∷ ps) =
    let rest = healthy_among infos ps in if is_well (lookup name infos) then p ∷ rest else rest

pub get_healthy : Registry → List Plugin
get_healthy r = healthy_among r.plugin_info r.plugins

-- What the answer of one plugin changes.
abbrev pub note_health : ℕ → String → Bool → Map PluginInfo → Map PluginInfo
note_health now name healthy infos =
    change name (λ info. record info { healthy = healthy; last_health_at = now }) infos

-- The loop of `checkAllPluginsHealth` over the plugins copied under the lock, with no call of
-- another method between its rounds.
pub check_each : ℕ → (Plugin → Bool) → Map Plugin → Map PluginInfo → Map PluginInfo
check_each now health [] infos = infos
check_each now health ((name, p) ∷ ps) infos =
    check_each now health ps (note_health now name (health p) infos)

pub check_all_plugins_health : ℕ → (Plugin → Bool) → Registry → Registry
check_all_plugins_health now health r = record r {
  plugin_info = check_each now health r.plugins r.plugin_info;
}

-- The names of the plugins whose Close fails.
pub failures : (Plugin → Bool) → Map Plugin → List String
failures close_fails [] = []
failures close_fails ((name, p) ∷ ps) =
    let rest = failures close_fails ps in if close_fails p then name ∷ rest else rest

-- What `Close` does under the lock: the registry is empty after it, whatever the plugins answer.
pub close : (Plugin → Bool) → Registry → Registry × List String
close close_fails r = (new_registry, failures close_fails r.plugins)

pub count : Registry → ℕ
count r = netweave.Common.length r.plugins
