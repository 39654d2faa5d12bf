-- ===== src/Registry.antt =====
-- internal/registry/registry.go: the registry of plugins by category and name. Every method runs
-- under the registry's lock, so it is one function of the registry; a map is iterated in the order
-- of its list, and what is proved holds for every order.
pub mod Selection
pub mod Laws
pub mod Stats
pub mod Health
mod Tests
use netweave.Common.{
  ℕ, zero, suc, ◌+◌, String, Bool, true, false, not, ◌&&◌, ◌||◌, Option, none, some, List, [], ◌∷◌,
  ◌++◌, map, if◌then◌else◌, length, contains, Map, lookup, insert, erase, Result, ok, err, ◌>>=◌,
  ◌>>◌, reject_if, or_fail, ℤ, negsuc, ltb_ℤ, Any, as_string, as_map, same_value, ◌==◌,
}

-- The dynamic value of `Plugin.Instance`: what the code asks of it is whether it is nil and whether
-- it is a HealthChecker.
pub data Instance : Type 0 where
  absent plain health_checker : Instance

pub record Plugin : Type 0 where
  pub category : String
  pub name : String
  pub version : String
  pub priority : ℤ
  pub status : String
  pub capabilities : List String
  pub instance_value : Instance
  pub metadata : Map Any

abbrev pub status_active : String
status_active = "active"

abbrev pub status_unhealthy : String
status_unhealthy = "unhealthy"

pub record Registry : Type 0 where
  pub plugins : Map (Map Plugin)

pub data Error : Type 0 where
  nil_plugin empty_name empty_category nil_instance already_registered : Error
  no_category not_found no_plugins no_active_plugin : Error
  -- two maps or two slices are compared by `!=`
  panicked : Error

abbrev pub Outcome : Type 0 → Type 0
Outcome = Result Error

pub new_registry : Registry
new_registry = record { plugins = [] }

abbrev is_absent : Instance → Bool
is_absent absent = true
is_absent _ = false

pub validate_plugin : Option Plugin → Outcome Plugin
validate_plugin none = err nil_plugin
validate_plugin (some p) = do
  reject_if (p.name == "") empty_name
  reject_if (p.category == "") empty_category
  reject_if (is_absent p.instance_value) nil_instance
  ok p

-- r.plugins[category], the nil map for a missing category
abbrev pub category_map : String → Map (Map Plugin) → Map Plugin
category_map c m = elim (lookup c m) [ none ↦ [] | some ps ↦ ps ]

abbrev pub exists {ℓ} : {A : Type ℓ} → Option A → Bool
exists none = false
exists (some a) = true

abbrev pub put_plugin : Registry → Plugin → Registry
put_plugin r p = record {
  plugins = insert p.category (insert p.name p (category_map p.category r.plugins)) r.plugins;
}

pub register : Registry → Option Plugin → Outcome Registry
register r plugin = do
  p ← validate_plugin plugin
  reject_if (exists (lookup p.name (category_map p.category r.plugins))) already_registered
  ok (put_plugin r p)

pub unregister : Registry → String → String → Outcome Registry
unregister r category name = do
  ps ← or_fail (lookup category r.plugins) no_category
  reject_if (not (exists (lookup name ps))) not_found
  ok (record { plugins = insert category (erase name ps) r.plugins })

pub get : Registry → String → String → Outcome Plugin
get r category name = do
  ps ← or_fail (lookup category r.plugins) no_category
  or_fail (lookup name ps) not_found

abbrev pub values {ℓ} : {V : Type ℓ} → Map V → List V
values [] = []
values ((k, v) ∷ m) = v ∷ values m

pub list : Registry → String → List Plugin
list r category = values (category_map category r.plugins)

-- the loop of `ListAll`
pub list_categories : Map (Map Plugin) → Map (List Plugin)
list_categories [] = []
list_categories ((c, ps) ∷ m) = (c, values ps) ∷ list_categories m

pub list_all : Registry → Map (List Plugin)
unfolding list_categories
list_all r = list_categories r.plugins

pub update_status : Registry → String → String → String → Outcome Registry
update_status r category name status = do
  ps ← or_fail (lookup category r.plugins) no_category
  p ← or_fail (lookup name ps) not_found
  ok (record {
    plugins = insert category (insert name (record p { status = status }) ps) r.plugins;
  })

-- if name, ok := criteria["name"].(string); ok && name != plugin.Name { return false }
abbrev matches_name : Option String → Plugin → Bool
matches_name none p = true
matches_name (some n) p = n == p.name

abbrev matches_capability : Option String → Plugin → Bool
matches_capability none p = true
matches_capability (some c) p = contains p.capabilities c

abbrev same_metadata : Option Any → Any → Outcome Bool
same_metadata none v = ok false
same_metadata (some w) v = or_fail (same_value w v) panicked

-- the loop over the metadata that is asked for
pub matches_metadata : Map Any → Map Any → Outcome Bool
matches_metadata have [] = ok true
matches_metadata have ((k, v) ∷ wanted) =
    let rest = matches_metadata have wanted in
    do same ← same_metadata (lookup k have) v; if same then rest else ok false

abbrev matches_wanted : Option (Map Any) → Plugin → Outcome Bool
matches_wanted none p = ok true
matches_wanted (some wanted) p = matches_metadata p.metadata wanted

abbrev is_empty : Map Any → Bool
is_empty [] = true
is_empty _ = false

pub matches_criteria : Plugin → Map Any → Outcome Bool
matches_criteria p criteria =
    if is_empty criteria
    then ok true
    else if not (matches_name (as_string (lookup "name" criteria)) p)
        || not (matches_capability (as_string (lookup "capability" criteria)) p)
    then ok false
    else matches_wanted (as_map (lookup "metadata" criteria)) p
