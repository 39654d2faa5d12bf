-- ===== src/Packages.antt =====
-- internal/dms/storage/packages.go: the in-memory store of deployment packages, and
-- DeploymentPackage of internal/dms/adapter/adapter.go.
-- A context is the flag `cancelled`, whether its `Err()` is not nil; a time is a number of ticks
-- after the zero time, and `time.Now()` is the argument `now`. Every method holds the store's lock
-- from its first access to its last, so it is one function from the store to the store.
pub mod SemVer
pub mod Listing
pub mod Index
pub mod Invariant
pub mod Creating
pub mod Deleting
pub mod Updating
pub mod Reading
mod Tests
use netweave.Common.{
  ℕ, String, Bool, true, false, not, ◌||◌, Option, none, some, List, [], ◌∷◌, ◌++◌, ltb, eqb,
  if◌then◌else◌, length, Map, lookup, insert, erase, Result, ok, err, ◌>>=◌, ◌>>◌, reject_if,
  or_fail, ℤ, Any, ◌==◌,
}
use SemVer.{validate_sem_ver}

pub record Package : Type 0 where
  pub id : String
  pub name : String
  pub version : String
  pub package_type : String
  pub description : String
  pub uploaded_at : ℕ
  pub extensions : Option (Map Any)

pub data Error : Type 0 where
  context_cancelled nil_package empty_id empty_name empty_version : Error
  package_not_found package_exists invalid_version version_exists : Error
  content_too_large no_content : Error
  -- a nil pointer is read, or a slice is cut out of its bounds
  panicked : Error

abbrev pub Outcome : Type 0 → Type 0
Outcome = Result Error

pub record PackageFilter : Type 0 where
  pub name : String
  pub package_type : String
  pub latest_only : Bool
  pub limit : ℤ
  pub offset : ℤ

pub record PackageStore : Type 0 where
  pub packages : Map Package
  pub content : Map (List ℕ)
  pub by_name : Map (List String)

abbrev pub max_content_size : ℕ
max_content_size = 104857600

pub new_store : PackageStore
new_store = record { packages = []; content = []; by_name = [] }

-- the loop that copies a map, entry by entry
pub copy_map {ℓ} : {V : Type ℓ} → Map V → Map V
copy_map [] = []
copy_map ((k, v) ∷ m) = insert k v (copy_map m)

abbrev copy_extensions : Option (Map Any) → Option (Map Any)
copy_extensions none = none
copy_extensions (some m) = some (copy_map m)

pub copy_package : Package → Package
copy_package p = record {
  id = p.id;
  name = p.name;
  version = p.version;
  package_type = p.package_type;
  description = p.description;
  uploaded_at = p.uploaded_at;
  extensions = copy_extensions p.extensions;
}

abbrev pub exists {ℓ} : {A : Type ℓ} → Option A → Bool
exists none = false
exists (some a) = true

-- s.ByName[name], the nil slice for a missing key
abbrev pub ids_of : String → Map (List String) → List String
ids_of name m = elim (lookup name m) [ none ↦ [] | some ids ↦ ids ]

pub validate_package : Option Package → Outcome Package
validate_package none = err nil_package
validate_package (some p) = do
  reject_if (p.id == "") empty_id
  reject_if (p.name == "") empty_name
  reject_if (p.version == "") empty_version
  reject_if (not (validate_sem_ver p.version)) invalid_version
  ok p

abbrev pub has_version : String → Option Package → Bool
has_version v none = false
has_version v (some p) = p.version == v

-- the loop of `checkPackageConflicts`
pub version_taken : Map Package → String → List String → Bool
version_taken ps v [] = false
version_taken ps v (id ∷ ids) = has_version v (lookup id ps) || version_taken ps v ids

pub check_package_conflicts : PackageStore → Package → Outcome (Unit {0})
check_package_conflicts s p = do
  reject_if (exists (lookup p.id s.packages)) package_exists
  reject_if (version_taken s.packages p.version (ids_of p.name s.by_name)) version_exists
  ok tt

abbrev stamp : ℕ → Package → Package
stamp now p = if eqb p.uploaded_at 0 then record p { uploaded_at = now } else p

pub store_package : ℕ → PackageStore → Package → PackageStore
store_package now s p = record s {
  packages = insert p.id (stamp now (copy_package p)) s.packages;
  by_name = insert p.name (ids_of p.name s.by_name ++ p.id ∷ []) s.by_name;
}

pub create : Bool → ℕ → PackageStore → Option Package → Outcome PackageStore
create cancelled now s pkg = do
  reject_if cancelled context_cancelled
  p ← validate_package pkg
  check_package_conflicts s p
  ok (store_package now s p)

pub get : Bool → PackageStore → String → Outcome Package
get cancelled s id = do
  reject_if cancelled context_cancelled
  p ← or_fail (lookup id s.packages) package_not_found
  ok (copy_package p)

-- the loop of `GetByNameVersion`
pub find_version : Map Package → String → List String → Outcome Package
find_version ps v [] = err package_not_found
find_version ps v (id ∷ ids) = elim (lookup id ps) [
  | none ↦ find_version ps v ids
  | some p ↦ if p.version == v then ok (copy_package p) else find_version ps v ids
]

pub get_by_name_version : Bool → PackageStore → String → String → Outcome Package
get_by_name_version cancelled s name version = do
  reject_if cancelled context_cancelled
  ids ← or_fail (lookup name s.by_name) package_not_found
  find_version s.packages version ids

-- the loop of `ListVersions`
pub collect_versions : Map Package → List String → List Package
collect_versions ps [] = []
collect_versions ps (id ∷ ids) = elim (lookup id ps) [
  | none ↦ collect_versions ps ids
  | some p ↦ copy_package p ∷ collect_versions ps ids
]

pub list_versions : Bool → PackageStore → String → Outcome (List Package)
list_versions cancelled s name = do
  reject_if cancelled context_cancelled
  ok (collect_versions s.packages (ids_of name s.by_name))

pub update : Bool → PackageStore → Option Package → Outcome PackageStore
update cancelled s none = do reject_if cancelled context_cancelled; err nil_package
update cancelled s (some p) = do
  reject_if cancelled context_cancelled
  reject_if (not (exists (lookup p.id s.packages))) package_not_found
  ok (record s { packages = insert p.id (copy_package p) s.packages })

-- the loop in `Delete` that makes `newIDs`
pub without : String → List String → List String
without id [] = []
without id (x ∷ ids) = let rest = without id ids in if x == id then rest else x ∷ rest

-- `Delete` drops a name of which no identifier is left
abbrev set_ids : String → List String → Map (List String) → Map (List String)
set_ids name [] m = erase name m
set_ids name (id ∷ ids) m = insert name (id ∷ ids) m

abbrev unindex : String → String → Option (List String) → Map (List String) → Map (List String)
unindex id name none m = m
unindex id name (some ids) m = set_ids name (without id ids) m

pub delete : Bool → PackageStore → String → Outcome PackageStore
delete cancelled s id = do
  reject_if cancelled context_cancelled
  p ← or_fail (lookup id s.packages) package_not_found
  ok (record {
    packages = erase id s.packages;
    content = erase id s.content;
    by_name = unindex id p.name (lookup p.name s.by_name) s.by_name;
  })

pub save_content : Bool → PackageStore → String → List ℕ → Outcome PackageStore
save_content cancelled s id bytes = do
  reject_if cancelled context_cancelled
  reject_if (ltb max_content_size (length bytes)) content_too_large
  reject_if (not (exists (lookup id s.packages))) package_not_found
  ok (record s { content = insert id bytes s.content })

abbrev missing_content : Bool → Error
missing_content true = no_content
missing_content false = package_not_found

pub get_content : Bool → PackageStore → String → Outcome (List ℕ)
get_content cancelled s id = do
  reject_if cancelled context_cancelled
  or_fail (lookup id s.content) (missing_content (exists (lookup id s.packages)))

pub delete_content : Bool → PackageStore → String → Outcome PackageStore
delete_content cancelled s id = do
  reject_if cancelled context_cancelled
  ok (record s { content = erase id s.content })

pub close : PackageStore → PackageStore
close s = new_store
