-- ===== src/Settings/Loading.antt =====
-- internal/config/config.go: which file a configuration is read from, and the name of its
-- environment. What package `filepath` and the file system answer is a parameter.
pub mod Paths
mod Tests
use Prim.Native.String.{◌++◌}
use netweave.Common.{
  String, ◌≡◌, refl, ◌⊎◌, inl, inr, Bool, true, false, not, ◌&&◌, ◌||◌, Option, none, some, List,
  [], arith, if◌then◌else◌, ◌==◌, ℕ, codes, occurs, occurs_complete, Result, ok, err, ◌>>◌, ◌>>=◌,
  reject_if, Bool-cases, ◌≢◌, eq_iff,
}
use netweave.Settings.{
  Check, empty_path, invalid_extension, traversal, not_accessible, unresolved_link,
}

-- What `os.Lstat` answers.
pub data Entry : Type 0 where
  missing denied plain symlink : Entry

pub record Files : Type 0 where
  pub ext : String → String
  pub clean : String → String
  pub is_abs : String → Bool
  pub lstat : String → Entry
  pub eval_symlinks : String → Option String
  pub exists : String → Bool

abbrev pub env_development : String
env_development = "dev"

abbrev pub env_staging : String
env_staging = "staging"

abbrev pub env_production : String
env_production = "prod"

abbrev pub default_config_path : String
default_config_path = "config/config.yaml"

abbrev holds : String → String → Bool
holds s t = occurs (codes s) (codes t)

unfoldable pub detect_environment : (String → String) → String → String
detect_environment getenv config_path =
    let env = getenv "NETWEAVE_ENV" in
    if not (env == "")
    then env
    else if holds config_path ".dev."
    then env_development
    else if holds config_path ".staging."
    then env_staging
    else if holds config_path ".prod."
    then env_production
    else env_development

-- fmt.Sprintf("config/config.%s.yaml", env)
abbrev pub environment_path : String → String
environment_path env = "config/config." ++ (env ++ ".yaml")

module _ (files : Files) where
  pub validate_config_extension : String → Check
  validate_config_extension path =
      reject_if (not (files.ext path == ".yaml") && not (files.ext path == ".yml"))
        invalid_extension

  pub validate_no_traversal : String → Check
  validate_no_traversal path = reject_if (holds path "..") traversal

  abbrev pub validate_target : Option String → Check
  validate_target none = err unresolved_link
  validate_target (some target) = validate_config_extension target

  abbrev validate_entry : Entry → String → Check
  validate_entry missing path = ok tt
  validate_entry denied path = err not_accessible
  validate_entry plain path = ok tt
  validate_entry symlink path = validate_target (files.eval_symlinks path)

  pub validate_absolute_path : String → Check
  validate_absolute_path clean_path = validate_entry (files.lstat clean_path) clean_path

  pub validate_config_path : String → Check
  validate_config_path path = do
    reject_if (path == "") empty_path
    validate_config_extension path
    validate_no_traversal path
    reject_if (holds (files.clean path) "..") traversal
    if files.is_abs (files.clean path) then validate_absolute_path (files.clean path) else ok tt

  abbrev pub passes : Check → Bool
  passes (ok tt) = true
  passes (err e) = false

  abbrev pub if_valid : String → String
  if_valid path = if passes (validate_config_path path) then path else ""

  pub resolve_config_path : (String → String) → String → String
  resolve_config_path getenv config_path =
      let named = getenv "NETWEAVE_CONFIG" in
      let env = getenv "NETWEAVE_ENV" in
      if not (config_path == "") && not (config_path == default_config_path)
      then if_valid config_path
      else if not (named == "")
      then if_valid named
      else if not (env == "") && files.exists (environment_path env)
      then environment_path env
      else ""
