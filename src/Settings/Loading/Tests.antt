-- ===== src/Settings/Loading/Tests.antt =====
-- internal/config/config.go: runs of resolveConfigPath and detectEnvironment.
use netweave.Common.{String, ◌≡◌, refl, true, some, if◌then◌else◌, ◌==◌, occurs, starts}
use netweave.Settings.Loading.{
  Files, symlink, resolve_config_path, validate_config_path, validate_config_extension,
  validate_no_traversal, validate_absolute_path, detect_environment,
}
use netweave.Settings.Loading.Paths.{IsChosen, resolve_config_path-IsChosen}

-- Every file is there, and a link leads to a text.
abbrev files : Files
files = record {
  ext = λ path. if path == "/etc/passwd" then "" else ".yaml";
  clean = λ path. path;
  is_abs = λ path. path == "/etc/netweave/config.yaml";
  lstat = λ path. symlink;
  eval_symlinks = λ path. some "/etc/passwd";
  exists = λ path. true;
}

abbrev getenv : String → String
getenv name = if name == "NETWEAVE_ENV" then "prod" else ""

named : resolve_config_path files getenv "site.yaml" ≡ "site.yaml"
unfolding resolve_config_path validate_config_path validate_config_extension validate_no_traversal
    occurs starts
named = refl

-- A link to a file with another extension is not followed.
linked : resolve_config_path files getenv "/etc/netweave/config.yaml" ≡ ""
unfolding resolve_config_path validate_config_path validate_config_extension validate_no_traversal
    validate_absolute_path occurs starts
linked = refl

by_environment : resolve_config_path files getenv "" ≡ "config/config.prod.yaml"
unfolding resolve_config_path
by_environment = refl

-- The name in NETWEAVE_ENV may lead out of the folder.
outside :
    resolve_config_path files (λ name. if name == "NETWEAVE_ENV" then "x/../../tmp/a" else "") ""
    ≡ "config/config.x/../../tmp/a.yaml"
unfolding resolve_config_path
outside = refl

detected : detect_environment (λ name. "") "config/config.staging.yaml" ≡ "staging"
unfolding detect_environment occurs starts
detected = refl

resolve_config_path-IsChosen_example :
    IsChosen files getenv "site.yaml" (resolve_config_path files getenv "site.yaml")
resolve_config_path-IsChosen_example = resolve_config_path-IsChosen files getenv "site.yaml"
