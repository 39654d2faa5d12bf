-- ===== src/Settings/Passwords.antt =====
-- internal/config/config.go: where the Redis passwords come from.
use netweave.Common.{
  String, Bool, not, ◌&&◌, Option, none, some, if◌then◌else◌, Result, ok, err, ◌==◌,
}
use netweave.Settings.{RedisConfig, ConfigError, variable_not_set, file_not_read}

-- A password from the variable that is named, or else the file, or else the configuration. The
-- content of a file is that without the white space around it, and `none` if it cannot be read.
abbrev password_from :
    (String → String)
    → (String → Option String)
    → String
    → String
    → String
    → Result ConfigError String
password_from getenv read_file env_var file direct =
    if not (env_var == "")
    then (if getenv env_var == "" then err variable_not_set else ok (getenv env_var))
    else if not (file == "")
    then elim (read_file file) [ none ↦ err file_not_read | some text ↦ ok text ]
    else ok direct

unfoldable pub get_password :
    (String → String) → (String → Option String) → RedisConfig → Result ConfigError String
get_password getenv read_file c =
    password_from getenv read_file c.password_env_var c.password_file c.password

pub get_sentinel_password :
    (String → String) → (String → Option String) → RedisConfig → Result ConfigError String
get_sentinel_password getenv read_file c =
    password_from getenv read_file c.sentinel_password_env_var c.sentinel_password_file
      c.sentinel_password

pub is_using_deprecated_password : RedisConfig → Bool
is_using_deprecated_password c =
    not (c.password == "") && c.password_env_var == "" && c.password_file == ""

pub is_using_deprecated_sentinel_password : RedisConfig → Bool
is_using_deprecated_sentinel_password c =
    not (c.sentinel_password == "")
    && c.sentinel_password_env_var == ""
    && c.sentinel_password_file == ""
