-- ===== src/Settings.antt =====
-- internal/config/config.go: the validation of a configuration. What os.Stat says of a path is an
-- argument (`stat`). Fields that the code here does not read are left out, and the messages of errors too.
mod Checks
pub mod Valid
pub mod Accepted
pub mod Secure
pub mod Passwords
pub mod Loading
mod Tests
use netweave.Common.{
  ℕ, String, Bool, true, false, not, ◌&&◌, ◌||◌, Option, none, some, List, [], ◌∷◌, if◌then◌else◌,
  contains, Result, ok, err, ◌>>=◌, ◌>>◌, reject_if, ◌==◌, ℤ, pos, negsuc, ltb_ℤ,
}

pub record ServerConfig : Type 0 where
  pub port : ℤ
  pub gin_mode : String

pub record RedisConfig : Type 0 where
  pub mode : String
  pub addresses : List String
  pub master_name : String
  pub db : ℤ
  pub password : String
  pub password_env_var : String
  pub password_file : String
  pub sentinel_password : String
  pub sentinel_password_env_var : String
  pub sentinel_password_file : String

pub record TlsConfig : Type 0 where
  pub enabled : Bool
  pub cert_file : String
  pub key_file : String
  pub ca_file : String
  pub client_auth : String
  pub min_version : String

pub record LoggingConfig : Type 0 where
  pub level : String
  pub format : String
  pub development : Bool

pub record MetricsConfig : Type 0 where
  pub enabled : Bool
  pub path : String
  pub port : ℤ

-- How a float64 compares to 0.0 and 1.0.
pub data Rate : Type 0 where
  below_zero within above_one not_a_number : Rate

pub record TracingConfig : Type 0 where
  pub enabled : Bool
  pub provider : String
  pub endpoint : String
  pub sampling_rate : Rate

pub record EndpointRateLimitConfig : Type 0 where
  pub path : String
  pub method : String
  pub requests_per_second : ℤ
  pub burst_size : ℤ

pub record SecurityConfig : Type 0 where
  pub enable_cors : Bool
  pub allowed_origins : List String
  pub rate_limit_enabled : Bool
  pub tenant_requests_per_second : ℤ
  pub tenant_burst_size : ℤ
  pub global_requests_per_second : ℤ
  pub global_max_concurrent_requests : ℤ
  pub endpoints : List EndpointRateLimitConfig

pub record Config : Type 0 where
  pub server : ServerConfig
  pub redis : RedisConfig
  pub tls : TlsConfig
  pub logging : LoggingConfig
  pub metrics : MetricsConfig
  pub tracing : TracingConfig
  pub security : SecurityConfig
  pub validate_response : Bool
  pub environment : String

pub data ConfigError : Type 0 where
  invalid_port invalid_gin_mode : ConfigError
  invalid_redis_mode no_addresses no_master_name invalid_db : ConfigError
  no_cert_file no_key_file cert_file_missing key_file_missing : ConfigError
  invalid_client_auth no_ca_file ca_file_missing invalid_min_version : ConfigError
  invalid_level invalid_format : ConfigError
  no_metrics_path invalid_metrics_port : ConfigError
  invalid_provider no_endpoint invalid_sampling_rate : ConfigError
  negative_tenant_rate negative_tenant_burst : ConfigError
  negative_global_rate negative_concurrency : ConfigError
  no_path no_method negative_endpoint_rate negative_endpoint_burst : ConfigError
  no_tls no_mtls no_rate_limit development_logging debug_logging : ConfigError
  response_validation open_cors : ConfigError
  variable_not_set file_not_read : ConfigError
  empty_path invalid_extension traversal not_accessible unresolved_link : ConfigError

abbrev pub Check : Type 0
Check = Result {0, 0} ConfigError Unit

abbrev pub outside : ℕ → ℕ → ℤ → Bool
outside low high n = ltb_ℤ n (pos low) || ltb_ℤ (pos high) n

abbrev pub negative : ℤ → Bool
negative n = ltb_ℤ n (pos 0)

abbrev pub is_empty {ℓ} : {A : Type ℓ} → List A → Bool
is_empty [] = true
is_empty (x ∷ xs) = false

abbrev pub gin_modes : List String
gin_modes = "debug" ∷ "release" ∷ "test" ∷ []

abbrev pub redis_modes : List String
redis_modes = "standalone" ∷ "sentinel" ∷ "cluster" ∷ []

abbrev pub client_auth_modes : List String
client_auth_modes = "none" ∷ "request" ∷ "require" ∷ "verify" ∷ "require-and-verify" ∷ []

abbrev pub tls_versions : List String
tls_versions = "1.2" ∷ "1.3" ∷ []

abbrev pub log_levels : List String
log_levels = "debug" ∷ "info" ∷ "warn" ∷ "error" ∷ "fatal" ∷ []

abbrev pub log_formats : List String
log_formats = "json" ∷ "console" ∷ []

abbrev pub tracing_providers : List String
tracing_providers = "jaeger" ∷ "zipkin" ∷ "otlp" ∷ []

pub validate_server : ServerConfig → Check
validate_server c = do
  reject_if (outside 1 65535 c.port) invalid_port
  reject_if (not (contains gin_modes c.gin_mode)) invalid_gin_mode

pub validate_redis : RedisConfig → Check
validate_redis c = do
  reject_if (not (contains redis_modes c.mode)) invalid_redis_mode
  reject_if (is_empty c.addresses) no_addresses
  reject_if (c.mode == "sentinel" && c.master_name == "") no_master_name
  reject_if (outside 0 15 c.db) invalid_db

abbrev pub when : Bool → Check → Check
when b check = if b then check else ok tt

-- What os.Stat answers, as os.IsNotExist tells it apart: an error of another kind, such as a missing
-- permission, does not count as absence.
pub data Stat : Type 0 where
  present not_exist other_error : Stat

abbrev pub is_not_exist : Stat → Bool
is_not_exist present = false
is_not_exist not_exist = true
is_not_exist other_error = false

module _ (stat : String → Stat) where
  pub validate_tls_files : TlsConfig → Check
  validate_tls_files c = do
    reject_if (c.cert_file == "") no_cert_file
    reject_if (c.key_file == "") no_key_file
    reject_if (is_not_exist (stat c.cert_file)) cert_file_missing
    reject_if (is_not_exist (stat c.key_file)) key_file_missing

  pub validate_tls_client_auth : TlsConfig → Check
  validate_tls_client_auth c = do
    reject_if (not (contains client_auth_modes c.client_auth)) invalid_client_auth
    when (not (c.client_auth == "none")) (do
      reject_if (c.ca_file == "") no_ca_file
      reject_if (is_not_exist (stat c.ca_file)) ca_file_missing)

  pub validate_tls : TlsConfig → Check
  validate_tls c = when c.enabled (do
    validate_tls_files c
    validate_tls_client_auth c
    reject_if (not (contains tls_versions c.min_version)) invalid_min_version)

pub validate_logging : LoggingConfig → Check
validate_logging c = do
  reject_if (not (contains log_levels c.level)) invalid_level
  reject_if (not (contains log_formats c.format)) invalid_format

pub validate_metrics : MetricsConfig → Check
validate_metrics c = when c.enabled (do
  reject_if (c.path == "") no_metrics_path
  reject_if (outside 0 65535 c.port) invalid_metrics_port)

-- rate < 0.0 || rate > 1.0
abbrev pub out_of_unit : Rate → Bool
out_of_unit below_zero = true
out_of_unit within = false
out_of_unit above_one = true
out_of_unit not_a_number = false

pub validate_tracing : TracingConfig → Check
validate_tracing c = when c.enabled (do
  reject_if (not (contains tracing_providers c.provider)) invalid_provider
  reject_if (c.endpoint == "") no_endpoint
  reject_if (out_of_unit c.sampling_rate) invalid_sampling_rate)

pub validate_observability : Config → Check
validate_observability c = do
  validate_logging c.logging
  validate_metrics c.metrics
  validate_tracing c.tracing

pub validate_tenant_rate_limit : SecurityConfig → Check
validate_tenant_rate_limit c = do
  reject_if (negative c.tenant_requests_per_second) negative_tenant_rate
  reject_if (negative c.tenant_burst_size) negative_tenant_burst

pub validate_global_rate_limit : SecurityConfig → Check
validate_global_rate_limit c = do
  reject_if (negative c.global_requests_per_second) negative_global_rate
  reject_if (negative c.global_max_concurrent_requests) negative_concurrency

-- The round for one endpoint.
abbrev pub validate_endpoint : EndpointRateLimitConfig → Check
validate_endpoint e = do
  reject_if (e.path == "") no_path
  reject_if (e.method == "") no_method
  reject_if (negative e.requests_per_second) negative_endpoint_rate
  reject_if (negative e.burst_size) negative_endpoint_burst

pub validate_endpoint_rate_limits : List EndpointRateLimitConfig → Check
validate_endpoint_rate_limits [] = ok tt
validate_endpoint_rate_limits (e ∷ es) = do validate_endpoint e; validate_endpoint_rate_limits es

pub validate_security : SecurityConfig → Check
validate_security c = when c.rate_limit_enabled (do
  validate_tenant_rate_limit c
  validate_global_rate_limit c
  validate_endpoint_rate_limits c.endpoints)

pub validate_production_rules : Config → Check
validate_production_rules c = do
  reject_if (not c.tls.enabled) no_tls
  reject_if (not (c.tls.client_auth == "require-and-verify")) no_mtls
  reject_if (not c.security.rate_limit_enabled) no_rate_limit
  reject_if c.logging.development development_logging
  reject_if (c.logging.level == "debug") debug_logging
  reject_if c.validate_response response_validation
  reject_if (c.security.enable_cors && is_empty c.security.allowed_origins) open_cors

pub validate_staging_rules : Config → Check
validate_staging_rules c = do
  reject_if (not c.tls.enabled) no_tls
  reject_if (not c.security.rate_limit_enabled) no_rate_limit

pub validate_environment_rules : Config → Check
validate_environment_rules c =
    if c.environment == "prod"
    then validate_production_rules c
    else if c.environment == "staging"
    then validate_staging_rules c
    else ok tt

pub validate : (String → Stat) → Config → Check
validate stat c = do
  validate_server c.server
  validate_redis c.redis
  validate_tls stat c.tls
  validate_observability c
  validate_security c.security
  validate_environment_rules c
