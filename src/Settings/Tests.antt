-- ===== src/Settings/Tests.antt =====
-- internal/config/config.go: a production configuration, and the theorems at it.
use netweave.Common.{
  String, ◌≡◌, refl, true, false, Option, none, [], ◌∷◌, ◌==◌, ok, err, pos, if◌then◌else◌,
}
use netweave.Settings.{
  RedisConfig, Config, Stat, present, other_error, within, not_a_number, validate, validate_server,
  validate_redis, validate_tls, validate_tls_files, validate_tls_client_auth,
  validate_observability, validate_logging, validate_metrics, validate_tracing, validate_security,
  validate_tenant_rate_limit, validate_global_rate_limit, validate_endpoint_rate_limits,
  validate_environment_rules, validate_production_rules, no_mtls, invalid_port,
}
use netweave.Settings.Passwords.{get_password}
use netweave.Settings.Checks.{Passes}

abbrev redis : RedisConfig
redis = record {
  mode = "standalone";
  addresses = "redis:6379" ∷ [];
  master_name = "";
  db = pos 0;
  password = "old";
  password_env_var = "REDIS_PASSWORD";
  password_file = "";
  sentinel_password = "";
  sentinel_password_env_var = "";
  sentinel_password_file = "";
}

abbrev production : Config
production = record {
  server = record { port = pos 8443; gin_mode = "release" };
  redis = redis;
  tls = record {
    enabled = true;
    cert_file = "tls.crt";
    key_file = "tls.key";
    ca_file = "ca.crt";
    client_auth = "require-and-verify";
    min_version = "1.3";
  };
  logging = record { level = "info"; format = "json"; development = false };
  metrics = record { enabled = true; path = "/metrics"; port = pos 0 };
  tracing = record {
    enabled = true;
    provider = "otlp";
    endpoint = "otel:4317";
    sampling_rate = within;
  };
  security = record {
    enable_cors = false;
    allowed_origins = [];
    rate_limit_enabled = true;
    tenant_requests_per_second = pos 100;
    tenant_burst_size = pos 20;
    global_requests_per_second = pos 1000;
    global_max_concurrent_requests = pos 50;
    endpoints =
        record {
          path = "/o2ims/v1/resources";
          method = "GET";
          requests_per_second = pos 10;
          burst_size = pos 5;
        }
        ∷ [];
  };
  validate_response = false;
  environment = "prod";
}

abbrev all_files : String → Stat
all_files path = present

-- A path that cannot be looked at, for want of a permission say, counts as there.
unseen : Passes (validate (λ path. other_error) production)
unfolding validate validate_server validate_redis validate_tls validate_tls_files
    validate_tls_client_auth validate_observability validate_logging validate_metrics
    validate_tracing validate_security validate_tenant_rate_limit validate_global_rate_limit
    validate_endpoint_rate_limits validate_environment_rules validate_production_rules
unseen = refl

-- Certificates that are asked for and not verified do not pass in production.
refused :
    validate_production_rules
      (record production { tls = record production.tls { client_auth = "request" } })
    ≡ err no_mtls
unfolding validate_production_rules
refused = refl

port_zero : validate_server (record { port = pos 0; gin_mode = "release" }) ≡ err invalid_port
unfolding validate_server
port_zero = refl

-- A sampling rate that is not a number is accepted.
not_a_rate : Passes (validate_tracing (record production.tracing { sampling_rate = not_a_number }))
unfolding validate_tracing
not_a_rate = refl

abbrev getenv : String → String
getenv name =
    if name == "NETWEAVE_ENV"
    then "production"
    else if name == "REDIS_PASSWORD"
    then "secret"
    else ""

abbrev no_files : String → Option String
no_files path = none

password_run : get_password getenv no_files redis ≡ ok "secret"
unfolding get_password
password_run = refl
