-- ===== src/Settings/Valid.antt =====
-- internal/config/config.go, Validate: which configurations it accepts.
use netweave.Common.{
  ◌⊎◌, eq_iff, String, ◌≡◌, ◌≢◌, ◌↔◌, refl, true, false, Among, inl, inr, ◌==◌, arith,
}
use netweave.Settings.{
  redis_modes, tls_versions, log_levels, log_formats, tracing_providers, invalid_redis_mode,
  no_addresses, no_master_name, invalid_db, no_cert_file, no_key_file, cert_file_missing,
  key_file_missing, invalid_client_auth, no_ca_file, ca_file_missing, invalid_min_version,
  invalid_level, invalid_format, no_metrics_path, invalid_metrics_port, invalid_provider,
  no_endpoint, invalid_sampling_rate, ServerConfig, RedisConfig, TlsConfig, LoggingConfig,
  MetricsConfig, TracingConfig, Rate, below_zero, within, above_one, not_a_number, out_of_unit,
  Config, client_auth_modes, validate_server, validate_redis, validate_tls_files,
  validate_tls_client_auth, validate_tls, validate_logging, validate_metrics, validate_tracing,
  validate_observability, is_empty, gin_modes, Stat, present, not_exist, other_error, is_not_exist,
  invalid_port, invalid_gin_mode,
}
use netweave.Settings.Checks.{
  unless_iff, Passes, IsWithin, reject_iff, when_iff, false_iff, ne_iff, member_iff, ◌⨾◌,
  outside_iff, &&_iff,
}

abbrev pub IsServer : ServerConfig → Type 0
IsServer c = IsWithin 1 65535 c.port × Among c.gin_mode gin_modes

pub validate_server_iff : (c : ServerConfig) → Passes (validate_server c) ↔ IsServer c
unfolding validate_server
validate_server_iff c =
    reject_iff invalid_port (outside_iff 1 65535 c.port)
    ⨾ reject_iff invalid_gin_mode (member_iff gin_modes c.gin_mode)

-- Each address list is not empty, and a sentinel setup names its master.
abbrev pub IsRedis : RedisConfig → Type 0
IsRedis c =
    Among c.mode redis_modes
    × ((is_empty c.addresses ≡ false)
        × ((c.mode ≡ "sentinel" → c.master_name ≢ "") × IsWithin 0 15 c.db))

pub validate_redis_iff : (c : RedisConfig) → Passes (validate_redis c) ↔ IsRedis c
unfolding validate_redis
validate_redis_iff c =
    reject_iff invalid_redis_mode (member_iff redis_modes c.mode)
    ⨾ reject_iff no_addresses (false_iff (is_empty c.addresses))
    ⨾ reject_iff no_master_name
        (&&_iff (c.mode == "sentinel") _ (eq_iff c.mode "sentinel") (ne_iff c.master_name ""))
    ⨾ reject_iff invalid_db (outside_iff 0 15 c.db)

there_iff : (s : Stat) → (is_not_exist s ≡ false) ↔ (s ≢ not_exist)
there_iff present = (λ h e. absurd (ground (arith, e)), λ h. refl)
there_iff not_exist = (λ h. absurd (ground (arith, h)), λ h. absurd (h refl))
there_iff other_error = (λ h e. absurd (ground (arith, e)), λ h. refl)

module _ (stat : String → Stat) where
  abbrev pub IsTls : TlsConfig → Type 0
  IsTls c =
      ((c.cert_file ≢ "")
        × ((c.key_file ≢ "") × ((stat c.cert_file ≢ not_exist) × (stat c.key_file ≢ not_exist))))
      × ((Among c.client_auth client_auth_modes
            × (c.client_auth ≢ "none" → (c.ca_file ≢ "") × (stat c.ca_file ≢ not_exist)))
          × Among c.min_version tls_versions)

  pub validate_tls_iff :
      (c : TlsConfig) → Passes (validate_tls stat c) ↔ (c.enabled ≡ true → IsTls c)
  unfolding validate_tls validate_tls_files validate_tls_client_auth
  validate_tls_iff c = when_iff c.enabled _ (
      (reject_iff no_cert_file (ne_iff c.cert_file "")
        ⨾ reject_iff no_key_file (ne_iff c.key_file "")
        ⨾ reject_iff cert_file_missing (there_iff (stat c.cert_file))
        ⨾ reject_iff key_file_missing (there_iff (stat c.key_file)))
      ⨾ (reject_iff invalid_client_auth (member_iff client_auth_modes c.client_auth)
          ⨾ unless_iff c.client_auth "none" (
              reject_iff no_ca_file (ne_iff c.ca_file "")
              ⨾ reject_iff ca_file_missing (there_iff (stat c.ca_file))))
      ⨾ reject_iff invalid_min_version (member_iff tls_versions c.min_version))

-- A comparison with NaN is false, so the two tests let it pass.
abbrev pub IsRate : Rate → Type 0
IsRate r = (r ≡ within) ⊎ (r ≡ not_a_number)

rate_iff : (r : Rate) → (out_of_unit r ≡ false) ↔ IsRate r
rate_iff below_zero = (λ h. absurd (ground (arith, h)), λ h. absurd (ground (arith, h)))
rate_iff within = (λ h. inl refl, λ h. refl)
rate_iff above_one = (λ h. absurd (ground (arith, h)), λ h. absurd (ground (arith, h)))
rate_iff not_a_number = (λ h. inr refl, λ h. refl)

abbrev pub IsLogging : LoggingConfig → Type 0
IsLogging c = Among c.level log_levels × Among c.format log_formats

abbrev pub IsMetrics : MetricsConfig → Type 0
IsMetrics c = (c.path ≢ "") × IsWithin 0 65535 c.port

abbrev pub IsTracing : TracingConfig → Type 0
IsTracing c = Among c.provider tracing_providers × ((c.endpoint ≢ "") × IsRate c.sampling_rate)

abbrev pub IsObservability : Config → Type 0
IsObservability c =
    IsLogging c.logging
    × ((c.metrics.enabled ≡ true → IsMetrics c.metrics)
        × (c.tracing.enabled ≡ true → IsTracing c.tracing))

pub validate_observability_iff :
    (c : Config) → Passes (validate_observability c) ↔ IsObservability c
unfolding validate_observability validate_logging validate_metrics validate_tracing
validate_observability_iff c =
    (reject_iff invalid_level (member_iff log_levels c.logging.level)
      ⨾ reject_iff invalid_format (member_iff log_formats c.logging.format))
    ⨾ when_iff c.metrics.enabled _ (
        reject_iff no_metrics_path (ne_iff c.metrics.path "")
        ⨾ reject_iff invalid_metrics_port (outside_iff 0 65535 c.metrics.port))
    ⨾ when_iff c.tracing.enabled _ (
        reject_iff invalid_provider (member_iff tracing_providers c.tracing.provider)
        ⨾ reject_iff no_endpoint (ne_iff c.tracing.endpoint "")
        ⨾ reject_iff invalid_sampling_rate (rate_iff c.tracing.sampling_rate))
