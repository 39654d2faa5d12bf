-- ===== src/Settings/Accepted.antt =====
-- internal/config/config.go, Validate: the rate limits, the rules of an environment, and the whole.
use netweave.Common.{String, ◌≡◌, ◌≢◌, true, false, All, pos, ◌≤ℤ◌}
use netweave.Settings.{Stat, EndpointRateLimitConfig, SecurityConfig, Config, is_empty}
use netweave.Settings.Valid.{IsServer, IsRedis, IsTls, IsObservability}

abbrev pub IsEndpoint : EndpointRateLimitConfig → Type 0
IsEndpoint e =
    (e.path ≢ "") × ((e.method ≢ "") × ((pos 0 ≤ℤ e.requests_per_second) × (pos 0 ≤ℤ e.burst_size)))

abbrev pub IsLimit : SecurityConfig → Type 0
IsLimit c =
    ((pos 0 ≤ℤ c.tenant_requests_per_second) × (pos 0 ≤ℤ c.tenant_burst_size))
    × (((pos 0 ≤ℤ c.global_requests_per_second) × (pos 0 ≤ℤ c.global_max_concurrent_requests))
        × All IsEndpoint c.endpoints)

abbrev pub IsProduction : Config → Type 0
IsProduction c =
    (c.tls.enabled ≡ true)
    × ((c.tls.client_auth ≡ "require-and-verify")
        × ((c.security.rate_limit_enabled ≡ true)
            × ((c.logging.development ≡ false)
                × ((c.logging.level ≢ "debug")
                    × ((c.validate_response ≡ false)
                        × (c.security.enable_cors ≡ true
                            → is_empty c.security.allowed_origins ≡ false))))))

abbrev pub IsStaging : Config → Type 0
IsStaging c = (c.tls.enabled ≡ true) × (c.security.rate_limit_enabled ≡ true)

abbrev pub IsEnvironment : Config → Type 0
IsEnvironment c =
    (c.environment ≡ "prod" → IsProduction c) × (c.environment ≡ "staging" → IsStaging c)

module _ (stat : String → Stat) where
  abbrev pub IsValid : Config → Type 0
  IsValid c =
      IsServer c.server
      × (IsRedis c.redis
          × ((c.tls.enabled ≡ true → IsTls stat c.tls)
              × (IsObservability c
                  × ((c.security.rate_limit_enabled ≡ true → IsLimit c.security)
                      × IsEnvironment c))))
