-- ===== src/RateLimit.antt =====
-- internal/middleware/ratelimit.go: the token bucket of the rate limiter, kept in Redis. The script
-- that Redis runs is `eval_script`; when Redis drops the two keys of a bucket, which expire two
-- seconds after they are set, is a parameter, since times are whole seconds.
pub mod Bound
mod Tests
use Prim.Native.Nat.{◌*◌}
use netweave.Common.{
  ℕ, suc, ◌+◌, ◌-◌, ◌<◌, ◌≤◌, ◌≡◌, String, Bool, true, false, Option, none, some, List, [], ◌∷◌,
  ltb, leb, min, if◌then◌else◌, ◌==◌, ◌&&◌, Map, lookup, insert,
}

-- key:tokens and key:ts
pub record Bucket : Type 0 where
  pub tokens : ℕ
  pub last_update : ℕ

-- Whether the keys that were set at one second are gone at another.
pub record Expiry : Type 0 where
  pub gone : ℕ → ℕ → Bool
  pub kept_within : (set_at now : ℕ) → now < set_at + 2 → gone set_at now ≡ false
  pub gone_after : (set_at now : ℕ) → set_at + 3 ≤ now → gone set_at now ≡ true

module _ (expiry : Expiry) where
  -- The GET of both keys.
  abbrev pub stored_bucket : ℕ → Option Bucket → Option Bucket
  stored_bucket now none = none
  stored_bucket now (some b) = if expiry.gone b.last_update now then none else some b

  -- What elapsed may be negative, where the clocks of two gateways differ; tokens below 0 count as 0,
  -- for both are refused and not stored.
  abbrev pub refilled : ℕ → ℕ → Bucket → ℕ
  refilled now rate b =
      if leb b.last_update now
      then b.tokens + (now - b.last_update) * rate
      else b.tokens - (b.last_update - now) * rate

  abbrev pub tokens_at : ℕ → ℕ → ℕ → Option Bucket → ℕ
  tokens_at now rate burst none = burst
  tokens_at now rate burst (some b) = min burst (refilled now rate b)

  abbrev pub take_token : ℕ → ℕ → Option Bucket → Bool × Option Bucket
  take_token now tokens before =
      if leb 1 tokens
      then (true, some (record { tokens = tokens - 1; last_update = now }))
      else (false, before)

  unfoldable pub eval_script : ℕ → ℕ → ℕ → Option Bucket → Bool × Option Bucket
  eval_script now rate burst bucket =
      take_token now (tokens_at now rate burst (stored_bucket now bucket)) bucket

  -- The requests that pass, of those that come at these seconds.
  unfoldable pub passed : ℕ → ℕ → Option Bucket → List ℕ → ℕ
  passed rate burst bucket [] = 0
  passed rate burst bucket (now ∷ times) =
      let r = eval_script now rate burst bucket in
      let rest = passed rate burst r.1 times in if r.0 then suc rest else rest

pub record EndpointLimitConfig : Type 0 where
  pub path : String
  pub method : String
  pub requests_per_second : ℕ
  pub burst_size : ℕ

unfoldable pub get_endpoint_limit :
    List EndpointLimitConfig → String → String → Option EndpointLimitConfig
get_endpoint_limit [] method path = none
get_endpoint_limit (e ∷ es) method path =
    let rest = get_endpoint_limit es method path in
    if e.method == method && e.path == path then some e else rest

-- The burst of the global limit.
abbrev pub burst_size : ℕ → ℕ
burst_size rate = rate * 2
