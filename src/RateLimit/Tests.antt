-- ===== src/RateLimit/Tests.antt =====
-- internal/middleware/ratelimit.go: a rate of one request in a second with bursts of three.
use Prim.Native.Nat.{◌*◌}
use netweave.Common.{ℕ, ◌+◌, ◌-◌, ◌<◌, ◌≤◌, ◌≡◌, refl, true, false, none, some, [], ◌∷◌, leb, arith}
use netweave.RateLimit.{Expiry, passed, eval_script, EndpointLimitConfig, get_endpoint_limit}
use netweave.RateLimit.Bound.{end_of, repeat, passed-le, passed-two_bursts}

kept_within : (set_at now : ℕ) → now < set_at + 2 → leb (set_at + 3) now ≡ false
kept_within set_at now h = ground arith

gone_after : (set_at now : ℕ) → set_at + 3 ≤ now → leb (set_at + 3) now ≡ true
gone_after set_at now h = ground arith

-- The keys stay as long as they may.
abbrev expiry : Expiry
expiry = record {
  gone = λ set_at now. leb (set_at + 3) now;
  kept_within = kept_within;
  gone_after = gone_after;
}

-- Five requests at once and two later: three and two pass.
busy : passed expiry 1 3 none (10 ∷ 10 ∷ 10 ∷ 10 ∷ 10 ∷ 11 ∷ 12 ∷ []) ≡ 5
unfolding passed eval_script
busy = refl

passed-le_example :
    passed expiry 1 3 none (10 ∷ 10 ∷ 10 ∷ 10 ∷ 10 ∷ 11 ∷ 12 ∷ [])
    ≤ 3 + (end_of 10 (10 ∷ 10 ∷ 10 ∷ 10 ∷ 11 ∷ 12 ∷ []) - 10) * 1
passed-le_example =
    passed-le expiry 1 3 (omega arith) (omega arith) 10 (10 ∷ 10 ∷ 10 ∷ 10 ∷ 11 ∷ 12 ∷ [])
      (omega arith)

passed-two_bursts_example :
    passed expiry 1 100 none (repeat 100 10 (repeat 100 (10 + 3) [])) ≡ 100 + 100
passed-two_bursts_example = passed-two_bursts expiry 1 100 10 (omega arith)

abbrev listing : EndpointLimitConfig
listing = record {
  path = "/o2ims/v1/resources";
  method = "GET";
  requests_per_second = 5;
  burst_size = 9;
}

found : get_endpoint_limit (listing ∷ []) "GET" "/o2ims/v1/resources" ≡ some listing
unfolding get_endpoint_limit
found = refl

not_found : get_endpoint_limit (listing ∷ []) "POST" "/o2ims/v1/resources" ≡ none
unfolding get_endpoint_limit
not_found = refl
