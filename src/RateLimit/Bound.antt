-- ===== src/RateLimit/Bound.antt =====
-- internal/middleware/ratelimit.go: how many requests pass.
use Prim.Native.Nat.{◌*◌}
use netweave.Common.{
  ℕ, zero, suc, ◌+◌, ◌-◌, ◌≤◌, ◌≡◌, refl, sym, ap, ◌∙◌, true, false, Option, none, some, List, [],
  ◌∷◌, leb, min, arith, Bool-cases, inl, inr, subst,
}
use netweave.RateLimit.{Bucket, Expiry, eval_script, passed}

-- Each request comes in the second of the one before it or in the next.
abbrev pub IsSteady : ℕ → List ℕ → Type 0
IsSteady last [] = Unit
IsSteady last (t ∷ ts) = last ≤ t × t ≤ last + 1 × IsSteady t ts

abbrev pub end_of : ℕ → List ℕ → ℕ
end_of last [] = last
end_of last (t ∷ ts) = end_of t ts

-- The tokens that the seconds give.
earned : ℕ → ℕ → List ℕ → ℕ
earned rate last [] = 0
earned rate last (t ∷ ts) = (t - last) * rate + earned rate t ts

end_of-le : (last : ℕ) (ts : List ℕ) → IsSteady last ts → last ≤ end_of last ts
end_of-le last [] h = omega arith
end_of-le last (t ∷ ts) h = omega (arith, end_of-le t ts h.2)

add_times : (a b c rate : ℕ) → a + b ≡ c → a * rate + b * rate ≡ c * rate
add_times a b c rate h = grind arith

earned-eq :
    (rate last : ℕ) (ts : List ℕ)
    → IsSteady last ts
    → earned rate last ts ≡ (end_of last ts - last) * rate
unfolding earned
earned-eq rate last [] h =
    let none_left : last - last ≡ 0 = omega arith in rw none_left (omega arith)
earned-eq rate last (t ∷ ts) h =
    ap (λ k. (t - last) * rate + k) (earned-eq rate t ts h.2)
    ∙ add_times (t - last) (end_of t ts - t) (end_of t ts - last) rate
        (omega (arith, end_of-le t ts h.2))

-- A refused request earned nothing.
no_gain :
    (d tokens rate burst : ℕ)
    → 1 ≤ rate
    → 1 ≤ burst
    → leb 1 (min burst (tokens + d * rate)) ≡ false
    → d ≡ 0
no_gain zero tokens rate burst r b h = refl
no_gain (suc d) tokens rate burst r b h =
    let product : suc d * rate ≡ d * rate + rate = grind arith in
    absurd (ground (arith, h, product))

module _ (expiry : Expiry) (rate burst : ℕ) (some_rate : 1 ≤ rate) (some_burst : 1 ≤ burst) where
  passes :
      (p before gain later : ℕ)
      → p ≤ (min burst (before + gain) - 1) + later
      → 1 ≤ min burst (before + gain)
      → suc p ≤ before + (gain + later)
  passes p before gain later h k = omega arith

  refused :
      (p before gain later later' : ℕ)
      → p ≤ before + later
      → later ≡ later'
      → p ≤ before + (gain + later')
  refused p before gain later later' h e = omega arith

  passed-le-earned :
      (b : Bucket) (ts : List ℕ)
      → IsSteady b.last_update ts
      → passed expiry rate burst (some b) ts ≤ b.tokens + earned rate b.last_update ts
  unfolding passed earned eval_script
  passed-le-earned b [] h = omega arith
  passed-le-earned b (t ∷ ts) h =
      let there : expiry.gone b.last_update t ≡ false =
        expiry.kept_within b.last_update t (omega arith) in
      let since : leb b.last_update t ≡ true = ground (arith, h.0) in
      let tokens = min burst (b.tokens + (t - b.last_update) * rate) in
      elim (Bool-cases (leb 1 tokens)) [
        | inl e ↦
            rw (there, since, e)
              (passes _ b.tokens ((t - b.last_update) * rate) (earned rate t ts)
                (passed-le-earned (record { tokens = tokens - 1; last_update = t }) ts h.2)
                (ground (arith, e)))
        | inr e ↦
            rw (there, since, e)
              (let same : b.last_update ≡ t =
                  omega (
                    arith,
                    no_gain (t - b.last_update) b.tokens rate burst some_rate some_burst e,
                  ) in
                let rest = passed-le-earned b ts (subst (λ n. IsSteady n ts) (sym same) h.2) in
                refused _ b.tokens ((t - b.last_update) * rate) (earned rate b.last_update ts)
                  (earned rate t ts) rest (ap (λ n. earned rate n ts) same))
      ]

  -- At a rate and with a burst of at least one, and from a bucket that is not stored yet: of requests
  -- of which each comes in the second of the one before it or in the next, no more pass than the
  -- burst and the rate for each second from the first request to the last.
  pub passed-le :
      (start : ℕ) (ts : List ℕ)
      → IsSteady start ts
      → passed expiry rate burst none (start ∷ ts) ≤ burst + (end_of start ts - start) * rate
  unfolding passed eval_script
  passed-le start ts h =
      let first : leb 1 burst ≡ true = ground (arith, some_burst) in
      let rest = passed-le-earned (record { tokens = burst - 1; last_update = start }) ts h in
      rw first (omega (arith, rest, earned-eq rate start ts h))

-- A bucket that no request has used for three seconds is full, whatever its rate.
idle_refills :
    (expiry : Expiry) (rate burst now : ℕ) (b : Bucket)
    → 1 ≤ burst
    → b.last_update + 3 ≤ now
    → eval_script expiry now rate burst (some b)
      ≡ (true, some (record { tokens = burst - 1; last_update = now }))
unfolding eval_script
idle_refills expiry rate burst now b h k =
    let gone = expiry.gone_after b.last_update now k in
    let first : leb 1 burst ≡ true = ground (arith, h) in rw (gone, first) refl

-- So many requests in one second, before the others.
abbrev pub repeat : ℕ → ℕ → List ℕ → List ℕ
repeat zero now rest = rest
repeat (suc n) now rest = now ∷ repeat n now rest

full_again : (n burst now rate : ℕ) → n ≤ burst → min burst (n + (now - now) * rate) ≡ n
full_again n burst now rate h =
    let no_time : now - now ≡ 0 = omega arith in rw no_time (omega arith)

module _ (expiry : Expiry) (rate burst now : ℕ) where
  same_second :
      (n : ℕ) (rest : List ℕ)
      → n ≤ burst
      → passed expiry rate burst
          (some (record { tokens = n; last_update = now }))
          (repeat n now rest)
        ≡ n + passed expiry rate burst (some (record { tokens = 0; last_update = now })) rest
  unfolding passed eval_script
  same_second zero rest h = omega arith
  same_second (suc n) rest h =
      let there : expiry.gone now now ≡ false = expiry.kept_within now now (omega arith) in
      let since : leb now now ≡ true = ground arith in
      let one : leb 1 (suc n) ≡ true = ground arith in
      let left : suc n - 1 ≡ n = omega arith in
      rw (there, since, full_again (suc n) burst now rate h, one, left)
        (omega (arith, same_second n rest (omega arith)))

fresh_passes :
    (expiry : Expiry) (rate burst now : ℕ)
    → 1 ≤ burst
    → eval_script expiry now rate burst none
      ≡ (true, some (record { tokens = burst - 1; last_update = now }))
unfolding eval_script
fresh_passes expiry rate burst now h =
    let first : leb 1 burst ≡ true = ground (arith, h) in rw first refl

-- A burst in one second, at a bucket whose first request makes it full.
whole_burst :
    (expiry : Expiry) (rate k now : ℕ) (bucket : Option Bucket) (rest : List ℕ)
    → eval_script expiry now rate (suc k) bucket
      ≡ (true, some (record { tokens = suc k - 1; last_update = now }))
    → passed expiry rate (suc k) bucket (repeat (suc k) now rest)
      ≡ suc k + passed expiry rate (suc k) (some (record { tokens = 0; last_update = now })) rest
unfolding passed
whole_burst expiry rate k now bucket rest h =
    let left : suc k - 1 ≡ k = omega arith in
    rw (h, left) (omega (arith, same_second expiry rate (suc k) now k rest (omega arith)))

-- From a bucket that is not stored yet, of a burst of requests in one second and another three
-- seconds later all pass, whatever the rate, where the burst is at least one.
pub passed-two_bursts :
    (expiry : Expiry) (rate burst now : ℕ)
    → 1 ≤ burst
    → passed expiry rate burst none (repeat burst now (repeat burst (now + 3) [])) ≡ burst + burst
unfolding passed
passed-two_bursts expiry rate zero now h = absurd (omega arith)
passed-two_bursts expiry rate (suc k) now h =
    let again = repeat (suc k) (now + 3) [] in
    let drained : Bucket = record { tokens = 0; last_update = now } in
    whole_burst expiry rate k now none again (fresh_passes expiry rate (suc k) now h)
    ∙ ap (λ n. suc k + n)
        (whole_burst expiry rate k (now + 3) (some drained) []
            (idle_refills expiry rate (suc k) (now + 3) drained h (omega arith))
          ∙ omega arith)
