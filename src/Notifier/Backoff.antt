-- ===== src/Notifier/Backoff.antt =====
-- internal/events/notifier.go, NotifyWithRetry: the number of attempts and the waits between them.
use Prim.Native.Nat.{◌^◌}
use native.Mathlib.Nat.{two-pow-succ}
use netweave.Common.{
  ℕ, zero, suc, ◌*◌, ◌≤◌, ◌<◌, min, String, ◌≡◌, refl, sym, ap, ◌∙◌, Bool, List, [], ◌∷◌, ◌++◌,
  length, length-append, arith, Map,
}
use netweave.Batch.{StoredSubscription}
use netweave.Notifier.Loop.{Rounds, notify_with_retry-Rounds}
use netweave.Notifier.{
  Answer, Event, Breaker, Progress, Outcome, next_backoff, attempt_delivery,
  handle_delivery_success, handle_final_failure, cancel_wait, notify_with_retry, initial_backoff,
}

-- The wait after the attempt with so many before it: a second, doubled each time, up to a minute.
pub wait_after : ℕ → ℕ
wait_after n = min 60000 (1000 * 2 ^ n)

pub waits_upto : ℕ → List ℕ
waits_upto zero = []
waits_upto (suc n) = waits_upto n ++ wait_after n ∷ []

wait_after-first : wait_after 0 ≡ initial_backoff
unfolding wait_after
wait_after-first = refl

next_backoff-wait_after : (n : ℕ) → next_backoff (wait_after n) ≡ wait_after (suc n)
unfolding next_backoff wait_after
next_backoff-wait_after n = ground (arith, two-pow-succ n)

-- The attempts are counted, the waits lie between them, and the last attempt is within the limit.
abbrev pub IsBounded : {K : Type 0} → ℕ → Outcome K → Type 0
IsBounded max_retries o =
    (o.progress.delivery.attempts ≡ suc (length o.progress.waits))
    × (o.progress.delivery.attempts ≤ max_retries)
    × (o.progress.waits ≡ waits_upto (length o.progress.waits))

length-waits_upto : (n : ℕ) → length (waits_upto n) ≡ n
unfolding waits_upto
length-waits_upto zero = refl
length-waits_upto (suc n) =
    length-append (waits_upto n) (wait_after n ∷ []) ∙ omega (arith, length-waits_upto n)

module _ {K : Type 0} (cb : Breaker K) (replies : ℕ → Answer) (cancelled : ℕ → Bool) (max : ℕ) where
  abbrev WaitsUpto : ℕ → ℕ → Progress K → Type 0
  WaitsUpto k b p = (p.waits ≡ waits_upto k) × (b ≡ wait_after k)

  at_end :
      (k : ℕ) (ws : List ℕ)
      → ws ≡ waits_upto k
      → suc k ≤ max
      → (suc k ≡ suc (length ws)) × (suc k ≤ max) × (ws ≡ waits_upto (length ws))
  at_end k ws w h =
      let count : length ws ≡ k = ap length w ∙ length-waits_upto k in
      (omega arith, h, w ∙ ap waits_upto (sym count))

  IsBounded-Rounds : Rounds cb replies cancelled max WaitsUpto (IsBounded max)
  unfolding waits_upto attempt_delivery handle_delivery_success handle_final_failure cancel_wait
  IsBounded-Rounds = record {
    good = λ k b p i h e. at_end k p.waits i.0 h;
    last = λ k b p f i h e. at_end k p.waits i.0 (omega arith);
    stop = λ k b p f i h c e. at_end k p.waits i.0 (omega arith);
    more = λ k b p f i e. (
      ap (λ x. x ++ b ∷ []) i.0 ∙ ap (λ x. waits_upto k ++ x ∷ []) i.1,
      ap next_backoff i.1 ∙ next_backoff-wait_after k,
    );
  }

  -- With at least one attempt allowed, notify_with_retry makes at most so many attempts. It waits
  -- once between each two of them, first a second, then twice as long each time up to a minute.
  pub notify_with_retry-IsBounded :
      (uuid : String) (has_tracker : Bool) (breakers : Map K) (event : Event)
      (sub : StoredSubscription)
      → 0 < max
      → IsBounded max
          (notify_with_retry cb uuid has_tracker max replies cancelled breakers event sub).0
  unfolding waits_upto
  notify_with_retry-IsBounded uuid has_tracker breakers event sub h =
      notify_with_retry-Rounds cb replies cancelled max WaitsUpto (IsBounded max) IsBounded-Rounds
        uuid has_tracker breakers event sub h (refl, sym wait_after-first)
