-- ===== src/Notifier/Ending.antt =====
-- internal/events/notifier.go, NotifyWithRetry: the three ways in which it ends.
use netweave.Common.{
  ℕ, zero, suc, ◌<◌, String, ◌≡◌, refl, sym, ap, ◌∙◌, ◌⊎◌, inl, inr, Bool, true, false, not, Option,
  none, some, List, [], ◌∷◌, ◌++◌, if◌then◌else◌, arith, Map, Bool-cases,
}
use netweave.Batch.{StoredSubscription}
use netweave.Notifier.Loop.{Rounds, notify_with_retry-Rounds}
use netweave.Notifier.{
  Answer, Event, Breaker, Delivery, Progress, Outcome, Fault, delivered, failed, retrying, gave_up,
  cancelled_error, is_none, append_to, send_webhook, execute_with_circuit_breaker, attempt_delivery,
  handle_delivery_success, handle_final_failure, cancel_wait, get_circuit_breaker,
  notify_with_retry,
}

-- The delivery as Track was last given it.
pub last_tracked : List Delivery → Option Delivery
last_tracked [] = none
last_tracked (d ∷ ds) = elim (last_tracked ds) [ none ↦ some d | some e ↦ some e ]

last_tracked-append : (ds : List Delivery) (d : Delivery) → last_tracked (ds ++ d ∷ []) ≡ some d
unfolding last_tracked
last_tracked-append [] d = refl
last_tracked-append (c ∷ ds) d = rw (last_tracked-append ds d, last_tracked) refl

pub last_call : Option (List Delivery) → Option Delivery
last_call none = none
last_call (some ds) = last_tracked ds

last_call-append_to :
    (has_tracker : Bool) (calls : Option (List Delivery)) (d : Delivery)
    → is_none calls ≡ not has_tracker
    → last_call (append_to calls d) ≡ (if has_tracker then some d else none)
unfolding last_call append_to
last_call-append_to true none d h = absurd (ground arith)
last_call-append_to false none d h = refl
last_call-append_to true (some ds) d h = last_tracked-append ds d
last_call-append_to false (some ds) d h = absurd (ground arith)

is_none-append_to :
    (calls : Option (List Delivery)) (d : Delivery) → is_none (append_to calls d) ≡ is_none calls
unfolding append_to
is_none-append_to none d = refl
is_none-append_to (some ds) d = refl

module _ {K : Type 0} (cb : Breaker K) (replies : ℕ → Answer) where
  -- The breaker after so many attempts in a row.
  pub breaker_after : K → ℕ → K
  breaker_after k zero = k
  breaker_after k (suc n) =
      (execute_with_circuit_breaker cb (breaker_after k n) (replies (suc n))).0

  -- What the attempt with so many before it comes to.
  pub fault_of : K → ℕ → Option Fault
  fault_of k n = (execute_with_circuit_breaker cb (breaker_after k n) (replies (suc n))).1

  -- The first attempts all failed.
  abbrev pub AllFailed : K → ℕ → Type 0
  AllFailed k zero = Unit
  AllFailed k (suc n) = AllFailed k n × ((f : Fault) × (fault_of k n ≡ some f))

module _ {K : Type 0} (cb : Breaker K) (has_tracker : Bool) (replies : ℕ → Answer)
    (cancelled : ℕ → Bool) (max : ℕ) (first : K) where
  -- Track was last given this delivery, if there is a tracker.
  abbrev pub IsTracked : Delivery → Outcome K → Type 0
  IsTracked d o = last_call o.progress.tracked ≡ (if has_tracker then some d else none)

  -- The attempts before the last failed; the last was answered with success, and Track knows it.
  abbrev pub IsDelivered : Outcome K → Type 0
  IsDelivered o =
      (n : ℕ) × (o.error ≡ none)
      × (o.progress.delivery.status ≡ delivered)
      × (o.progress.delivery.attempts ≡ suc n)
      × AllFailed cb replies first n
      × (fault_of cb replies first n ≡ none)
      × (send_webhook (replies (suc n)) ≡ none)
      × IsTracked o.progress.delivery o

  -- All attempts were made and failed, the last with the given fault, and Track knows it.
  abbrev pub IsGivenUp : Outcome K → Type 0
  IsGivenUp o =
      (n : ℕ) × (f : Fault) × (max ≡ suc n)
      × (o.error ≡ some (gave_up max f))
      × (o.progress.delivery.status ≡ failed)
      × (o.progress.delivery.last_error ≡ some f)
      × (o.progress.delivery.attempts ≡ max)
      × AllFailed cb replies first n
      × (fault_of cb replies first n ≡ some f)
      × IsTracked o.progress.delivery o

  -- The context was cancelled in a wait after a failed attempt that was not the last one allowed.
  -- The delivery has failed, for Track it is being retried.
  abbrev pub IsCancelled : Outcome K → Type 0
  IsCancelled o =
      (n : ℕ) × (f : Fault) × (suc n < max)
      × (o.error ≡ some cancelled_error)
      × (o.progress.delivery.status ≡ failed)
      × (o.progress.delivery.last_error ≡ some f)
      × (o.progress.delivery.attempts ≡ suc n)
      × AllFailed cb replies first n
      × (fault_of cb replies first n ≡ some f)
      × (cancelled (suc n) ≡ true)
      × ((d : Delivery) × IsTracked d o × (d.status ≡ retrying))

  abbrev pub IsEnd : Outcome K → Type 0
  IsEnd o = IsDelivered o ⊎ (IsGivenUp o ⊎ IsCancelled o)

  execute-answered :
      (k : K) (answer : Answer)
      → (execute_with_circuit_breaker cb k answer).1 ≡ none
      → send_webhook answer ≡ none
  unfolding execute_with_circuit_breaker
  execute-answered k answer h = elim (Bool-cases (cb.admits k)) [
    | inl b ↦ rw b at h
    | inr b ↦ absurd (ground (arith, h, b))
  ]

  -- So many attempts failed, and the breaker and the tracker have seen them.
  abbrev HaveFailed : ℕ → ℕ → Progress K → Type 0
  HaveFailed k b p =
      (p.breaker ≡ breaker_after cb replies first k)
      × AllFailed cb replies first k
      × (is_none p.tracked ≡ not has_tracker)

  this_fault :
      (k : ℕ) (p : Progress K) (r : Option Fault)
      → p.breaker ≡ breaker_after cb replies first k
      → (attempt_delivery cb (suc k) (replies (suc k)) p).1 ≡ r
      → fault_of cb replies first k ≡ r
  unfolding attempt_delivery fault_of
  this_fault k p r same e =
      ap (λ x. (execute_with_circuit_breaker cb x (replies (suc k))).1) (sym same) ∙ e

  begun_once :
      (k : ℕ) (p : Progress K)
      → is_none p.tracked ≡ not has_tracker
      → is_none (attempt_delivery cb (suc k) (replies (suc k)) p).0.tracked ≡ not has_tracker
  unfolding attempt_delivery
  begun_once k p h = is_none-append_to p.tracked _ ∙ h

  IsEnd-Rounds : Rounds cb replies cancelled max HaveFailed IsEnd
  unfolding attempt_delivery handle_delivery_success handle_final_failure cancel_wait breaker_after
  IsEnd-Rounds = record {
    good = λ k b p (same, bad, t) h e. inl (
      k,
      refl,
      refl,
      refl,
      bad,
      this_fault k p none same e,
      execute-answered p.breaker (replies (suc k)) e,
      last_call-append_to has_tracker _ _ (begun_once k p t),
    );
    last = λ k b p f (same, bad, t) h e. inr (
        inl (
          k,
          f,
          sym h,
          ap (λ n. some (gave_up n f)) h,
          refl,
          refl,
          h,
          bad,
          this_fault k p (some f) same e,
          last_call-append_to has_tracker _ _ (begun_once k p t),
        ));
    stop = λ k b p f (same, bad, t) h c e. inr (
        inr (
          k,
          f,
          h,
          refl,
          refl,
          refl,
          refl,
          bad,
          this_fault k p (some f) same e,
          c,
          (_, last_call-append_to has_tracker _ _ (begun_once k p t), refl),
        ));
    more = λ k b p f (same, bad, t) e. (
      ap (λ x. (execute_with_circuit_breaker cb x (replies (suc k))).0) same,
      (bad, (f, this_fault k p (some f) same e)),
      is_none-append_to _ _ ∙ begun_once k p t,
    );
  }

-- With at least one attempt allowed, notify_with_retry ends in one of three ways. The attempts
-- before the last failed, the last was answered with a status of success, and there is no error;
-- or all attempts that are allowed were made and each failed, refused by the breaker or answered
-- without success, and the last fault is the error; or the context was cancelled in the wait after
-- a failed attempt that was not the last one allowed. With a tracker, in the first two the
-- delivery is tracked as it is returned, and in the third it is returned as failed and tracked as
-- being retried; without one nothing is tracked.
pub notify_with_retry-IsEnd :
    {K : Type 0} (cb : Breaker K) (replies : ℕ → Answer) (cancelled : ℕ → Bool) (max : ℕ)
    (uuid : String) (has_tracker : Bool) (breakers : Map K) (event : Event)
    (sub : StoredSubscription)
    → 0 < max
    → IsEnd cb has_tracker replies cancelled max
        (get_circuit_breaker cb breakers sub.callback)
        (notify_with_retry cb uuid has_tracker max replies cancelled breakers event sub).0
unfolding breaker_after
notify_with_retry-IsEnd cb replies cancelled max uuid has_tracker breakers event sub h =
    let first = get_circuit_breaker cb breakers sub.callback in
    notify_with_retry-Rounds cb replies cancelled max
      (HaveFailed cb has_tracker replies cancelled max first)
      (IsEnd cb has_tracker replies cancelled max first)
      (IsEnd-Rounds cb has_tracker replies cancelled max first) uuid has_tracker breakers event sub
      h (refl, tt, ground arith)
