-- ===== src/Notifier/Loop.antt =====
-- internal/events/notifier.go, NotifyWithRetry: the rule for the retry loop, by which its properties
-- are proved. `k` attempts lie behind, `b` is the next wait.
use netweave.Common.{
  ℕ, zero, suc, ◌+◌, ◌≤◌, ◌<◌, String, ◌≡◌, inl, inr, Bool, true, none, some, [], if◌then◌else◌,
  arith, leb, Map, Bool-cases, Option-cases,
}
use netweave.Batch.{StoredSubscription}
use netweave.Notifier.{
  Answer, Event, Breaker, Progress, Outcome, Fault, next_backoff, retry, attempt_delivery,
  handle_delivery_success, handle_final_failure, cancel_wait, announce_retry, end_wait,
  notify_with_retry, initial_backoff, new_delivery, get_circuit_breaker,
}

module _ {K : Type 0} (cb : Breaker K) (replies : ℕ → Answer) (cancelled : ℕ → Bool) (max : ℕ) where
  -- A round that begins in `P` goes on in `P`, or ends the loop in `Q`.
  pub record Rounds (P : ℕ → ℕ → Progress K → Type 0) (Q : Outcome K → Type 0) : Type 0 where
    pub good :
        (k b : ℕ) (p : Progress K)
        → P k b p
        → suc k ≤ max
        → (attempt_delivery cb (suc k) (replies (suc k)) p).1 ≡ none
        → Q (handle_delivery_success cb (attempt_delivery cb (suc k) (replies (suc k)) p).0)
    pub last :
        (k b : ℕ) (p : Progress K) (f : Fault)
        → P k b p
        → suc k ≡ max
        → (attempt_delivery cb (suc k) (replies (suc k)) p).1 ≡ some f
        → Q (handle_final_failure cb (suc k) f (attempt_delivery cb (suc k) (replies (suc k)) p).0)
    pub stop :
        (k b : ℕ) (p : Progress K) (f : Fault)
        → P k b p
        → suc k < max
        → cancelled (suc k) ≡ true
        → (attempt_delivery cb (suc k) (replies (suc k)) p).1 ≡ some f
        → Q (
            cancel_wait cb
              (announce_retry cb f (attempt_delivery cb (suc k) (replies (suc k)) p).0))
    pub more :
        (k b : ℕ) (p : Progress K) (f : Fault)
        → P k b p
        → (attempt_delivery cb (suc k) (replies (suc k)) p).1 ≡ some f
        → P (suc k) (next_backoff b) (
            end_wait cb b (announce_retry cb f (attempt_delivery cb (suc k) (replies (suc k)) p).0))

  retry-Rounds :
      (P : ℕ → ℕ → Progress K → Type 0) (Q : Outcome K → Type 0)
      → Rounds P Q
      → (rounds k b : ℕ) (p : Progress K) → 0 < rounds
      → k + rounds ≡ max
      → P k b p
      → Q (retry cb replies cancelled max rounds (suc k) b p)
  unfolding retry
  retry-Rounds P Q v zero k b p h e i = absurd (omega arith)
  retry-Rounds P Q v (suc rounds) k b p h e i =
      let r = attempt_delivery cb (suc k) (replies (suc k)) p in
      elim (Option-cases r.1) [
        | inl fine ↦ rw fine (v.good k b p i (omega arith) fine)
        | inr (f, bad) ↦ elim (Bool-cases (leb max (suc k))) [
          | inl at_last ↦ rw (bad, at_last) (v.last k b p f i (ground arith) bad)
          | inr on ↦ elim (Bool-cases (cancelled (suc k))) [
            | inl halt ↦ rw (bad, on, halt) (v.stop k b p f i (ground arith) halt bad)
            | inr go ↦
                rw (bad, on, go)
                  (retry-Rounds P Q v rounds (suc k) (next_backoff b) _ (ground arith) (omega arith)
                    (v.more k b p f i bad))
          ]
        ]
      ]

  -- The state in which the loop begins.
  abbrev pub first_progress : String → Bool → Map K → Event → StoredSubscription → Progress K
  first_progress uuid has_tracker breakers event sub = record {
    delivery = new_delivery cb uuid max event sub;
    tracked = if has_tracker then some [] else none;
    waits = [];
    breaker = get_circuit_breaker cb breakers sub.callback;
  }

  pub notify_with_retry-Rounds :
      (P : ℕ → ℕ → Progress K → Type 0) (Q : Outcome K → Type 0)
      → Rounds P Q
      → (uuid : String) (has_tracker : Bool) (breakers : Map K) (event : Event)
        (sub : StoredSubscription)
      → 0 < max
      → P 0 initial_backoff (first_progress uuid has_tracker breakers event sub)
      → Q (notify_with_retry cb uuid has_tracker max replies cancelled breakers event sub).0
  unfolding notify_with_retry
  notify_with_retry-Rounds P Q v uuid has_tracker breakers event sub h i =
      retry-Rounds P Q v max 0 initial_backoff (first_progress uuid has_tracker breakers event sub)
        h (omega arith) i
