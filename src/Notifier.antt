-- ===== src/Notifier.antt =====
-- internal/events/notifier.go: the delivery of notifications to webhooks, with its retries. What the
-- HTTP client answers at an attempt (`replies`) and whether the context is cancelled while the code
-- waits after it (`cancelled`) are arguments; the circuit breaker of the library gobreaker is a
-- parameter. Times are left out but for the waits, in milliseconds; a negative count of retries is
-- as zero.
pub mod Matching
pub mod Loop
pub mod Backoff
pub mod Ending
pub mod Statuses
pub mod Processing
mod Tests
use netweave.Common.{
  ℕ, zero, suc, ◌+◌, ◌*◌, String, Bool, true, false, not, ◌&&◌, ◌||◌, Option, none, some, List, [],
  ◌∷◌, ◌++◌, ltb, leb, if◌then◌else◌, Map, lookup, insert, Any,
}
use netweave.Batch.{StoredSubscription}

pub data DeliveryStatus : Type 0 where
  pending delivering delivered failed retrying : DeliveryStatus

-- Why an attempt failed.
pub data Fault : Type 0 where
  unreachable circuit_open : Fault
  bad_status : ℕ → Fault

-- `NotificationDelivery`; `completed` says that CompletedAt is set.
pub record Delivery : Type 0 where
  pub id : String
  pub event_id : String
  pub subscription_id : String
  pub callback_url : String
  pub status : DeliveryStatus
  pub attempts : ℕ
  pub max_attempts : ℕ
  pub last_error : Option Fault
  pub http_status_code : ℕ
  pub completed : Bool

pub record Event : Type 0 where
  pub id : String
  pub event_type : String
  pub resource_id : String
  pub resource_pool_id : String
  pub resource_type_id : String
  pub tenant_id : String
  pub resource : Any
  pub timestamp : ℕ
  pub extensions : Map Any

pub record Notification : Type 0 where
  pub subscription_id : String
  pub consumer_subscription_id : String
  pub event_type : String
  pub resource : Any
  pub timestamp : ℕ
  pub extensions : Map Any

pub build_notification : Event → StoredSubscription → Notification
build_notification event sub = record {
  subscription_id = sub.id;
  consumer_subscription_id = sub.consumer_subscription_id;
  event_type = event.event_type;
  resource = event.resource;
  timestamp = event.timestamp;
  extensions = event.extensions;
}

-- What the HTTP client returns for a POST of the notification.
pub data Answer : Type 0 where
  silent : Answer
  answered : ℕ → Answer

-- `none` for success
pub send_webhook : Answer → Option Fault
send_webhook silent = some unreachable
send_webhook (answered status) =
    if ltb status 200 || leb 300 status then some (bad_status status) else none

-- gobreaker: it admits a call and learns whether it succeeded, or refuses it.
pub record Breaker (K : Type 0) : Type 0 where
  pub fresh : K
  pub admits : K → Bool
  pub after_call : K → Bool → K
  pub after_refusal : K → K

abbrev pub initial_backoff : ℕ
initial_backoff = 1000

abbrev pub max_backoff : ℕ
max_backoff = 60000

abbrev pub backoff_multiplier : ℕ
backoff_multiplier = 2

-- The step at the end of a round.
pub next_backoff : ℕ → ℕ
next_backoff backoff =
    if ltb max_backoff (backoff * backoff_multiplier)
    then max_backoff
    else backoff * backoff_multiplier

pub data NotifyError : Type 0 where
  loop_ended cancelled_error : NotifyError
  gave_up : ℕ → Fault → NotifyError

-- The delivery, the calls of Track in their order (`none` if deliveryTracker is nil), the waits that
-- ended, and the breaker.
pub record Progress (K : Type 0) : Type 0 where
  pub delivery : Delivery
  pub tracked : Option (List Delivery)
  pub waits : List ℕ
  pub breaker : K

-- What a call of NotifyWithRetry that made a delivery leaves.
pub record Outcome (K : Type 0) : Type 0 where
  pub progress : Progress K
  pub error : Option NotifyError

abbrev pub is_none {ℓ} : {A : Type ℓ} → Option A → Bool
is_none none = true
is_none (some x) = false

abbrev pub on_error {ℓ} : {A : Type ℓ} → Option Fault → A → (Fault → A) → A
on_error none good bad = good
on_error (some f) good bad = bad f

pub append_to : Option (List Delivery) → Delivery → Option (List Delivery)
append_to none d = none
append_to (some ds) d = some (ds ++ d ∷ [])

module _ {K : Type 0} (cb : Breaker K) where
  -- The delivery is changed and given to Track, if there is a tracker; an error of Track is only
  -- logged.
  abbrev pub track : (Delivery → Delivery) → Progress K → Progress K
  track change p = record p {
    delivery = change p.delivery;
    tracked = append_to p.tracked (change p.delivery);
  }

  pub execute_with_circuit_breaker : K → Answer → K × Option Fault
  execute_with_circuit_breaker k answer =
      if cb.admits k
      then (cb.after_call k (is_none (send_webhook answer)), send_webhook answer)
      else (cb.after_refusal k, some circuit_open)

  abbrev pub begun : ℕ → Delivery → Delivery
  begun attempt d = record d { attempts = attempt; status = delivering }

  pub attempt_delivery : ℕ → Answer → Progress K → Progress K × Option Fault
  attempt_delivery attempt answer p =
      let r = execute_with_circuit_breaker p.breaker answer in
      (record (track (begun attempt) p) { breaker = r.0 }, r.1)

  pub handle_delivery_success : Progress K → Outcome K
  handle_delivery_success p = record {
    progress =
        track (λ d. record d { status = delivered; http_status_code = 200; completed = true }) p;
    error = none;
  }

  pub handle_final_failure : ℕ → Fault → Progress K → Outcome K
  handle_final_failure attempt f p = record {
    progress = track (λ d. record d { last_error = some f; status = failed; completed = true }) p;
    error = some (gave_up attempt f);
  }

  -- `prepareRetry` up to its wait.
  abbrev pub announce_retry : Fault → Progress K → Progress K
  announce_retry f p = track (λ d. record d { last_error = some f; status = retrying }) p

  -- Its wait, if the context is cancelled before it ends.
  pub cancel_wait : Progress K → Outcome K
  cancel_wait p = record {
    progress = record p { delivery = record p.delivery { status = failed; completed = true } };
    error = some cancelled_error;
  }

  abbrev pub end_wait : ℕ → Progress K → Progress K
  end_wait backoff p = record p { waits = p.waits ++ backoff ∷ [] }

  -- The loop of `NotifyWithRetry` with so many rounds to go.
  unfoldable pub retry : (ℕ → Answer) → (ℕ → Bool) → ℕ → ℕ → ℕ → ℕ → Progress K → Outcome K
  retry replies cancelled max_retries zero attempt backoff p = record {
    progress = p;
    error = some loop_ended;
  }
  retry replies cancelled max_retries (suc rounds) attempt backoff p =
      let r = attempt_delivery attempt (replies attempt) p in
      on_error r.1 (handle_delivery_success r.0) (λ f.
        let rest =
          retry replies cancelled max_retries rounds (suc attempt) (next_backoff backoff)
            (end_wait backoff (announce_retry f r.0)) in
        if leb max_retries attempt
        then handle_final_failure attempt f r.0
        else if cancelled attempt
        then cancel_wait (announce_retry f r.0)
        else rest)

  pub get_circuit_breaker : Map K → String → K
  get_circuit_breaker breakers url = elim (lookup url breakers) [ none ↦ cb.fresh | some k ↦ k ]

  abbrev pub new_delivery : String → ℕ → Event → StoredSubscription → Delivery
  new_delivery uuid max_retries event sub = record {
    id = uuid;
    event_id = event.id;
    subscription_id = sub.id;
    callback_url = sub.callback;
    status = pending;
    attempts = 0;
    max_attempts = max_retries;
    last_error = none;
    http_status_code = 0;
    completed = false;
  }

  -- For an event and a subscription that are not nil. The breakers of the notifier are by callback;
  -- the call leaves its own in the map.
  pub notify_with_retry :
      String
      → Bool
      → ℕ
      → (ℕ → Answer)
      → (ℕ → Bool)
      → Map K
      → Event
      → StoredSubscription
      → Outcome K × Map K
  notify_with_retry uuid has_tracker max_retries replies cancelled breakers event sub =
      let o = retry replies cancelled max_retries max_retries 1 initial_backoff (record {
        delivery = new_delivery uuid max_retries event sub;
        tracked = if has_tracker then some [] else none;
        waits = [];
        breaker = get_circuit_breaker breakers sub.callback;
      }) in
      (o, insert sub.callback o.progress.breaker breakers)
