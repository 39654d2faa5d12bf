-- ===== src/Notifier/Statuses.antt =====
-- internal/events/notifier.go, NotifyWithRetry: the diagram of the delivery's status.
use netweave.Common.{
  arith, ℕ, suc, ◌<◌, String, ◌≡◌, ◌≢◌, refl, sym, ap, subst, Bool, true, false, Option, none, some,
  List, [], ◌∷◌, ◌++◌, if◌then◌else◌, Map,
}
use netweave.Batch.{StoredSubscription}
use netweave.Notifier.Loop.{Rounds, notify_with_retry-Rounds}
use netweave.Notifier.{
  Answer, Event, Breaker, Delivery, DeliveryStatus, pending, delivering, delivered, failed,
  retrying, Progress, Outcome, attempt_delivery, handle_delivery_success, handle_final_failure,
  cancel_wait, append_to, NotifyError, gave_up, cancelled_error, loop_ended, notify_with_retry,
}

infix 40 ◌⟶◌
pub data ◌⟶◌ : DeliveryStatus → DeliveryStatus → Type 0 where
  begin : pending ⟶ delivering
  succeed : delivering ⟶ delivered
  fail : delivering ⟶ failed
  postpone : delivering ⟶ retrying
  again : retrying ⟶ delivering

-- The list of tracked deliveries is a path in the diagram.
abbrev pub Follows : DeliveryStatus → List Delivery → DeliveryStatus → Type 0
Follows s [] t = s ≡ t
Follows s (d ∷ ds) t = (s ⟶ d.status) × Follows d.status ds t

Follows-append :
    (s t : DeliveryStatus) (ds : List Delivery) (d : Delivery)
    → Follows s ds t
    → t ⟶ d.status
    → Follows s (ds ++ d ∷ []) d.status
Follows-append s t [] d h e = (subst (λ x. x ⟶ d.status) (sym h) e, refl)
Follows-append s t (c ∷ ds) d (h, hs) e = (h, Follows-append c.status t ds d hs e)

-- A delivery at rest can be begun.
AtRest : DeliveryStatus → Type 0
AtRest s = s ⟶ delivering

-- The calls of Track, if there is a tracker, are a path from pending to this status.
abbrev pub AreTracked : Bool → Option (List Delivery) → DeliveryStatus → Type 0
AreTracked false calls s = calls ≡ none
AreTracked true calls s = (ds : List Delivery) × (calls ≡ some ds) × Follows pending ds s

first_calls :
    (has_tracker : Bool) → AreTracked has_tracker (if has_tracker then some [] else none) pending
first_calls false = refl
first_calls true = ([], refl, refl)

AreTracked-append_to :
    (has_tracker : Bool) (calls : Option (List Delivery)) (s : DeliveryStatus) (d : Delivery)
    → AreTracked has_tracker calls s
    → s ⟶ d.status
    → AreTracked has_tracker (append_to calls d) d.status
unfolding append_to
AreTracked-append_to false calls s d h e = ap (λ x. append_to x d) h
AreTracked-append_to true calls s d (ds, same, h) e =
    (ds ++ d ∷ [], ap (λ x. append_to x d) same, Follows-append pending s ds d h e)

-- The last status that Track is given, as the error tells it.
abbrev pub last_status : Option NotifyError → DeliveryStatus
last_status none = delivered
last_status (some (gave_up n f)) = failed
last_status (some cancelled_error) = retrying
last_status (some loop_ended) = retrying

-- The loop does not run to its end, and from pending the tracked statuses follow the diagram to the
-- end that the error tells: delivered, failed, or retrying if the wait was cancelled.
abbrev pub IsPath : {K : Type 0} → Bool → Outcome K → Type 0
IsPath has_tracker o =
    (o.error ≢ some loop_ended) × AreTracked has_tracker o.progress.tracked (last_status o.error)

module _ {K : Type 0} (cb : Breaker K) (has_tracker : Bool) (replies : ℕ → Answer)
    (cancelled : ℕ → Bool) (max : ℕ) where
  abbrev Ready : ℕ → ℕ → Progress K → Type 0
  Ready k b p = AreTracked has_tracker p.tracked p.delivery.status × AtRest p.delivery.status

  begun_once :
      (k : ℕ) (p : Progress K)
      → AreTracked has_tracker p.tracked p.delivery.status × AtRest p.delivery.status
      → AreTracked has_tracker (attempt_delivery cb k (replies k) p).0.tracked delivering
  unfolding attempt_delivery AtRest
  begun_once k p (h, e) = AreTracked-append_to has_tracker p.tracked p.delivery.status _ h e

  IsPath-Rounds : Rounds cb replies cancelled max Ready (IsPath has_tracker)
  unfolding attempt_delivery handle_delivery_success handle_final_failure cancel_wait AtRest
  IsPath-Rounds = record {
    good = λ k b p i h e. (
      (λ x. absurd (ground (arith, x))),
      AreTracked-append_to has_tracker _ delivering _ (begun_once (suc k) p i) succeed,
    );
    last = λ k b p f i h e. (
      (λ x. absurd (ground (arith, x))),
      AreTracked-append_to has_tracker _ delivering _ (begun_once (suc k) p i) fail,
    );
    stop = λ k b p f i h c e. (
      (λ x. absurd (ground (arith, x))),
      AreTracked-append_to has_tracker _ delivering _ (begun_once (suc k) p i) postpone,
    );
    more = λ k b p f i e.
        (AreTracked-append_to has_tracker _ delivering _ (begun_once (suc k) p i) postpone, again);
  }

-- With at least one attempt allowed and a tracker, the statuses that notify_with_retry tracks are a
-- path in the diagram: from pending or retrying to delivering, and from there to delivered, failed
-- or retrying. It begins in pending; it ends in delivered if there is no error, in failed if the
-- delivery was given up, and in retrying if the wait was cancelled, and there is no other error.
-- Without a tracker nothing is tracked.
pub notify_with_retry-IsPath :
    {K : Type 0} (cb : Breaker K) (replies : ℕ → Answer) (cancelled : ℕ → Bool) (max : ℕ)
    (uuid : String) (has_tracker : Bool) (breakers : Map K) (event : Event)
    (sub : StoredSubscription)
    → 0 < max
    → IsPath has_tracker
        (notify_with_retry cb uuid has_tracker max replies cancelled breakers event sub).0
unfolding AtRest
notify_with_retry-IsPath cb replies cancelled max uuid has_tracker breakers event sub h =
    notify_with_retry-Rounds cb replies cancelled max (Ready cb has_tracker replies cancelled max)
      (IsPath has_tracker) (IsPath-Rounds cb has_tracker replies cancelled max) uuid has_tracker
      breakers event sub h (first_calls has_tracker, begin)
