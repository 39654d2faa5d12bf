-- ===== src/Notifier/Processing.antt =====
-- internal/events/processor.go, processEvent: an event is matched and delivered to each subscription.
use netweave.Common.{
  ℕ, suc, ◌<◌, String, ◌≡◌, refl, subst, Bool, List, [], ◌∷◌, arith, Map, insert, Result, ok, ◌>>=◌,
  >>=-eq-ok,
}
use netweave.Batch.{StoredSubscription}
use netweave.Batch.Subscriptions.{StoreError}
use netweave.Notifier.{
  Answer, Event, Breaker, Progress, Outcome, attempt_delivery, handle_delivery_success,
  handle_final_failure, cancel_wait, get_circuit_breaker, notify_with_retry,
}
use netweave.Notifier.Matching.{Listing, match_subscriptions}
use netweave.Notifier.Loop.{Rounds, notify_with_retry-Rounds}
use netweave.Notifier.Ending.{IsEnd, notify_with_retry-IsEnd}

-- What happens at the delivery with that number: its identifier, the answers, the cancelled waits.
pub record World : Type 0 where
  pub uuid : ℕ → String
  pub replies : ℕ → ℕ → Answer
  pub cancelled : ℕ → ℕ → Bool

module _ {K : Type 0} (cb : Breaker K) (has_tracker : Bool) (max : ℕ) (w : World) where
  -- The loop of `processEvent` from delivery `i`; the errors of deliveries are only logged.
  pub deliver_each : ℕ → Map K → Event → List StoredSubscription → List (Outcome K) × Map K
  deliver_each i breakers event [] = ([], breakers)
  deliver_each i breakers event (sub ∷ subs) =
      let r =
        notify_with_retry cb (w.uuid i) has_tracker max (w.replies i) (w.cancelled i) breakers event
          sub in
      let rest = deliver_each (suc i) r.1 event subs in (r.0 ∷ rest.0, rest.1)

  unfoldable pub process_event :
      Listing → Map K → Event → Result StoreError (List (Outcome K) × Map K)
  process_event store breakers event = do
    subs ← match_subscriptions store event
    ok (deliver_each 0 breakers event subs)

  -- The outcome is that of a delivery of the event to the subscription.
  abbrev pub IsAddressed : Event → StoredSubscription → Outcome K → Type 0
  IsAddressed event sub o =
      (o.progress.delivery.event_id ≡ event.id)
      × (o.progress.delivery.subscription_id ≡ sub.id)
      × (o.progress.delivery.callback_url ≡ sub.callback)

  -- One outcome for each subscription, in their order, from the breakers that the earlier ones left.
  abbrev pub AreDelivered : ℕ → Map K → Event → List StoredSubscription → List (Outcome K) → Type 0
  AreDelivered i breakers event [] [] = Unit
  AreDelivered i breakers event [] (o ∷ os) = ⊥
  AreDelivered i breakers event (sub ∷ subs) [] = ⊥
  AreDelivered i breakers event (sub ∷ subs) (o ∷ os) =
      IsAddressed event sub o
      × IsEnd cb has_tracker (w.replies i) (w.cancelled i) max
          (get_circuit_breaker cb breakers sub.callback) o
      × AreDelivered (suc i) (insert sub.callback o.progress.breaker breakers) event subs os

  abbrev Addressed : Event → StoredSubscription → ℕ → ℕ → Progress K → Type 0
  Addressed event sub k b p =
      (p.delivery.event_id ≡ event.id)
      × (p.delivery.subscription_id ≡ sub.id)
      × (p.delivery.callback_url ≡ sub.callback)

  IsAddressed-Rounds :
      (i : ℕ) (event : Event) (sub : StoredSubscription)
      → Rounds cb (w.replies i) (w.cancelled i) max (Addressed event sub) (IsAddressed event sub)
  unfolding attempt_delivery handle_delivery_success handle_final_failure cancel_wait
  IsAddressed-Rounds i event sub = record {
    good = λ k b p v h e. v;
    last = λ k b p f v h e. v;
    stop = λ k b p f v h c e. v;
    more = λ k b p f v e. v;
  }

  deliver_each-AreDelivered :
      (i : ℕ) (breakers : Map K) (event : Event) (subs : List StoredSubscription)
      → 0 < max
      → AreDelivered i breakers event subs (deliver_each i breakers event subs).0
  unfolding deliver_each notify_with_retry
  deliver_each-AreDelivered i breakers event [] h = tt
  deliver_each-AreDelivered i breakers event (sub ∷ subs) h = (
    notify_with_retry-Rounds cb (w.replies i) (w.cancelled i) max (Addressed event sub)
        (IsAddressed event sub) (IsAddressed-Rounds i event sub) (w.uuid i) has_tracker breakers
        event sub h (refl, refl, refl),
    notify_with_retry-IsEnd cb (w.replies i) (w.cancelled i) max (w.uuid i) has_tracker breakers
        event sub h,
    deliver_each-AreDelivered (suc i) _ event subs h,
  )

  -- With at least one attempt allowed, if process_event succeeds, then match_subscriptions did, and
  -- there is one delivery for each matched subscription, in their order: it is for the event and
  -- the subscription's callback, and it ended delivered, given up or cancelled, whatever became of
  -- the others.
  pub process_event-AreDelivered :
      (store : Listing) (breakers after_all : Map K) (event : Event) (os : List (Outcome K))
      → 0 < max
      → process_event store breakers event ≡ ok (os, after_all)
      → (subs : List StoredSubscription) × (match_subscriptions store event ≡ ok subs)
        × AreDelivered 0 breakers event subs os
  unfolding process_event
  process_event-AreDelivered store breakers after_all event os h e =
      let (subs, m, rest) = >>=-eq-ok (match_subscriptions store event) _ e in
      let same : (deliver_each 0 breakers event subs).0 ≡ os = ground (arith, rest) in
      (
        subs,
        m,
        subst (AreDelivered 0 breakers event subs) same
            (deliver_each-AreDelivered 0 breakers event subs h),
      )
