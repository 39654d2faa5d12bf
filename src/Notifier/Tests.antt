-- ===== src/Notifier/Tests.antt =====
-- Runs of the notifier with a breaker that opens after three failures in a row, and its theorems
-- there.
use netweave.Common.{
  ℕ, zero, suc, ◌+◌, String, ◌≡◌, refl, Bool, true, false, not, Option, none, some, List, [], ◌∷◌,
  ◌++◌, arith, ltb, leb, if◌then◌else◌, map, lookup, insert, Among, ok, err, ◌==◌, Map, Result,
  ◌&&◌,
}
use netweave.Batch.{StoredSubscription}
use netweave.Notifier.{
  Answer, silent, answered, Breaker, Delivery, append_to, Event, retrying, delivering, delivered,
  notify_with_retry, retry, attempt_delivery, execute_with_circuit_breaker, send_webhook,
  handle_delivery_success, next_backoff, get_circuit_breaker, Outcome,
}
use netweave.Batch.Subscriptions.{store_failed}
use netweave.Notifier.Matching.{
  Meets, IsSource, Listing, match_subscriptions, keep_matching, matches_subscription,
  match_subscriptions_exact,
}
use netweave.Notifier.Processing.{
  World, deliver_each, process_event, AreDelivered, process_event-AreDelivered,
}
use netweave.Notifier.Backoff.{IsBounded, notify_with_retry-IsBounded}
use netweave.Notifier.Ending.{IsEnd, notify_with_retry-IsEnd}
use netweave.Notifier.Statuses.{IsPath, notify_with_retry-IsPath}

-- It counts the failures in a row, and once open stays so.
abbrev counting : Breaker ℕ
counting = record {
  fresh = 0;
  admits = λ n. ltb n 3;
  after_call = λ n good. if good then 0 else suc n;
  after_refusal = λ n. n;
}

abbrev moved : Event
moved = record {
  id = "e1";
  event_type = "updated";
  resource_id = "r1";
  resource_pool_id = "p1";
  resource_type_id = "";
  tenant_id = "acme";
  resource = netweave.Common.Any.nil;
  timestamp = 7;
  extensions = [];
}

abbrev smo : StoredSubscription
smo = record {
  id = "s1";
  tenant_id = "";
  callback = "https://smo/notify";
  consumer_subscription_id = "c";
  filter = record { resource_pool_id = ""; resource_type_id = ""; resource_id = "" };
}

-- No answer, then an error, then success.
abbrev replies : ℕ → Answer
replies zero = silent
replies (suc zero) = silent
replies (suc (suc zero)) = answered 503
replies (suc (suc (suc n))) = answered 204

abbrev patient : ℕ → Bool
patient n = false

abbrev called : Option (List Delivery) → List Delivery
called none = []
called (some ds) = ds

third_time :
    map
      (λ d. d.status)
      (called
        (notify_with_retry counting "d1" true 3 replies patient [] moved smo).0.progress.tracked)
    ≡ delivering ∷ retrying ∷ delivering ∷ retrying ∷ delivering ∷ delivered ∷ []
unfolding notify_with_retry retry attempt_delivery append_to execute_with_circuit_breaker
    send_webhook handle_delivery_success next_backoff get_circuit_breaker lookup
third_time = refl

third_time_waits :
    (notify_with_retry counting "d1" true 3 replies patient [] moved smo).0.progress.waits
    ≡ 1000 ∷ 2000 ∷ []
unfolding notify_with_retry retry attempt_delivery append_to execute_with_circuit_breaker
    send_webhook handle_delivery_success next_backoff get_circuit_breaker lookup
third_time_waits = refl

notify_with_retry-IsBounded_example :
    IsBounded 3 (notify_with_retry counting "d1" true 3 replies patient [] moved smo).0
notify_with_retry-IsBounded_example =
    notify_with_retry-IsBounded counting replies patient 3 "d1" true [] moved smo (omega arith)

notify_with_retry-IsEnd_example :
    IsEnd counting true replies patient 3
      (get_circuit_breaker counting [] smo.callback)
      (notify_with_retry counting "d1" true 3 replies patient [] moved smo).0
notify_with_retry-IsEnd_example =
    notify_with_retry-IsEnd counting replies patient 3 "d1" true [] moved smo (omega arith)

notify_with_retry-IsPath_example :
    IsPath true (notify_with_retry counting "d1" true 3 replies patient [] moved smo).0
notify_with_retry-IsPath_example =
    notify_with_retry-IsPath counting replies patient 3 "d1" true [] moved smo (omega arith)

abbrev other_tenant : StoredSubscription
other_tenant = record smo { id = "s2"; tenant_id = "rival" }

abbrev ours : StoredSubscription
ours = record smo { tenant_id = "acme" }

abbrev listing : Listing
listing = record {
  everything = ok (ours ∷ other_tenant ∷ []);
  of_tenant = λ t. ok (if t == "acme" then ours ∷ [] else []);
}

matched_run : match_subscriptions listing moved ≡ ok (ours ∷ [])
unfolding match_subscriptions keep_matching matches_subscription
matched_run = refl

match_subscriptions_exact_example :
    (candidates : List StoredSubscription) × IsSource listing moved candidates
    × ((sub : StoredSubscription)
        → (Among sub (ours ∷ []) → Among sub candidates × Meets moved sub)
          × (Among sub candidates → Meets moved sub → Among sub (ours ∷ [])))
match_subscriptions_exact_example = match_subscriptions_exact listing moved (ours ∷ []) matched_run

-- Without the tenant's list both get the event.
abbrev broken : Listing
broken = record listing { of_tenant = λ t. err store_failed }

broken_run : match_subscriptions broken moved ≡ ok (ours ∷ other_tenant ∷ [])
unfolding match_subscriptions keep_matching matches_subscription
broken_run = refl

abbrev world : World
world = record { uuid = λ i. "d"; replies = λ i. replies; cancelled = λ i. patient }

abbrev two_outcomes : List (Outcome ℕ)
two_outcomes = (deliver_each counting true 3 world 0 [] moved (ours ∷ other_tenant ∷ [])).0

abbrev left_over : Map ℕ
left_over = (deliver_each counting true 3 world 0 [] moved (ours ∷ other_tenant ∷ [])).1

process_run : process_event counting true 3 world broken [] moved ≡ ok (two_outcomes, left_over)
unfolding process_event match_subscriptions keep_matching matches_subscription
process_run = refl

process_event-AreDelivered_example :
    (subs : List StoredSubscription) × (match_subscriptions broken moved ≡ ok subs)
    × AreDelivered counting true 3 world 0 [] moved subs two_outcomes
process_event-AreDelivered_example =
    process_event-AreDelivered counting true 3 world broken [] left_over moved two_outcomes
      (omega arith) process_run
