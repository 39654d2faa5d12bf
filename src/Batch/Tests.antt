-- ===== src/Batch/Tests.antt =====
-- Runs of the batch handler over a store in memory, and its theorems at concrete batches.
use netweave.Common.{
  ℕ, String, ◌≡◌, refl, Bool, true, false, Option, none, some, List, [], ◌∷◌, arith, if◌then◌else◌,
  Map, lookup, insert, erase, Result, ok, err,
}
use netweave.Batch.{
  Filter, Subscription, StoredSubscription, BatchConfig, Turn, execute_batch, execute_operations,
  execute_with_worker_pool, take_turns, take_turn, set_at, make, non_empty, should_rollback,
  perform_rollback, send_batch_response, validate_batch_size,
}
use netweave.Batch.Counts.{IsSchedule}
use netweave.Batch.Response.{IsTrue, execute_batch-IsTrue}
use netweave.Batch.Subscriptions.{
  Store, StoreError, store_failed, subscription_exists, subscription_not_found, delete_subscription,
  batch_create_subscriptions, create_single_subscription, stored_new, rollback_subscriptions,
}
use netweave.Batch.Atomicity.{looked_up}

abbrev Memory : Type 0
Memory = Map StoredSubscription

abbrev free_at : Option StoredSubscription → Bool
free_at none = true
free_at (some x) = false

abbrev memory_create : StoredSubscription → Memory → Result StoreError (StoredSubscription × Memory)
memory_create sub m =
    if free_at (lookup sub.id m) then ok (sub, insert sub.id sub m) else err subscription_exists

abbrev held : Option StoredSubscription → Result StoreError StoredSubscription
held none = err subscription_not_found
held (some x) = ok x

abbrev memory_delete : Bool → String → Memory → Result StoreError Memory
memory_delete ctx id m =
    if ctx
    then err store_failed
    else if free_at (lookup id m)
    then err subscription_not_found
    else ok (erase id m)

abbrev memory_update : StoredSubscription → Memory → Result StoreError Memory
memory_update sub m =
    if free_at (lookup sub.id m) then err subscription_not_found else ok (insert sub.id sub m)

abbrev memory : Store Memory
memory = record {
  create_in = memory_create;
  get_from = λ id m. held (lookup id m);
  update_in = memory_update;
  delete_in = memory_delete;
}

abbrev anything : Filter
anything = record { resource_pool_id = []; resource_type_id = []; resource_id = [] }

abbrev wanted : Subscription
wanted = record {
  subscription_id = "";
  callback = "https://smo/notify";
  consumer_subscription_id = "c";
  filter = anything;
}

abbrev two_turns : List Turn
two_turns = record { idx = 1; cancelled = false } ∷ record { idx = 0; cancelled = false } ∷ []

two_turns-IsSchedule : IsSchedule 2 two_turns
two_turns-IsSchedule =
    (omega arith, (omega arith, (omega arith, tt)), ((λ e. omega arith, tt), (tt, tt)))

abbrev in_time : ℕ → Bool
in_time n = false

-- With a cancelled context the rollback leaves the subscription in the store.
left_over :
    looked_up memory "s"
      (batch_create_subscriptions memory
        (λ u. true)
        (λ i. "s")
        (λ n. true)
        two_turns
        false
        true
        (wanted ∷ wanted ∷ [])
        []).1
    ≡ some (stored_new memory "s" wanted)
unfolding batch_create_subscriptions execute_batch execute_operations execute_with_worker_pool
    take_turns take_turn set_at make non_empty should_rollback perform_rollback send_batch_response
    create_single_subscription lookup insert validate_batch_size rollback_subscriptions
left_over = refl

abbrev deletion : BatchConfig
deletion = record { atomic = true; item_count = 2; use_worker_pool = true }

execute_batch-IsTrue_example :
    IsTrue 2
      (execute_batch two_turns false deletion (λ i. delete_subscription memory false "s") none []).0
execute_batch-IsTrue_example =
    execute_batch-IsTrue two_turns false deletion (λ i. delete_subscription memory false "s") none
      [] two_turns-IsSchedule
