-- ===== src/Batch/Subscriptions.antt =====
-- internal/handlers/batch.go: batch creation, update and deletion of subscriptions. The store behind
-- `storage.Store` is a parameter, and so are `url.ParseRequestURI` (`is_uri`) and the identifiers
-- that `uuid.New` makes for the items (`uuid`).
use netweave.Common.{
  ℕ, zero, suc, String, Bool, true, false, not, Option, none, some, List, [], ◌∷◌, length, map,
  if◌then◌else◌, Result, ok, err, ◌==◌,
}
use netweave.Batch.{
  Filter, Subscription, StoredFilter, StoredSubscription, created, updated, BatchResult, Reply,
  replied, Turn, Effect, no_result, execute_batch,
}

pub data StoreError : Type 0 where
  subscription_exists subscription_not_found store_failed : StoreError

-- storage.Store, as far as the batch handler calls it. A failed call leaves the store as it was;
-- `create` also gives the subscription back, which it may complete; `delete_in` is told whether its
-- context is cancelled, since the rollback uses the context of the request.
pub record Store (S : Type 0) : Type 0 where
  pub create_in : StoredSubscription → S → Result StoreError (StoredSubscription × S)
  pub get_from : String → S → Result StoreError StoredSubscription
  pub update_in : StoredSubscription → S → Result StoreError S
  pub delete_in : Bool → String → S → Result StoreError S

abbrev pub failed_result : ℕ → String → BatchResult
failed_result status error = record no_result {
  status = status;
  error = some (record { error = error; code = status });
}

abbrev first_of : List String → String → String
first_of [] old = old
first_of (x ∷ xs) old = x

pub apply_subscription_filter_updates : StoredFilter → Filter → StoredFilter
apply_subscription_filter_updates existing update = record {
  resource_pool_id = first_of update.resource_pool_id existing.resource_pool_id;
  resource_type_id = first_of update.resource_type_id existing.resource_type_id;
  resource_id = first_of update.resource_id existing.resource_id;
}

abbrev text_or : String → String → String
text_or new old = if new == "" then old else new

pub apply_subscription_updates : StoredSubscription → Subscription → StoredSubscription
apply_subscription_updates existing update = record existing {
  callback = text_or update.callback existing.callback;
  consumer_subscription_id =
      text_or update.consumer_subscription_id existing.consumer_subscription_id;
  filter = apply_subscription_filter_updates existing.filter update.filter;
}

-- The result of an item of an atomic batch that was not begun, and those of all items from `i`.
abbrev pub atomic_failure : ℕ → BatchResult
atomic_failure i = record (failed_result 409 "AtomicFailure") { index = i }

pub atomic_failures : ℕ → ℕ → List BatchResult
atomic_failures i zero = []
atomic_failures i (suc n) = atomic_failure i ∷ atomic_failures (suc i) n

pub send_atomic_validation_failure : ℕ → Reply
send_atomic_validation_failure count = replied 400 (record {
  results = atomic_failures 0 count;
  success = false;
  success_count = 0;
  failure_count = count;
})

-- items[i]; the handler asks for no other place.
abbrev pub item_at {ℓ} : {A : Type ℓ} → ℕ → List A → Option A
item_at i [] = none
item_at zero (x ∷ xs) = some x
item_at (suc i) (x ∷ xs) = item_at i xs

module _ {S : Type 0} (store : Store S) where
  abbrev pub unchanged : BatchResult → S → Effect S
  unchanged r s = record { result = r; created_id = ""; backend = s }

  abbrev pub stored_new : String → Subscription → StoredSubscription
  stored_new id sub = record {
    id = id;
    tenant_id = "";
    callback = sub.callback;
    consumer_subscription_id = sub.consumer_subscription_id;
    filter =
        apply_subscription_filter_updates
          (record { resource_pool_id = ""; resource_type_id = ""; resource_id = "" }) sub.filter;
  }

  abbrev pub created_effect :
      String → Subscription → S → Result StoreError (StoredSubscription × S) → Effect S
  created_effect id sub s (err e) = unchanged (failed_result 500 "InternalError") s
  created_effect id sub s (ok (kept, t)) = record {
    result = record no_result {
      status = 201;
      success = true;
      data_value = some (
          created (record {
            subscription_id = id;
            callback = kept.callback;
            consumer_subscription_id = kept.consumer_subscription_id;
            filter = sub.filter;
          }));
    };
    created_id = id;
    backend = t;
  }

  -- With the identifier that `executeSubscriptionCreate` reads from the result.
  unfoldable pub create_single_subscription : (String → Bool) → String → Subscription → S → Effect S
  create_single_subscription is_uri id sub s =
      if sub.callback == ""
      then unchanged (failed_result 400 "BadRequest") s
      else if not (is_uri sub.callback)
      then unchanged (failed_result 400 "BadRequest") s
      else created_effect id sub s (store.create_in (stored_new id sub) s)

  pub delete_subscription : Bool → String → S → Effect S
  delete_subscription ctx id s = elim (store.delete_in ctx id s) [
    | err e ↦ unchanged (failed_result 404 "NotFound") s
    | ok t ↦ unchanged (record no_result { status = 204; success = true }) t
  ]

  abbrev updated_effect : StoredSubscription → S → Result StoreError S → Effect S
  updated_effect changed s (err e) = unchanged (failed_result 500 "InternalError") s
  updated_effect changed s (ok t) =
      unchanged
        (record no_result { status = 200; success = true; data_value = some (updated changed) }) t

  pub update_single_subscription : String → Subscription → S → Effect S
  update_single_subscription id update s = elim (store.get_from id s) [
    | err e ↦ unchanged (failed_result 404 "NotFound") s
    | ok existing ↦
        let changed = apply_subscription_updates existing update in
        updated_effect changed s (store.update_in changed s)
  ]

  abbrev pub or_same : S → Result StoreError S → S
  or_same s (ok t) = t
  or_same s (err e) = s

  -- From the call of Delete with number `n`; `ctx` says whether the context is cancelled at a call.
  -- The count of the failures, which is only logged, is left out.
  unfoldable pub rollback_subscriptions : (ℕ → Bool) → ℕ → List String → S → S
  rollback_subscriptions ctx n [] s = s
  rollback_subscriptions ctx n (id ∷ ids) s =
      rollback_subscriptions ctx (suc n) ids (or_same s (store.delete_in (ctx n) id s))

  abbrev is_ok : Result StoreError StoredSubscription → Bool
  is_ok (ok x) = true
  is_ok (err e) = false

  pub validate_subscriptions_exist : List String → S → Bool
  validate_subscriptions_exist [] s = true
  validate_subscriptions_exist (id ∷ ids) s =
      let rest = validate_subscriptions_exist ids s in
      if is_ok (store.get_from id s) then rest else false

  abbrev at_item {ℓ} : {A : Type ℓ} → (A → S → Effect S) → Option A → S → Effect S
  at_item f none s = unchanged no_result s
  at_item f (some x) s = f x s

  abbrev pub create_item : (String → Bool) → (ℕ → String) → List Subscription → ℕ → S → Effect S
  create_item is_uri uuid subs i s =
      at_item (create_single_subscription is_uri (uuid i)) (item_at i subs) s

  unfoldable pub batch_create_subscriptions :
      (String → Bool)
      → (ℕ → String)
      → (ℕ → Bool)
      → List Turn
      → Bool
      → Bool
      → List Subscription
      → S
      → Reply × S
  batch_create_subscriptions is_uri uuid ctx turns cancelled atomic subs s =
      execute_batch turns cancelled
        (record { atomic = atomic; item_count = length subs; use_worker_pool = true })
        (create_item is_uri uuid subs) (some (rollback_subscriptions ctx 0)) s

  pub batch_delete_subscriptions :
      (ℕ → Bool) → List Turn → Bool → Bool → List String → S → Reply × S
  batch_delete_subscriptions ctx turns cancelled atomic ids s =
      let run =
        execute_batch turns cancelled
          (record { atomic = atomic; item_count = length ids; use_worker_pool = false })
          (λ i. at_item (delete_subscription (ctx i)) (item_at i ids)) none s in
      if atomic
      then if validate_subscriptions_exist ids s
        then run
        else (send_atomic_validation_failure (length ids), s)
      else run

  -- An item is the identifier and the update.
  pub batch_update_subscriptions :
      List Turn → Bool → Bool → List (String × Subscription) → S → Reply × S
  batch_update_subscriptions turns cancelled atomic items s =
      let run =
        execute_batch turns cancelled
          (record { atomic = atomic; item_count = length items; use_worker_pool = true })
          (λ i. at_item (λ item. update_single_subscription item.0 item.1) (item_at i items)) none
          s in
      if atomic
      then if validate_subscriptions_exist (map (λ item. item.0) items) s
        then run
        else (send_atomic_validation_failure (length items), s)
      else run
