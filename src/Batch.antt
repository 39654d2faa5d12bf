-- ===== src/Batch.antt =====
-- internal/handlers/batch.go: the core of the batch handler, executeBatch and what it calls. The
-- backend is any state `S` that the operations act on. The goroutines of the worker pool appear as
-- the order in which they take effect, one turn each; a turn also says whether the goroutine saw the
-- context cancelled. The messages of the error responses and the metrics are left out.
pub mod Counts
pub mod Response
pub mod Rollback
pub mod Subscriptions
pub mod Atomicity
mod Tests
use netweave.Common.{
  ℕ, zero, suc, ◌+◌, String, Bool, true, false, not, ◌&&◌, ◌||◌, Option, none, some, List, [], ◌∷◌,
  map, length, if◌then◌else◌, ltb, eqb, ◌==◌,
}

abbrev pub min_batch_size : ℕ
min_batch_size = 1

abbrev pub max_batch_size : ℕ
max_batch_size = 100

-- models.Subscription; times are left out.
pub record Filter : Type 0 where
  pub resource_pool_id : List String
  pub resource_type_id : List String
  pub resource_id : List String

pub record Subscription : Type 0 where
  pub subscription_id : String
  pub callback : String
  pub consumer_subscription_id : String
  pub filter : Filter

-- storage.Subscription
pub record StoredFilter : Type 0 where
  pub resource_pool_id : String
  pub resource_type_id : String
  pub resource_id : String

pub record StoredSubscription : Type 0 where
  pub id : String
  pub tenant_id : String
  pub callback : String
  pub consumer_subscription_id : String
  pub filter : StoredFilter

-- The response data of the operations.
pub data Payload : Type 0 where
  created : Subscription → Payload
  updated : StoredSubscription → Payload

pub record ErrorResponse : Type 0 where
  pub error : String
  pub code : ℕ

-- `data_value` is the response data of the operation.
pub record BatchResult : Type 0 where
  pub index : ℕ
  pub status : ℕ
  pub success : Bool
  pub data_value : Option Payload
  pub error : Option ErrorResponse

pub record BatchResponse : Type 0 where
  pub results : List BatchResult
  pub success : Bool
  pub success_count : ℕ
  pub failure_count : ℕ

pub record BatchConfig : Type 0 where
  pub atomic : Bool
  pub item_count : ℕ
  pub use_worker_pool : Bool

-- What the client gets: an error or a batch response, with its status.
pub data Reply : Type 0 where
  refused : ℕ → ErrorResponse → Reply
  replied : ℕ → BatchResponse → Reply

pub validate_batch_size : ℕ → Bool
validate_batch_size size = not (ltb size min_batch_size || ltb max_batch_size size)

pub determine_status_code : ℕ → ℕ → ℕ
determine_status_code success_count failure_count =
    if ltb 0 failure_count && eqb success_count 0
    then 400
    else if ltb 0 failure_count
    then 207
    else 200

-- results[i] = x
pub set_at {ℓ} : {A : Type ℓ} → ℕ → A → List A → List A
set_at i x [] = []
set_at zero x (y ∷ ys) = x ∷ ys
set_at (suc i) x (y ∷ ys) = y ∷ set_at i x ys

-- make([]T, n)
pub make {ℓ} : {A : Type ℓ} → ℕ → A → List A
make zero x = []
make (suc n) x = x ∷ make n x

-- The texts that are not empty.
pub non_empty : List String → List String
non_empty [] = []
non_empty (id ∷ ids) = let rest = non_empty ids in if id == "" then rest else id ∷ rest

pub record Turn : Type 0 where
  pub idx : ℕ
  pub cancelled : Bool

-- The zero value of a result.
abbrev pub no_result : BatchResult
no_result = record { index = 0; status = 0; success = false; data_value = none; error = none }

abbrev pub cancelled_result : ℕ → BatchResult
cancelled_result i = record {
  index = i;
  status = 408;
  success = false;
  data_value = none;
  error = some (record { error = "RequestCanceled"; code = 408 });
}

-- What an operation leaves: its result, the identifier it created, and the backend.
pub record Effect (S : Type 0) : Type 0 where
  pub result : BatchResult
  pub created_id : String
  pub backend : S

-- The variables of the loops.
pub record Progress (S : Type 0) : Type 0 where
  pub backend : S
  pub results : List BatchResult
  pub success_count : ℕ
  pub failure_count : ℕ
  pub created_ids : List String

-- The loop of `executeSequentially` if the context is cancelled.
pub cancel_each : ℕ → ℕ → List BatchResult → List BatchResult
cancel_each i zero results = results
cancel_each i (suc n) results = cancel_each (suc i) n (set_at i (cancelled_result i) results)

abbrev any : List String → Bool
any [] = false
any (x ∷ xs) = true

abbrev pub rolled_back : BatchResult → BatchResult
rolled_back r =
    if r.success
    then record r {
      status = 409;
      success = false;
      data_value = none;
      error = some (record { error = "RolledBack"; code = 409 });
    }
    else r

module _ {S : Type 0} where
  -- results[idx] = result, with its index, and the counters
  abbrev pub record_result : ℕ → Effect S → Progress S → Progress S
  record_result i e p = record p {
    backend = e.backend;
    results = set_at i (record e.result { index = i }) p.results;
    success_count = if e.result.success then suc p.success_count else p.success_count;
    failure_count = if e.result.success then p.failure_count else suc p.failure_count;
  }

  abbrev pub record_created : ℕ → Effect S → Progress S → Progress S
  record_created i e p = record p {
    created_ids =
        if e.result.success && not (e.created_id == "")
        then set_at i e.created_id p.created_ids
        else p.created_ids;
  }

  abbrev pub record_cancelled : ℕ → Progress S → Progress S
  record_cancelled i p = record p {
    results = set_at i (cancelled_result i) p.results;
    failure_count = suc p.failure_count;
  }

  -- A goroutine of the worker pool.
  pub take_turn : (ℕ → S → Effect S) → Turn → Progress S → Progress S
  take_turn operation t p =
      let e = operation t.idx p.backend in
      if t.cancelled
      then record_cancelled t.idx p
      else record_created t.idx e (record_result t.idx e p)

  pub take_turns : (ℕ → S → Effect S) → List Turn → Progress S → Progress S
  take_turns operation [] p = p
  take_turns operation (t ∷ ts) p = take_turns operation ts (take_turn operation t p)

  abbrev pub start : ℕ → S → Progress S
  start count s = record {
    backend = s;
    results = make count no_result;
    success_count = 0;
    failure_count = 0;
    created_ids = make count "";
  }

  pub execute_with_worker_pool : List Turn → ℕ → (ℕ → S → Effect S) → S → Progress S
  execute_with_worker_pool turns count operation s =
      let p = take_turns operation turns (start count s) in
      record p { created_ids = non_empty p.created_ids }

  -- The loop of `executeSequentially` from item `i`, with `n` items to go.
  pub each : (ℕ → S → Effect S) → ℕ → ℕ → Progress S → Progress S
  each operation i zero p = p
  each operation i (suc n) p = each operation (suc i) n (record_result i (operation i p.backend) p)

  pub execute_sequentially : Bool → ℕ → (ℕ → S → Effect S) → S → Progress S
  execute_sequentially cancelled count operation s =
      let p = record (start count s) { created_ids = [] } in
      let done = each operation 0 count p in
      if cancelled
      then record p { results = cancel_each 0 count p.results; failure_count = count }
      else done

  pub execute_operations : List Turn → Bool → BatchConfig → (ℕ → S → Effect S) → S → Progress S
  execute_operations turns cancelled config operation s =
      if config.use_worker_pool
      then execute_with_worker_pool turns config.item_count operation s
      else execute_sequentially cancelled config.item_count operation s

  abbrev given : Option (List String → S → S) → Bool
  given none = false
  given (some f) = true

  pub should_rollback : Bool → ℕ → List String → Option (List String → S → S) → Bool
  should_rollback atomic failure_count created_ids rollback =
      atomic && ltb 0 failure_count && any created_ids && given rollback

  abbrev call_back : Option (List String → S → S) → List String → S → S
  call_back none ids s = s
  call_back (some f) ids s = f ids s

  -- The counters are those that `executeBatch` sets after the rollback.
  pub perform_rollback : Option (List String → S → S) → Progress S → Progress S
  perform_rollback rollback p = record p {
    backend = call_back rollback p.created_ids p.backend;
    results = map rolled_back p.results;
    success_count = 0;
    failure_count = length p.results;
  }

  pub send_batch_response : Progress S → Reply
  send_batch_response p = replied (determine_status_code p.success_count p.failure_count) (record {
    results = p.results;
    success = eqb p.failure_count 0;
    success_count = p.success_count;
    failure_count = p.failure_count;
  })

  pub execute_batch :
      List Turn
      → Bool
      → BatchConfig
      → (ℕ → S → Effect S)
      → Option (List String → S → S)
      → S
      → Reply × S
  execute_batch turns cancelled config operation rollback s =
      let p = execute_operations turns cancelled config operation s in
      let q =
        if should_rollback config.atomic p.failure_count p.created_ids rollback
        then perform_rollback rollback p
        else p in
      if validate_batch_size config.item_count
      then (send_batch_response q, q.backend)
      else (refused 400 (record { error = "BadRequest"; code = 400 }), s)
