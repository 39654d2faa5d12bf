-- ===== src/Batch/Response.antt =====
-- internal/handlers/batch.go, executeBatch: what the reply says, and what the atomic flag changes.
use netweave.Common.{
  ℕ, suc, ◌+◌, ◌≤◌, ◌<◌, String, ◌≡◌, refl, sym, ap, ◌∙◌, ◌⊎◌, inl, inr, Bool, true, false, Option,
  none, List, [], ◌∷◌, map, arith, length, if◌then◌else◌, Bool-cases,
}
use netweave.Batch.{
  BatchResult, BatchConfig, Reply, refused, replied, Turn, Effect, Progress, validate_batch_size,
  determine_status_code, rolled_back, should_rollback, perform_rollback, send_batch_response,
  execute_operations, execute_batch,
}
use netweave.Batch.Counts.{successes, IsSchedule, IsTally, execute_operations-IsTally}

successes-rolled_back :
    (rs : List BatchResult)
    → (successes (map rolled_back rs) ≡ 0) × (length (map rolled_back rs) ≡ length rs)
unfolding successes
successes-rolled_back [] = (refl, refl)
successes-rolled_back (r ∷ rs) =
    let (h, l) = successes-rolled_back rs in
    elim (Bool-cases r.success) [
      | inl b ↦ (ground (arith, h), ap suc l)
      | inr b ↦ (ground (arith, h), ap suc l)
    ]

-- What a reply to a batch of so many items says is true of its results.
abbrev pub IsTrue : ℕ → Reply → Type 0
IsTrue count (refused status e) = ((count < 1) ⊎ (100 < count)) × (status ≡ 400)
IsTrue count (replied status resp) =
    ((1 ≤ count) × (count ≤ 100))
    × (length resp.results ≡ count)
    × (resp.success_count ≡ successes resp.results)
    × (resp.success_count + resp.failure_count ≡ count)
    × (resp.failure_count ≡ 0 → (status ≡ 200) × (resp.success ≡ true))
    × (resp.success_count ≡ 0 → (status ≡ 400) × (resp.success ≡ false))
    × (1 ≤ resp.success_count → 1 ≤ resp.failure_count → (status ≡ 207) × (resp.success ≡ false))

module _ {S : Type 0} where
  perform_rollback-IsTally :
      (rollback : Option (List String → S → S)) (count : ℕ) (p : Progress S)
      → IsTally count p
      → IsTally count (perform_rollback rollback p)
  unfolding perform_rollback
  perform_rollback-IsTally rollback count p (l, h, k) =
      let (none_left, same) = successes-rolled_back p.results in
      (same ∙ l, sym none_left, omega (arith, l))

  send_batch_response-IsTrue :
      (count : ℕ) (p : Progress S)
      → (1 ≤ count) × (count ≤ 100)
      → IsTally count p
      → IsTrue count (send_batch_response p)
  unfolding send_batch_response determine_status_code
  send_batch_response-IsTrue count p (c, m) (l, h, k) =
      ((c, m), l, h, k, λ e. ground arith, λ e. ground arith, λ e f. ground arith)

  -- Under a schedule in which each item has one turn, executeBatch refuses a batch that does not
  -- have 1 to 100 items, with status 400, and no other. For the others the reply has one result for each item, its
  -- success count is the number of results that are successes, also after a rollback, and both
  -- counts add up to the number of items; the status is 200 if nothing failed, 400 if nothing
  -- succeeded and 207 otherwise, and only in the first case the reply is a success.
  pub execute_batch-IsTrue :
      (turns : List Turn) (cancelled : Bool) (config : BatchConfig) (operation : ℕ → S → Effect S)
      (rollback : Option (List String → S → S)) (s : S)
      → IsSchedule config.item_count turns
      → IsTrue config.item_count (execute_batch turns cancelled config operation rollback s).0
  unfolding execute_batch validate_batch_size
  execute_batch-IsTrue turns cancelled config operation rollback s v =
      let p = execute_operations turns cancelled config operation s in
      let t = execute_operations-IsTally turns cancelled config operation s v in
      elim (Bool-cases (validate_batch_size config.item_count)) [
        | inr b ↦ rw (b, execute_batch) (ground arith, refl)
        | inl b ↦
            elim (Bool-cases
              (should_rollback config.atomic p.failure_count p.created_ids rollback)) [
                | inl r ↦
                    rw (b, r, execute_batch)
                      (send_batch_response-IsTrue config.item_count (perform_rollback rollback p)
                        (ground arith, ground arith)
                        (perform_rollback-IsTally rollback config.item_count p t))
                | inr r ↦
                    rw (b, r, execute_batch)
                      (send_batch_response-IsTrue config.item_count p (ground arith, ground arith)
                        t)
              ]
      ]

  -- Without a rollback function the atomic flag makes no difference to executeBatch, neither to its
  -- reply nor to what it leaves in the backend. The batch updates and deletes are called so.
  pub execute_batch-no_rollback :
      (turns : List Turn) (cancelled : Bool) (config : BatchConfig) (operation : ℕ → S → Effect S)
      (s : S)
      → execute_batch turns cancelled (record config { atomic = true }) operation none s
        ≡ execute_batch turns cancelled (record config { atomic = false }) operation none s
  unfolding execute_batch should_rollback execute_operations
  execute_batch-no_rollback turns cancelled config operation s =
      let p = execute_operations turns cancelled config operation s in
      let nothing : Option (List String → S → S) = none in
      let never : should_rollback true p.failure_count p.created_ids nothing ≡ false =
        ground arith in
      ap
        (λ b.
          let q = if b then perform_rollback none p else p in
          if validate_batch_size config.item_count
          then (send_batch_response q, q.backend)
          else (refused 400 (record { error = "BadRequest"; code = 400 }), s))
        never
