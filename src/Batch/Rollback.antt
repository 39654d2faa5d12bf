-- ===== src/Batch/Rollback.antt =====
-- internal/handlers/batch.go, executeBatch: an atomic batch of creations is all or nothing.
use netweave.Common.{
  ℕ, zero, suc, ◌<◌, String, ◌≡◌, ◌≢◌, refl, sym, ap, ◌∙◌, subst, inl, inr, Bool, true, false, not,
  ◌&&◌, ◌||◌, Option, none, some, List, [], ◌∷◌, arith, if◌then◌else◌, All, contains, ltb, eqb,
  ◌==◌, eq_iff, Bool-cases, String-cases,
}
use netweave.Batch.{
  BatchConfig, Reply, refused, replied, Turn, Effect, Progress, set_at, make, non_empty, any,
  take_turn, take_turns, start, execute_with_worker_pool, execute_operations, validate_batch_size,
  should_rollback, perform_rollback, send_batch_response, execute_batch,
}
use netweave.Batch.Counts.{Apart, AllApart, IsSchedule}

-- The place is there and no identifier stands in it.
blank_at : ℕ → List String → Bool
blank_at i [] = false
blank_at zero (id ∷ ids) = id == ""
blank_at (suc i) (id ∷ ids) = blank_at i ids

-- The identifier stands in the list, the empty text aside.
abbrev tracked : String → List String → Bool
tracked j ids = contains ids j && not (j == "")

tracked-set_at :
    (i : ℕ) (id j : String) (ids : List String)
    → blank_at i ids ≡ true
    → tracked j (set_at i id ids) ≡ ((id == j || contains ids j) && not (j == ""))
unfolding blank_at set_at
tracked-set_at i id j [] b = absurd (ground arith)
tracked-set_at zero id j (x ∷ ids) b = ground (arith, eq_iff x "", eq_iff x j, eq_iff j "")
tracked-set_at (suc i) id j (x ∷ ids) b = ground (arith, tracked-set_at i id j ids b)

blank_at-set_at :
    (i j : ℕ) (id : String) (ids : List String)
    → i ≢ j
    → blank_at j (set_at i id ids) ≡ blank_at j ids
unfolding blank_at set_at
blank_at-set_at i j id [] h = refl
blank_at-set_at zero zero id (x ∷ ids) h = absurd (h refl)
blank_at-set_at zero (suc j) id (x ∷ ids) h = refl
blank_at-set_at (suc i) zero id (x ∷ ids) h = refl
blank_at-set_at (suc i) (suc j) id (x ∷ ids) h = blank_at-set_at i j id ids (λ e. h (ap suc e))

blank_at-make : (i n : ℕ) → i < n → blank_at i (make n "") ≡ true
unfolding blank_at make
blank_at-make i zero h = absurd (omega arith)
blank_at-make zero (suc n) h = refl
blank_at-make (suc i) (suc n) h = blank_at-make i n (omega arith)

tracked-make : (j : String) (n : ℕ) → tracked j (make n "") ≡ false
unfolding make
tracked-make j zero = ground arith
tracked-make j (suc n) = ground (arith, tracked-make j n, eq_iff "" j, eq_iff j "")

contains-non_empty : (j : String) (ids : List String) → contains (non_empty ids) j ≡ tracked j ids
unfolding non_empty
contains-non_empty j [] = ground arith
contains-non_empty j (x ∷ ids) =
    ground (arith, contains-non_empty j ids, eq_iff x "", eq_iff x j, eq_iff j "")

none-contained : (j : String) (ids : List String) → any ids ≡ false → contains ids j ≡ false
none-contained j [] h = refl
none-contained j (x ∷ ids) h = absurd (ground arith)

-- The whole batch succeeded.
abbrev pub is_success : Reply → Bool
is_success (refused status e) = false
is_success (replied status resp) = resp.success

abbrev pub atomic_creation : ℕ → BatchConfig
atomic_creation count = record { atomic = true; item_count = count; use_worker_pool = true }

-- The backend is seen by `view`: what stands under an identifier. A creation adds one identifier,
-- which is not empty and was free, or fails and changes nothing; the rollback removes identifiers.
module _ {S A : Type 0} (view : String → S → Option A) (s : S) where
  abbrev pub Creates : (ℕ → S → Effect S) → Type 0
  Creates operation =
      (i : ℕ) (t : S)
      → ((operation i t).result.success ≡ false
          → (j : String) → view j (operation i t).backend ≡ view j t)
        × ((operation i t).result.success ≡ true
            → ((operation i t).created_id ≢ "")
              × (view (operation i t).created_id s ≡ none)
              × ((j : String)
                  → (operation i t).created_id ≢ j
                  → view j (operation i t).backend ≡ view j t))

  -- All but those that it leaves, since it cannot remove them.
  abbrev pub Removes : (List String → S → S) → (List String → S → List String) → Type 0
  Removes rollback left =
      (ids : List String) (t : S) (j : String)
      → contains (left ids t) j ≡ false
      → view j (rollback ids t) ≡ (if contains ids j then none else view j t)

  -- What is tracked was free at the beginning, and all else is unchanged.
  abbrev Tracks : Progress S → Type 0
  Tracks p =
      (j : String)
      → (tracked j p.created_ids ≡ true → view j s ≡ none)
        × (tracked j p.created_ids ≡ false → view j p.backend ≡ view j s)

  take_turn-Tracks :
      (operation : ℕ → S → Effect S) (t : Turn) (p : Progress S)
      → Creates operation
      → blank_at t.idx p.created_ids ≡ true
      → Tracks p
      → Tracks (take_turn operation t p)
  unfolding take_turn
  take_turn-Tracks operation t p c b h j = elim (Bool-cases t.cancelled) [
    | inl k ↦ rw k (h j)
    | inr k ↦ elim (Bool-cases (operation t.idx p.backend).result.success) [
      | inr f ↦ rw (k, f) ((h j).0, λ q. (c t.idx p.backend).0 f j ∙ (h j).1 q)
      | inl g ↦
          let e = operation t.idx p.backend in
          let (named, free, others) = (c t.idx p.backend).1 g in
          let there : (e.created_id == "") ≡ false = ground (arith, eq_iff e.created_id "") in
          let ids = tracked-set_at t.idx e.created_id j p.created_ids b in
          elim (String-cases e.created_id j) [
            | inl (q, same) ↦
                rw (k, g, there)
                  (
                    λ _. subst (λ x. view x s ≡ none) same free,
                    λ lost. absurd (
                        ground (
                          arith,
                          ids,
                          q,
                          lost,
                          there,
                          eq_iff e.created_id j,
                          eq_iff j "",
                          eq_iff e.created_id "",
                        )),
                  )
            | inr (q, other) ↦
                rw (k, g, there)
                  (
                    λ x. (h j).0 (ground (arith, ids, q, x)),
                    λ x. others j other ∙ (h j).1 (ground (arith, ids, q, x)),
                  )
          ]
    ]
  ]

  take_turn-blank_at :
      (operation : ℕ → S → Effect S) (t : Turn) (i : ℕ) (p : Progress S)
      → t.idx ≢ i
      → blank_at i (take_turn operation t p).created_ids ≡ blank_at i p.created_ids
  unfolding take_turn
  take_turn-blank_at operation t i p h =
      let e = operation t.idx p.backend in
      elim (Bool-cases t.cancelled) [
        | inl k ↦ rw k refl
        | inr k ↦ elim (Bool-cases (e.result.success && not (e.created_id == ""))) [
          | inl b ↦ rw (k, b) (blank_at-set_at t.idx i e.created_id p.created_ids h)
          | inr b ↦ rw (k, b) refl
        ]
      ]

  abbrev Waiting : List Turn → Progress S → Type 0
  Waiting ts p = All (λ t. blank_at t.idx p.created_ids ≡ true) ts

  take_turn-Waiting :
      (operation : ℕ → S → Effect S) (t : Turn) (ts : List Turn) (p : Progress S)
      → Apart t ts
      → Waiting ts p
      → Waiting ts (take_turn operation t p)
  take_turn-Waiting operation t [] p a w = tt
  take_turn-Waiting operation t (u ∷ ts) p (a, apart) (w, ws) =
      (take_turn-blank_at operation t u.idx p a ∙ w, take_turn-Waiting operation t ts p apart ws)

  take_turns-Tracks :
      (operation : ℕ → S → Effect S) (ts : List Turn) (p : Progress S)
      → Creates operation
      → AllApart ts
      → Waiting ts p
      → Tracks p
      → Tracks (take_turns operation ts p)
  unfolding take_turns
  take_turns-Tracks operation [] p c a w h = h
  take_turns-Tracks operation (t ∷ ts) p c (a, apart) (w, ws) h =
      take_turns-Tracks operation ts (take_turn operation t p) c apart
        (take_turn-Waiting operation t ts p a ws) (take_turn-Tracks operation t p c w h)

  start-Waiting :
      (count : ℕ) (ts : List Turn) → All (λ t. t.idx < count) ts → Waiting ts (start count s)
  start-Waiting count [] h = tt
  start-Waiting count (t ∷ ts) (h, hs) = (blank_at-make t.idx count h, start-Waiting count ts hs)

  -- After the pool: what the list of created identifiers has was free, all else is unchanged.
  pool-keeps :
      (turns : List Turn) (count : ℕ) (operation : ℕ → S → Effect S) (j : String)
      → Creates operation
      → IsSchedule count turns
      → let p = execute_with_worker_pool turns count operation s in
        (contains p.created_ids j ≡ true → view j s ≡ none)
        × (contains p.created_ids j ≡ false → view j p.backend ≡ view j s)
  unfolding execute_with_worker_pool
  pool-keeps turns count operation j c (l, below, apart) =
      let p = take_turns operation turns (start count s) in
      let same = contains-non_empty j p.created_ids in
      let h =
        take_turns-Tracks operation turns (start count s) c apart (start-Waiting count turns below)
          (λ k. (λ b. absurd (ground (arith, tracked-make k count)), λ _. refl)) in
      (λ b. (h j).0 (sym same ∙ b), λ b. (h j).1 (sym same ∙ b))

  -- An atomic batch of creations in the worker pool, under a schedule in which each item has one
  -- turn, is all or nothing where the rollback removes what it is given: if the reply is not a
  -- success, the backend holds under each identifier that it does not leave what it held before.
  pub execute_batch-all_or_nothing :
      (turns : List Turn) (cancelled : Bool) (count : ℕ) (operation : ℕ → S → Effect S)
      (rollback : List String → S → S) (left : List String → S → List String)
      → Creates operation
      → Removes rollback left
      → IsSchedule count turns
      → is_success
          (execute_batch turns cancelled (atomic_creation count) operation (some rollback) s).0
        ≡ false
      → (j : String)
      → contains
          (left
            (execute_with_worker_pool turns count operation s).created_ids
            (execute_with_worker_pool turns count operation s).backend)
          j
        ≡ false
      → view j (execute_batch turns cancelled (atomic_creation count) operation (some rollback) s).1
        ≡ view j s
  unfolding execute_batch execute_operations should_rollback perform_rollback send_batch_response
  execute_batch-all_or_nothing turns cancelled count operation rollback left c d v h j gone =
      let p = execute_with_worker_pool turns count operation s in
      let (free, kept) = pool-keeps turns count operation j c v in
      elim (Bool-cases (validate_batch_size count)) [
        | inr x ↦ rw x refl
        | inl x ↦ elim (Bool-cases (ltb 0 p.failure_count)) [
          | inr f ↦
              let all_good : eqb p.failure_count 0 ≡ true = ground arith in
              let bad : eqb p.failure_count 0 ≡ false = rw (x, f) at h in absurd (ground arith)
          | inl f ↦ elim (Bool-cases (any p.created_ids)) [
            | inr y ↦ rw (x, f, y) (kept (none-contained j p.created_ids y))
            | inl y ↦
                rw (x, f, y)
                  (d p.created_ids p.backend j gone ∙ undone (contains p.created_ids j) free kept)
          ]
        ]
      ]
    where
      undone :
          {o q : Option A} (b : Bool)
          → (b ≡ true → q ≡ none)
          → (b ≡ false → o ≡ q)
          → (if b then none else o) ≡ q
      undone true free kept = sym (free refl)
      undone false free kept = kept refl
