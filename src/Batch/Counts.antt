-- ===== src/Batch/Counts.antt =====
-- internal/handlers/batch.go: the counters of executeWithWorkerPool and executeSequentially.
use netweave.Common.{
  ℕ, zero, suc, ◌+◌, ◌≤◌, ◌<◌, ◌≡◌, ◌≢◌, refl, sym, ap, ◌∙◌, inl, inr, Bool, true, false, not, List,
  [], ◌∷◌, arith, length, if◌then◌else◌, All, Bool-cases,
}
use netweave.Batch.{
  BatchResult, BatchConfig, Turn, Effect, Progress, no_result, cancelled_result, set_at, make,
  cancel_each, record_result, take_turn, take_turns, start, execute_with_worker_pool, each,
  execute_sequentially, execute_operations,
}

-- How many of the results are successes.
unfoldable pub successes : List BatchResult → ℕ
successes [] = 0
successes (r ∷ rs) = let rest = successes rs in if r.success then suc rest else rest

-- The place is there and holds no success.
open_at : ℕ → List BatchResult → Bool
open_at i [] = false
open_at zero (r ∷ rs) = not r.success
open_at (suc i) (r ∷ rs) = open_at i rs

length-set_at :
    (i : ℕ) (r : BatchResult) (rs : List BatchResult) → length (set_at i r rs) ≡ length rs
unfolding set_at
length-set_at i r [] = refl
length-set_at zero r (q ∷ rs) = refl
length-set_at (suc i) r (q ∷ rs) = ap suc (length-set_at i r rs)

successes-set_at :
    (i : ℕ) (r : BatchResult) (rs : List BatchResult)
    → open_at i rs ≡ true
    → successes (set_at i r rs) ≡ (if r.success then suc (successes rs) else successes rs)
unfolding open_at set_at successes
successes-set_at i r [] h = absurd (ground arith)
successes-set_at zero r (q ∷ rs) h = ground arith
successes-set_at (suc i) r (q ∷ rs) h = ground (arith, successes-set_at i r rs)

open_at-set_at :
    (i j : ℕ) (r : BatchResult) (rs : List BatchResult)
    → i ≢ j
    → open_at j (set_at i r rs) ≡ open_at j rs
unfolding open_at set_at
open_at-set_at i j r [] h = refl
open_at-set_at zero zero r (q ∷ rs) h = absurd (h refl)
open_at-set_at zero (suc j) r (q ∷ rs) h = refl
open_at-set_at (suc i) zero r (q ∷ rs) h = refl
open_at-set_at (suc i) (suc j) r (q ∷ rs) h = open_at-set_at i j r rs (λ e. h (ap suc e))

open_at-make : (i n : ℕ) → i < n → open_at i (make n no_result) ≡ true
unfolding open_at make
open_at-make i zero h = absurd (omega arith)
open_at-make zero (suc n) h = refl
open_at-make (suc i) (suc n) h = open_at-make i n (omega arith)

successes-make : (n : ℕ) → successes (make n no_result) ≡ 0
unfolding successes make
successes-make zero = refl
successes-make (suc n) = successes-make n

length-make : (n : ℕ) → length (make n no_result) ≡ n
unfolding make
length-make zero = refl
length-make (suc n) = ap suc (length-make n)

cancel_each-successes :
    (i n : ℕ) (rs : List BatchResult)
    → ((j : ℕ) → i ≤ j → j < i + n → open_at j rs ≡ true)
    → (successes (cancel_each i n rs) ≡ successes rs) × (length (cancel_each i n rs) ≡ length rs)
unfolding cancel_each
cancel_each-successes i zero rs o = (refl, refl)
cancel_each-successes i (suc n) rs o =
    let (h, l) = cancel_each-successes (suc i) n (set_at i (cancelled_result i) rs) (λ j low high.
      open_at-set_at i j _ rs (λ same. omega arith) ∙ o j (omega arith) (omega arith)) in
    (
      h ∙ successes-set_at i (cancelled_result i) rs (o i (omega arith) (omega arith)),
      l ∙ length-set_at i _ rs,
    )

-- Each of the numbers below the count has one turn.
abbrev pub Apart : Turn → List Turn → Type 0
Apart t ts = All (λ u. t.idx ≢ u.idx) ts

abbrev pub AllApart : List Turn → Type 0
AllApart [] = Unit
AllApart (t ∷ ts) = Apart t ts × AllApart ts

abbrev pub IsSchedule : ℕ → List Turn → Type 0
IsSchedule count turns = (length turns ≡ count) × All (λ t. t.idx < count) turns × AllApart turns

module _ {S : Type 0} where
  -- With `n` items to go, the counters tell what the results hold.
  abbrev Tallied : ℕ → Progress S → Type 0
  Tallied n p =
      (p.success_count ≡ successes p.results)
      × (p.success_count + p.failure_count + n ≡ length p.results)

  record_result-Tallied :
      (i n : ℕ) (e : Effect S) (p : Progress S)
      → open_at i p.results ≡ true
      → Tallied (suc n) p
      → Tallied n (record_result i e p)
  record_result-Tallied i n e p o (h, k) = (
    ground (arith, successes-set_at i (record e.result { index = i }) p.results),
    ground (arith, length-set_at i (record e.result { index = i }) p.results),
  )

  take_turn-Tallied :
      (operation : ℕ → S → Effect S) (t : Turn) (n : ℕ) (p : Progress S)
      → open_at t.idx p.results ≡ true
      → Tallied (suc n) p
      → Tallied n (take_turn operation t p)
  unfolding take_turn
  take_turn-Tallied operation t n p o (h, k) = elim (Bool-cases t.cancelled) [
    | inr b ↦ rw b (record_result-Tallied t.idx n (operation t.idx p.backend) p o (h, k))
    | inl b ↦ rw b (
      ground (arith, successes-set_at t.idx (cancelled_result t.idx) p.results),
      ground (arith, length-set_at t.idx (cancelled_result t.idx) p.results),
    )
  ]

  take_turn-open_at :
      (operation : ℕ → S → Effect S) (t : Turn) (j : ℕ) (p : Progress S)
      → t.idx ≢ j
      → open_at j (take_turn operation t p).results ≡ open_at j p.results
  unfolding take_turn
  take_turn-open_at operation t j p h = elim (Bool-cases t.cancelled) [
    | inr b ↦ rw b (open_at-set_at t.idx j _ p.results h)
    | inl b ↦ rw b (open_at-set_at t.idx j _ p.results h)
  ]

  -- The places of the turns to come are open.
  abbrev Waiting : List Turn → Progress S → Type 0
  Waiting ts p = All (λ t. open_at t.idx p.results ≡ true) ts

  take_turn-Waiting :
      (operation : ℕ → S → Effect S) (t : Turn) (ts : List Turn) (p : Progress S)
      → Apart t ts
      → Waiting ts p
      → Waiting ts (take_turn operation t p)
  take_turn-Waiting operation t [] p a w = tt
  take_turn-Waiting operation t (u ∷ ts) p (a, as_) (w, ws) =
      (take_turn-open_at operation t u.idx p a ∙ w, take_turn-Waiting operation t ts p as_ ws)

  take_turns-Tallied :
      (operation : ℕ → S → Effect S) (ts : List Turn) (p : Progress S)
      → AllApart ts
      → Waiting ts p
      → Tallied (length ts) p
      → Tallied 0 (take_turns operation ts p)
  unfolding take_turns
  take_turns-Tallied operation [] p a w h = h
  take_turns-Tallied operation (t ∷ ts) p (a, apart) (w, ws) h =
      take_turns-Tallied operation ts (take_turn operation t p) apart
        (take_turn-Waiting operation t ts p a ws) (take_turn-Tallied operation t (length ts) p w h)

  take_turns-length :
      (operation : ℕ → S → Effect S) (ts : List Turn) (p : Progress S)
      → length (take_turns operation ts p).results ≡ length p.results
  unfolding take_turns take_turn
  take_turns-length operation [] p = refl
  take_turns-length operation (t ∷ ts) p =
      take_turns-length operation ts (take_turn operation t p) ∙ one
    where
      one : length (take_turn operation t p).results ≡ length p.results
      one = elim (Bool-cases t.cancelled) [
        | inr b ↦ rw b (length-set_at t.idx _ p.results)
        | inl b ↦ rw b (length-set_at t.idx _ p.results)
      ]

  start-Waiting :
      (count : ℕ) (s : S) (ts : List Turn)
      → All (λ t. t.idx < count) ts
      → Waiting ts (start count s)
  start-Waiting count s [] h = tt
  start-Waiting count s (t ∷ ts) (h, hs) = (open_at-make t.idx count h, start-Waiting count s ts hs)

  -- The counters of a finished batch.
  abbrev pub IsTally : ℕ → Progress S → Type 0
  IsTally count p =
      (length p.results ≡ count)
      × (p.success_count ≡ successes p.results)
      × (p.success_count + p.failure_count ≡ count)

  execute_with_worker_pool-IsTally :
      (turns : List Turn) (count : ℕ) (operation : ℕ → S → Effect S) (s : S)
      → IsSchedule count turns
      → IsTally count (execute_with_worker_pool turns count operation s)
  unfolding execute_with_worker_pool
  execute_with_worker_pool-IsTally turns count operation s (l, below, apart) =
      let (h, k) =
        take_turns-Tallied operation turns (start count s) apart (start-Waiting count s turns below)
          (sym (successes-make count), omega (arith, length-make count, l)) in
      let size = take_turns-length operation turns (start count s) ∙ length-make count in
      (size, h, omega (arith, k, size))

  each-Tallied :
      (operation : ℕ → S → Effect S) (i n : ℕ) (p : Progress S)
      → ((j : ℕ) → i ≤ j → j < i + n → open_at j p.results ≡ true)
      → Tallied n p
      → Tallied 0 (each operation i n p)
        × (length (each operation i n p).results ≡ length p.results)
  unfolding each
  each-Tallied operation i zero p o h = (h, refl)
  each-Tallied operation i (suc n) p o h =
      let e = operation i p.backend in
      let (t, l) =
        each-Tallied operation (suc i) n (record_result i e p)
          (λ j low high.
            open_at-set_at i j _ p.results (λ same. omega arith) ∙ o j (omega arith) (omega arith))
          (record_result-Tallied i n e p (o i (omega arith) (omega arith)) h) in
      (t, l ∙ length-set_at i _ p.results)

  execute_sequentially-IsTally :
      (cancelled : Bool) (count : ℕ) (operation : ℕ → S → Effect S) (s : S)
      → IsTally count (execute_sequentially cancelled count operation s)
  unfolding execute_sequentially
  execute_sequentially-IsTally true count operation s =
      let (h, l) =
        cancel_each-successes 0 count (make count no_result)
          (λ j low high. open_at-make j count (omega arith)) in
      (l ∙ length-make count, sym (h ∙ successes-make count), omega arith)
  execute_sequentially-IsTally false count operation s =
      let p = record (start count s) { created_ids = [] } in
      let ((h, k), l) =
        each-Tallied operation 0 count p (λ j low high. open_at-make j count (omega arith))
          (sym (successes-make count), omega (arith, length-make count)) in
      let size = l ∙ length-make count in (size, h, omega (arith, k, size))

  -- Under a schedule in which each item has one turn, execute_operations leaves one result for each
  -- item; its success counter is the number of results that are successes, and the two counters
  -- add up to the number of items.
  pub execute_operations-IsTally :
      (turns : List Turn) (cancelled : Bool) (config : BatchConfig) (operation : ℕ → S → Effect S)
      (s : S)
      → IsSchedule config.item_count turns
      → IsTally config.item_count (execute_operations turns cancelled config operation s)
  unfolding execute_operations
  execute_operations-IsTally turns cancelled config operation s v =
      elim (Bool-cases config.use_worker_pool) [
        | inl b ↦ rw b (execute_with_worker_pool-IsTally turns config.item_count operation s v)
        | inr b ↦ rw b (execute_sequentially-IsTally cancelled config.item_count operation s)
      ]
