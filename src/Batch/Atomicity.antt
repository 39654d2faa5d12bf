-- ===== src/Batch/Atomicity.antt =====
-- internal/handlers/batch.go: an atomic batch creation of subscriptions is all or nothing.
use netweave.Common.{
  ℕ, suc, String, ◌≡◌, ◌≢◌, Bool, Option, none, some, List, [], ◌∷◌, if◌then◌else◌, Result, ok, err,
  ◌==◌,
}
use netweave.Batch.{StoredSubscription}
use netweave.Batch.Subscriptions.{Store, StoreError, or_same}

abbrev found : Result StoreError StoredSubscription → Option StoredSubscription
found (ok x) = some x
found (err e) = none

-- What the store has under an identifier.
abbrev pub looked_up : {S : Type 0} → Store S → String → S → Option StoredSubscription
looked_up store id s = found (store.get_from id s)

-- The contract of `storage.Store` as far as a call that succeeds goes. It may fail for any reason.
pub record IsStore {S : Type 0} (store : Store S) : Type 0 where
  pub create_elsewhere :
      (sub kept : StoredSubscription) (s t : S)
      → store.create_in sub s ≡ ok (kept, t)
      → (j : String) → sub.id ≢ j
      → looked_up store j t ≡ looked_up store j s
  pub delete_exact :
      (ctx : Bool) (id : String) (s t : S)
      → store.delete_in ctx id s ≡ ok t
      → (j : String) → looked_up store j t ≡ (if id == j then none else looked_up store j s)

abbrev with_failed : {S : Type 0} → String → Result StoreError S → List String → List String
with_failed id (ok t) ids = ids
with_failed id (err e) ids = id ∷ ids

-- The identifiers for which a call of Delete fails in the rollback.
unfoldable pub failed_deletes :
    {S : Type 0} → Store S → (ℕ → Bool) → ℕ → List String → S → List String
failed_deletes store ctx n [] s = []
failed_deletes store ctx n (id ∷ ids) s =
    with_failed id (store.delete_in (ctx n) id s)
      (failed_deletes store ctx (suc n) ids (or_same store s (store.delete_in (ctx n) id s)))
