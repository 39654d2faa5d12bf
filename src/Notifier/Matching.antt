-- ===== src/Notifier/Matching.antt =====
-- internal/events/filter.go: the subscriptions that an event is sent to. What the store lists is an
-- argument.
use netweave.Common.{
  String, ◌≡◌, ◌≢◌, refl, sym, subst, ◌⊎◌, inl, inr, Bool, true, ◌&&◌, List, [], ◌∷◌, arith,
  if◌then◌else◌, Among, Result, ok, err, ◌>>=◌, ◌==◌, eq_iff, >>=-eq-ok, Bool-cases, Result-cases,
  String-cases,
}
use netweave.Batch.{StoredSubscription}
use netweave.Batch.Subscriptions.{StoreError}
use netweave.Notifier.{Event}

-- storage.Store: List and ListByTenant.
pub record Listing : Type 0 where
  pub everything : Result StoreError (List StoredSubscription)
  pub of_tenant : String → Result StoreError (List StoredSubscription)

-- The test fails if the criterion is set and not the value.
abbrev criterion : String → String → Bool
criterion wanted value = if wanted == "" then true else wanted == value

unfoldable pub matches_subscription : Event → StoredSubscription → Bool
matches_subscription event sub =
    criterion sub.filter.resource_pool_id event.resource_pool_id
    && criterion sub.filter.resource_type_id event.resource_type_id
    && criterion sub.filter.resource_id event.resource_id

-- The loop of `MatchSubscriptions`.
unfoldable pub keep_matching : Event → List StoredSubscription → List StoredSubscription
keep_matching event [] = []
keep_matching event (sub ∷ subs) =
    let rest = keep_matching event subs in
    if matches_subscription event sub then sub ∷ rest else rest

-- An error of ListByTenant is only logged.
abbrev or_all :
    List StoredSubscription → Result StoreError (List StoredSubscription) → List StoredSubscription
or_all all (ok subs) = subs
or_all all (err e) = all

unfoldable pub match_subscriptions : Listing → Event → Result StoreError (List StoredSubscription)
match_subscriptions store event = do
  all ← store.everything
  ok (
      keep_matching event
        (if event.tenant_id == "" then all else or_all all (store.of_tenant event.tenant_id)))

-- Each criterion of the subscription is empty or the event's value.
abbrev pub Meets : Event → StoredSubscription → Type 0
Meets event sub =
    ((sub.filter.resource_pool_id ≡ "") ⊎ (sub.filter.resource_pool_id ≡ event.resource_pool_id))
    × ((sub.filter.resource_type_id ≡ "") ⊎ (sub.filter.resource_type_id ≡ event.resource_type_id))
    × ((sub.filter.resource_id ≡ "") ⊎ (sub.filter.resource_id ≡ event.resource_id))

criterion_iff :
    (wanted value : String)
    → (criterion wanted value ≡ true → (wanted ≡ "") ⊎ (wanted ≡ value))
      × ((wanted ≡ "") ⊎ (wanted ≡ value) → criterion wanted value ≡ true)
criterion_iff wanted value = (
  λ h. elim (String-cases wanted "") [
    | inl (b, same) ↦ inl same
    | inr (b, other) ↦ inr ((eq_iff wanted value).0 (rw b at h))
  ],
  λ h. ground (arith, eq_iff wanted "", eq_iff wanted value),
)

matches_subscription_iff :
    (event : Event) (sub : StoredSubscription)
    → (matches_subscription event sub ≡ true → Meets event sub)
      × (Meets event sub → matches_subscription event sub ≡ true)
unfolding matches_subscription
matches_subscription_iff event sub =
    let pool = criterion_iff sub.filter.resource_pool_id event.resource_pool_id in
    let kind = criterion_iff sub.filter.resource_type_id event.resource_type_id in
    let one = criterion_iff sub.filter.resource_id event.resource_id in
    (
      λ h. (pool.0 (ground (arith, h)), kind.0 (ground (arith, h)), one.0 (ground (arith, h))),
      λ (p, k, o). ground (arith, pool.1 p, kind.1 k, one.1 o),
    )

keep_matching_iff :
    (event : Event) (subs : List StoredSubscription) (sub : StoredSubscription)
    → (Among sub (keep_matching event subs) → Among sub subs × Meets event sub)
      × (Among sub subs → Meets event sub → Among sub (keep_matching event subs))
unfolding keep_matching
keep_matching_iff event [] sub = (λ h. absurd h, λ h m. absurd h)
keep_matching_iff event (q ∷ subs) sub =
    let (out, into) = keep_matching_iff event subs sub in
    let (reads, meets) = matches_subscription_iff event q in
    elim (Bool-cases (matches_subscription event q)) [
      | inl b ↦ rw b (
        λ h. elim h [
          | inl same ↦ (inl same, subst (Meets event) same (reads b))
          | inr m ↦ (inr (out m).0, (out m).1)
        ],
        λ h m. elim h [ inl same ↦ inl same | inr later ↦ inr (into later m) ],
      )
      | inr b ↦ rw b (
        λ h. (inr (out h).0, (out h).1),
        λ h m. elim h [
          | inl same ↦
              let yes_it : matches_subscription event q ≡ true =
                meets (subst (Meets event) (sym same) m) in
              absurd (ground (arith, b, yes_it))
          | inr later ↦ into later m
        ],
      )
    ]

-- Where the candidates come from: the tenant of the event, if it has one and the store lists its
-- subscriptions; all subscriptions otherwise.
abbrev pub IsSource : Listing → Event → List StoredSubscription → Type 0
IsSource store event subs =
    ((event.tenant_id ≢ "") × (store.of_tenant event.tenant_id ≡ ok subs))
    ⊎ (((event.tenant_id ≡ "") ⊎ ((e : StoreError) × (store.of_tenant event.tenant_id ≡ err e)))
        × (store.everything ≡ ok subs))

source :
    (store : Listing) (event : Event) (all : List StoredSubscription)
    → store.everything ≡ ok all
    → IsSource store event
        (if event.tenant_id == "" then all else or_all all (store.of_tenant event.tenant_id))
source store event all h = elim (String-cases event.tenant_id "") [
  | inl (b, same) ↦ rw b (inr (inl same, h))
  | inr (b, other) ↦ elim (Result-cases (store.of_tenant event.tenant_id)) [
    | inl (subs, e) ↦ rw (b, e) (inl (other, refl))
    | inr (x, e) ↦ rw (b, e) (inr (inr (x, refl), h))
  ]
]

-- What match_subscriptions returns are the subscriptions of a list that meet the event: that of the
-- event's tenant, or the list of all subscriptions if the event names no tenant or the store fails
-- to list the tenant's.
pub match_subscriptions_exact :
    (store : Listing) (event : Event) (matched : List StoredSubscription)
    → match_subscriptions store event ≡ ok matched
    → (candidates : List StoredSubscription) × IsSource store event candidates
      × ((sub : StoredSubscription)
          → (Among sub matched → Among sub candidates × Meets event sub)
            × (Among sub candidates → Meets event sub → Among sub matched))
unfolding match_subscriptions
match_subscriptions_exact store event matched h =
    let (all, e, rest) = >>=-eq-ok store.everything _ h in
    let candidates =
      if event.tenant_id == "" then all else or_all all (store.of_tenant event.tenant_id) in
    let same : keep_matching event candidates ≡ matched = ground (arith, rest) in
    (
      candidates,
      source store event all e,
      λ sub.
          subst
            (λ x.
              (Among sub x → Among sub candidates × Meets event sub)
              × (Among sub candidates → Meets event sub → Among sub x))
            same (keep_matching_iff event candidates sub),
    )
