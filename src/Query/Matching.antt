-- ===== src/Query/Matching.antt =====
-- internal/models/filters.go: which resources a filter matches.
use netweave.Common.{
  contains_iff, String, ◌≡◌, ◌↔◌, refl, sym, subst, ◌⊎◌, inl, inr, Bool, true, false, not, ◌&&◌,
  ◌||◌, Option, none, some, List, [], ◌∷◌, ◌++◌, arith, if◌then◌else◌, ◌==◌, eq_iff, contains,
  codes, starts, starts_iff, Among, Bool-cases, ℕ,
}
use netweave.Query.{Filter, is_empty_list}

pub record ResourcePool : Type 0 where
  pub resource_pool_id : String
  pub location : String
  pub o_cloud_id : String

pub record Resource : Type 0 where
  pub resource_id : String
  pub resource_type_id : String
  pub resource_pool_id : String

pub record ResourceType : Type 0 where
  pub resource_type_id : String
  pub resource_class : String
  pub resource_kind : String
  pub vendor : String
  pub model : String

-- The resource pools of a subscription's filter, `none` without a filter.
pub record Subscription : Type 0 where
  pub filter_pools : Option (List String)

-- len(ids) > 0 && !Contains(ids, id) { return false }
abbrev passes_ids : List String → String → Bool
passes_ids ids id = is_empty_list ids || contains ids id

-- wanted == "" || value == wanted
abbrev passes_text : String → String → Bool
passes_text wanted value = wanted == "" || value == wanted

unfoldable pub matches_resource_pool : Filter → ResourcePool → Bool
matches_resource_pool f pool =
    if not (is_empty_list f.resource_pool_id)
      && not (contains f.resource_pool_id pool.resource_pool_id)
    then false
    else if not (f.location == "") && not (starts (codes pool.location) (codes f.location))
    then false
    else if not (f.o_cloud_id == "") && not (pool.o_cloud_id == f.o_cloud_id)
    then false
    else true

unfoldable pub matches_resource : Filter → Resource → Bool
matches_resource f r =
    if not (is_empty_list f.resource_id) && not (contains f.resource_id r.resource_id)
    then false
    else if not (is_empty_list f.resource_type_id)
        && not (contains f.resource_type_id r.resource_type_id)
    then false
    else if not (is_empty_list f.resource_pool_id)
        && not (contains f.resource_pool_id r.resource_pool_id)
    then false
    else true

unfoldable pub matches_resource_type : Filter → ResourceType → Bool
matches_resource_type f rt =
    passes_ids f.resource_type_id rt.resource_type_id
    && passes_text f.resource_class rt.resource_class
    && passes_text f.resource_kind rt.resource_kind
    && passes_text f.vendor rt.vendor
    && passes_text f.model rt.model

-- The loop of `MatchesSubscription`.
pub shares : List String → List String → Bool
shares [] pools = false
shares (id ∷ ids) pools = contains pools id || shares ids pools

abbrev shares_with : List String → Option (List String) → Bool
shares_with ids none = true
shares_with ids (some pools) = is_empty_list pools || shares ids pools

unfoldable pub matches_subscription : Filter → Subscription → Bool
unfolding shares
matches_subscription f sub =
    is_empty_list f.resource_pool_id || shares_with f.resource_pool_id sub.filter_pools

unfoldable pub is_empty : Filter → Bool
is_empty f =
    is_empty_list f.resource_pool_id
    && is_empty_list f.resource_type_id
    && is_empty_list f.resource_id
    && f.location == ""
    && f.o_cloud_id == ""
    && is_empty_list f.labels
    && f.resource_class == ""
    && f.resource_kind == ""
    && f.vendor == ""
    && f.model == ""

-- No identifiers are asked for, or the value is one of them.
abbrev pub IsListed : List String → String → Type 0
IsListed ids id = (ids ≡ []) ⊎ Among id ids

abbrev pub IsPrefix : String → String → Type 0
IsPrefix s t = (rest : List ℕ) × (codes t ≡ codes s ++ rest)

nil_iff : (ids : List String) → (is_empty_list ids ≡ true) ↔ (ids ≡ [])
nil_iff [] = (λ h. refl, λ h. refl)
nil_iff (x ∷ ids) = (λ h. absurd (ground (arith, h)), λ h. absurd (ground (arith, h)))

or_iff :
    {A B : Type 0} (a b : Bool)
    → ((a ≡ true) ↔ A)
    → ((b ≡ true) ↔ B)
    → (((a || b) ≡ true) ↔ (A ⊎ B))
or_iff true b p q = (λ h. inl (p.0 refl), λ h. refl)
or_iff false b p q =
    (λ h. inr (q.0 h), λ h. elim h [ inl x ↦ absurd (ground (arith, p.1 x)) | inr y ↦ q.1 y ])

and_iff :
    {A B : Type 0} (a b : Bool)
    → ((a ≡ true) ↔ A)
    → ((b ≡ true) ↔ B)
    → (((a && b) ≡ true) ↔ (A × B))
and_iff true b p q = (λ h. (p.0 refl, q.0 h), λ h. q.1 h.1)
and_iff false b p q = (λ h. absurd (ground (arith, h)), λ h. absurd (ground (arith, p.1 h.0)))

-- if !a && !b { return false }, and then k
unless_iff :
    {A B K : Type 0} (a b k : Bool)
    → ((a ≡ true) ↔ A)
    → ((b ≡ true) ↔ B)
    → ((k ≡ true) ↔ K)
    → (((if not a && not b then false else k) ≡ true) ↔ ((A ⊎ B) × K))
unless_iff true b k p q r = (λ h. (inl (p.0 refl), r.0 h), λ h. r.1 h.1)
unless_iff false true k p q r = (λ h. (inr (q.0 refl), r.0 h), λ h. r.1 h.1)
unless_iff false false k p q r = (
  λ h. absurd (ground (arith, h)),
  λ h. elim h.0 [ inl x ↦ absurd (ground (arith, p.1 x)) | inr y ↦ absurd (ground (arith, q.1 y)) ],
)

prefix_iff : (s t : String) → (starts (codes t) (codes s) ≡ true) ↔ IsPrefix s t
prefix_iff s t =
    let (sound, complete) = starts_iff (codes t) (codes s) in (sound, λ h. complete h.0 h.1)

shares_iff :
    (ids pools : List String)
    → (shares ids pools ≡ true) ↔ ((id : String) × Among id ids × Among id pools)
unfolding shares
shares_iff [] pools = (λ h. absurd (ground (arith, h)), λ h. absurd h.1)
shares_iff (x ∷ ids) pools = (
  λ h. elim (Bool-cases (contains pools x)) [
    | inl e ↦ (x, inl refl, (contains_iff pools x).0 e)
    | inr e ↦ let (id, a, b) = (shares_iff ids pools).0 (ground (arith, h, e)) in (id, inr a, b)
  ],
  λ h. elim h.1 [
    | inl e ↦ ground (arith, (contains_iff pools x).1 (subst (λ i. Among i pools) (sym e) h.2))
    | inr later ↦ ground (arith, (shares_iff ids pools).1 (h.0, later, h.2))
  ],
)

-- The subscription has no resource pools of its own, or one that is asked for.
abbrev pub IsShared : List String → Option (List String) → Type 0
IsShared ids none = Unit
IsShared ids (some pools) = (pools ≡ []) ⊎ ((id : String) × Among id ids × Among id pools)

shares_with_iff :
    (ids : List String) (o : Option (List String)) → (shares_with ids o ≡ true) ↔ IsShared ids o
shares_with_iff ids none = (λ h. tt, λ h. refl)
shares_with_iff ids (some pools) = or_iff _ _ (nil_iff pools) (shares_iff ids pools)

abbrev pub IsText : String → String → Type 0
IsText wanted value = (wanted ≡ "") ⊎ (value ≡ wanted)

passes_text_iff : (wanted value : String) → (passes_text wanted value ≡ true) ↔ IsText wanted value
passes_text_iff wanted value = or_iff (wanted == "") _ (eq_iff wanted "") (eq_iff value wanted)

passes_ids_iff : (ids : List String) (id : String) → (passes_ids ids id ≡ true) ↔ IsListed ids id
passes_ids_iff ids id = or_iff (is_empty_list ids) _ (nil_iff ids) (contains_iff ids id)

abbrev pub IsPool : Filter → ResourcePool → Type 0
IsPool f pool =
    IsListed f.resource_pool_id pool.resource_pool_id
    × (((f.location ≡ "") ⊎ IsPrefix f.location pool.location)
        × (IsText f.o_cloud_id pool.o_cloud_id × Unit {0}))

abbrev pub IsResource : Filter → Resource → Type 0
IsResource f r =
    IsListed f.resource_id r.resource_id
    × (IsListed f.resource_type_id r.resource_type_id
        × (IsListed f.resource_pool_id r.resource_pool_id × Unit {0}))

abbrev pub IsType : Filter → ResourceType → Type 0
IsType f rt =
    (((IsListed f.resource_type_id rt.resource_type_id × IsText f.resource_class rt.resource_class)
        × IsText f.resource_kind rt.resource_kind)
      × IsText f.vendor rt.vendor)
    × IsText f.model rt.model

true_iff : (true ≡ true) ↔ Unit {0}
true_iff = (λ h. tt, λ h. refl)

-- What each of the four tests of a filter accepts. A list of identifiers that is not empty has to
-- contain the identifier, a location has to be a prefix, and a text that is not empty has to be
-- equal. A subscription passes if no pools are asked for, it has none, or it has one of them. Each
-- test reads only the fields of the filter that are named in its condition: none reads the labels,
-- and only that of a resource pool reads the location and the identifier of the O-Cloud.
pub matches_iff :
    (f : Filter) (pool : ResourcePool) (r : Resource) (rt : ResourceType) (sub : Subscription)
    → ((matches_resource_pool f pool ≡ true) ↔ IsPool f pool)
      × ((matches_resource f r ≡ true) ↔ IsResource f r)
      × ((matches_resource_type f rt ≡ true) ↔ IsType f rt)
      × ((matches_subscription f sub ≡ true)
          ↔ ((f.resource_pool_id ≡ []) ⊎ IsShared f.resource_pool_id sub.filter_pools))
unfolding matches_resource_pool matches_resource matches_resource_type matches_subscription
matches_iff f pool r rt sub = (
  unless_iff _ _ _ (nil_iff f.resource_pool_id)
      (contains_iff f.resource_pool_id pool.resource_pool_id)
      (unless_iff (f.location == "") _ _ (eq_iff f.location "")
        (prefix_iff f.location pool.location)
        (unless_iff (f.o_cloud_id == "") _ _ (eq_iff f.o_cloud_id "")
          (eq_iff pool.o_cloud_id f.o_cloud_id) true_iff)),
  unless_iff _ _ _ (nil_iff f.resource_id) (contains_iff f.resource_id r.resource_id) (
      unless_iff _ _ _ (nil_iff f.resource_type_id)
        (contains_iff f.resource_type_id r.resource_type_id)
        (unless_iff _ _ _ (nil_iff f.resource_pool_id)
          (contains_iff f.resource_pool_id r.resource_pool_id) true_iff)),
  and_iff _ _
      (and_iff _ _
        (and_iff _ _
          (and_iff _ _ (passes_ids_iff f.resource_type_id rt.resource_type_id)
            (passes_text_iff f.resource_class rt.resource_class))
          (passes_text_iff f.resource_kind rt.resource_kind))
        (passes_text_iff f.vendor rt.vendor))
      (passes_text_iff f.model rt.model),
  or_iff _ _ (nil_iff f.resource_pool_id) (shares_with_iff f.resource_pool_id sub.filter_pools),
)
