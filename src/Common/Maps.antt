-- ===== src/Common/Maps.antt =====
-- A Go map with string keys, as an association list. Its order stands for the order that a `range`
-- loop happens to take; what is proved holds for every list.
use Prim.Native.String.{String}
use mathlib.Core.Path.{◌≡◌, refl}
use mathlib.Core.Option.{Option, none, some}
use mathlib.Core.List.{List, [], ◌∷◌}
use native.Mathlib.Omega.{arith}
use text.Mathlib.Text.{◌==◌}
use text.Mathlib.TextEquality.{eq_iff}
use text.Mathlib.TextPositions.{eq_refl}
use netweave.Common.Tests.{if◌then◌else◌}
use netweave.Common.Lists.{All}

abbrev pub Map {ℓ} : Type ℓ → Type ℓ
Map V = List (String × V)

module _ {ℓ} {V : Type ℓ} where
  -- m[key], with `none` for a missing key
  unfoldable pub lookup : String → Map V → Option V
  lookup key [] = none
  lookup key ((k, v) ∷ rest) = if k == key then some v else lookup key rest

  -- m[key] = value; an old entry keeps its place
  unfoldable pub insert : String → V → Map V → Map V
  insert key value [] = (key, value) ∷ []
  insert key value ((k, v) ∷ rest) =
      let kept = (k, v) ∷ insert key value rest in if k == key then (key, value) ∷ rest else kept

  -- delete(m, key)
  unfoldable pub erase : String → Map V → Map V
  erase key [] = []
  erase key ((k, v) ∷ rest) =
      let others = erase key rest in if k == key then others else (k, v) ∷ others

  pub lookup-insert :
      (key j : String) (value : V) (m : Map V)
      → lookup j (insert key value m) ≡ (if key == j then some value else lookup j m)
  unfolding insert lookup
  lookup-insert key j value [] = refl
  lookup-insert key j value ((k, v) ∷ rest) =
      ground (arith, lookup-insert key j value rest, eq_iff k key, eq_iff k j, eq_iff key j)

  pub lookup-erase :
      (key j : String) (m : Map V)
      → lookup j (erase key m) ≡ (if key == j then none else lookup j m)
  unfolding erase lookup
  lookup-erase key j [] = ground arith
  lookup-erase key j ((k, v) ∷ rest) =
      ground (arith, lookup-erase key j rest, eq_iff k key, eq_iff k j, eq_iff key j)

  -- No key twice, as in every Go map.
  abbrev pub Unique : Map V → Type ℓ
  Unique [] = Unit
  Unique ((k, v) ∷ m) = (lookup k m ≡ none) × Unique m

  pub insert-Unique : (k : String) (v : V) (m : Map V) → Unique m → Unique (insert k v m)
  unfolding insert lookup
  insert-Unique k v [] u = (refl, tt)
  insert-Unique k v ((j, w) ∷ m) u =
      ground (arith, eq_iff j k, eq_iff k j, insert-Unique k v m u.1, lookup-insert k j v m)

  pub erase-Unique : (k : String) (m : Map V) → Unique m → Unique (erase k m)
  unfolding erase
  erase-Unique k [] u = tt
  erase-Unique k ((j, w) ∷ m) u = ground (arith, erase-Unique k m u.1, lookup-erase k j m)

  -- What holds of each key's value holds of each entry.
  pub All-of_lookup {κ} :
      (P : String → V → Type κ) (m : Map V)
      → Unique m
      → ((k : String) (v : V) → lookup k m ≡ some v → P k v)
      → All (λ e. P e.0 e.1) m
  unfolding lookup
  All-of_lookup P [] u h = tt
  All-of_lookup P ((j, w) ∷ m) u h =
      (h j w (rw (eq_refl j)), All-of_lookup P m u.1 (λ k v e. h k v (ground (arith, eq_iff j k))))
