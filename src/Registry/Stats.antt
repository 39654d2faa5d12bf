-- ===== src/Registry/Stats.antt =====
-- internal/registry/registry.go, Stats: the counters that it reports.
use netweave.Common.{
  ℕ, ◌+◌, String, ◌≡◌, refl, none, some, List, [], ◌∷◌, arith, length, Map, lookup, insert,
}
use netweave.Registry.{Plugin, Registry, values}

pub record Statistics : Type 0 where
  pub total_plugins : ℕ
  pub by_category : Map ℕ
  pub by_status : Map ℕ

-- the zero of a missing counter
abbrev count_at : String → Map ℕ → ℕ
count_at k m = elim (lookup k m) [ none ↦ 0 | some n ↦ n ]

-- byStatus[status]++, for each plugin of a category
pub count_statuses : List Plugin → Map ℕ → Map ℕ
count_statuses [] m = m
count_statuses (p ∷ ps) m = count_statuses ps (insert p.status (count_at p.status m + 1) m)

-- the round for one category
pub add_category : String → Map Plugin → Statistics → Statistics
add_category c ps s = record {
  total_plugins = s.total_plugins + length ps;
  by_category = insert c (length ps) s.by_category;
  by_status = count_statuses (values ps) s.by_status;
}

pub add_categories : Map (Map Plugin) → Statistics → Statistics
add_categories [] s = s
add_categories ((c, ps) ∷ m) s = add_categories m (add_category c ps s)

pub stats : Registry → Statistics
stats r = add_categories r.plugins (record { total_plugins = 0; by_category = []; by_status = [] })

abbrev pub total : Map ℕ → ℕ
total [] = 0
total ((k, n) ∷ m) = n + total m

total-insert : (k : String) (n : ℕ) (m : Map ℕ) → total (insert k n m) + count_at k m ≡ total m + n
unfolding insert lookup
total-insert k n [] = omega arith
total-insert k n ((j, i) ∷ m) = ground (arith, total-insert k n m)

total-count_statuses :
    (ps : List Plugin) (m : Map ℕ) → total (count_statuses ps m) ≡ total m + length ps
unfolding count_statuses
total-count_statuses [] m = omega arith
total-count_statuses (p ∷ ps) m = omega (
  arith,
  total-count_statuses ps (insert p.status (count_at p.status m + 1) m),
  total-insert p.status (count_at p.status m + 1) m,
)

length-values : (m : Map Plugin) → length (values m) ≡ length m
length-values [] = refl
length-values ((k, p) ∷ m) = omega (arith, length-values m)

add_categories-total :
    (m : Map (Map Plugin)) (s : Statistics)
    → total s.by_status ≡ s.total_plugins
    → total (add_categories m s).by_status ≡ (add_categories m s).total_plugins
unfolding add_categories add_category
add_categories-total [] s h = h
add_categories-total ((c, ps) ∷ m) s h =
    add_categories-total m _
      (omega (arith, total-count_statuses (values ps) s.by_status, length-values ps))

-- The counts by status add up to the total that is reported.
pub stats-total : (r : Registry) → total (stats r).by_status ≡ (stats r).total_plugins
unfolding stats
stats-total r = add_categories-total r.plugins _ refl
