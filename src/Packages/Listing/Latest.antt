-- ===== src/Packages/Listing/Latest.antt =====
-- internal/dms/storage/packages.go: which package `List` takes for the latest of a name, and when it
-- reads a nil pointer.
use netweave.Common.{
  ℕ, ◌≤◌, String, ◌≡◌, refl, inl, inr, true, false, Option, none, some, List, [], ◌∷◌, ◌⊎◌, arith,
  contains, Map, lookup, eq_refl, String-cases, Option-cases, Bool-cases, ok, err, sym, ◌∙◌, ap,
  >>=-eq-ok, ltb,
}
use netweave.Packages.{Package, PackageFilter, panicked}
use netweave.Packages.Listing.{other_type, reads_type, newer, later_package, find_latest_package}

-- A candidate at least as new as `n`.
abbrev pub AtLeast : ℕ → Option Package → Type 0
AtLeast n r = (m : Package) × (r ≡ some m) × (n ≤ m.uploaded_at)

-- Every identifier of the list has a package.
abbrev pub Present : Map Package → List String → Type 0
Present ps ids = (id : String) → contains ids id ≡ true → (p : Package) × (lookup id ps ≡ some p)

-- The loop does not panic on present packages, whatever it starts with.
pub find_latest_package-total :
    (ps : Map Package) (filter : Option PackageFilter) (ids : List String) (latest : Option Package)
    → Present ps ids
    → (r : Option Package) × (find_latest_package ps filter ids latest ≡ ok r)
unfolding find_latest_package later_package
find_latest_package-total ps filter [] latest h = (latest, refl)
find_latest_package-total ps filter (id ∷ ids) latest h =
    let (p, e) = h id (ground (arith, eq_refl id)) in
    rw e (find_latest_package-total ps filter ids _ (λ j c. h j (ground arith)))

-- An identifier without a package makes the loop panic, if the filter names a type.
pub find_latest_package-panics :
    (ps : Map Package) (filter : Option PackageFilter) (ids : List String) (latest : Option Package)
    (id : String)
    → reads_type filter ≡ true
    → contains ids id ≡ true
    → lookup id ps ≡ none
    → find_latest_package ps filter ids latest ≡ err panicked
unfolding find_latest_package later_package
find_latest_package-panics ps filter [] latest id r c e = cc
find_latest_package-panics ps filter (x ∷ ids) latest id r c e = elim (String-cases x id) [
  | inl (t, same) ↦ ground (arith, Option-cases latest)
  | inr (f, _) ↦ elim (Option-cases (lookup x ps)) [
    | inl missed ↦ ground (arith, Option-cases latest)
    | inr (q, hit) ↦ rw hit (find_latest_package-panics ps filter ids _ id r (ground arith) e)
  ]
]

-- One round keeps the candidate or takes a newer one.
later_package-keeps :
    (filter : Option PackageFilter) (next : Option Package) (p : Package) {r : Option Package}
    → later_package filter next (some p) ≡ ok r
    → AtLeast p.uploaded_at r
unfolding later_package
later_package-keeps filter none p h = absurd (ground arith)
later_package-keeps filter (some q) p h = elim (Bool-cases (other_type filter q)) [
  | inl other ↦ (p, ground arith, omega arith)
  | inr fits ↦ elim (Bool-cases (ltb p.uploaded_at q.uploaded_at)) [
    | inl newer ↦ (q, ground arith, ground arith)
    | inr older ↦ (p, ground arith, omega arith)
  ]
]

-- One round reaches a package of the type.
later_package-reaches :
    (filter : Option PackageFilter) (q : Package) (latest : Option Package) {r : Option Package}
    → other_type filter q ≡ false
    → later_package filter (some q) latest ≡ ok r
    → AtLeast q.uploaded_at r
unfolding later_package
later_package-reaches filter q none f h = (q, ground arith, omega arith)
later_package-reaches filter q (some p) f h = elim (Bool-cases (ltb p.uploaded_at q.uploaded_at)) [
  | inl newer ↦ (q, ground arith, omega arith)
  | inr older ↦ (p, ground arith, ground arith)
]

-- One round takes nothing from elsewhere.
later_package-from :
    (filter : Option PackageFilter) (next latest : Option Package) {m : Package}
    → later_package filter next latest ≡ ok (some m)
    → (latest ≡ some m) ⊎ ((next ≡ some m) × (other_type filter m ≡ false))
unfolding later_package
later_package-from filter none latest h = absurd (ground (arith, Option-cases latest))
later_package-from filter (some q) latest h =
    ground (arith, Option-cases latest, Bool-cases (other_type filter q))

find_latest_package-keeps :
    (ps : Map Package) (filter : Option PackageFilter) (ids : List String) (p : Package)
    {r : Option Package}
    → find_latest_package ps filter ids (some p) ≡ ok r
    → AtLeast p.uploaded_at r
unfolding find_latest_package
find_latest_package-keeps ps filter [] p h = (p, ground arith, omega arith)
find_latest_package-keeps ps filter (x ∷ ids) p h =
    let (next, e, rest) = >>=-eq-ok (later_package filter (lookup x ps) (some p)) _ h in
    let (q, f, newer) = later_package-keeps filter (lookup x ps) p e in
    let (m, g, newest) = find_latest_package-keeps ps filter ids q (rw f at rest) in
    (m, g, omega arith)

find_latest_package-reaches :
    (ps : Map Package) (filter : Option PackageFilter) (ids : List String) (latest : Option Package)
    (j : String) (q : Package) {r : Option Package}
    → find_latest_package ps filter ids latest ≡ ok r
    → contains ids j ≡ true
    → lookup j ps ≡ some q
    → other_type filter q ≡ false
    → AtLeast q.uploaded_at r
unfolding find_latest_package
find_latest_package-reaches ps filter [] latest j q h c e f = cc
find_latest_package-reaches ps filter (x ∷ ids) latest j q h c e f =
    let (next, g, rest) = >>=-eq-ok (later_package filter (lookup x ps) latest) _ h in
    elim (String-cases x j) [
      | inl (t, same) ↦
          let (p, k, newer) =
            later_package-reaches filter q latest f (
              ap (λ o. later_package filter o latest) (sym (ap (λ i. lookup i ps) same ∙ e)) ∙ g) in
          let (m, l, newest) = find_latest_package-keeps ps filter ids p (rw k at rest) in
          (m, l, omega arith)
      | inr (t, _) ↦ find_latest_package-reaches ps filter ids next j q rest (ground arith) e f
    ]

find_latest_package-from :
    (ps : Map Package) (filter : Option PackageFilter) (ids : List String) (latest : Option Package)
    {m : Package}
    → find_latest_package ps filter ids latest ≡ ok (some m)
    → (latest ≡ some m)
      ⊎ ((id : String) × (contains ids id ≡ true)
          × (lookup id ps ≡ some m)
          × (other_type filter m ≡ false))
unfolding find_latest_package
find_latest_package-from ps filter [] latest h = inl (ground arith)
find_latest_package-from ps filter (x ∷ ids) latest {m} h =
    let (next, g, rest) = >>=-eq-ok (later_package filter (lookup x ps) latest) _ h in
    elim (find_latest_package-from ps filter ids next rest) [
      | inl e ↦ elim (later_package-from filter (lookup x ps) latest (rw e at g)) [
        | inl was ↦ inl was
        | inr (here, fits) ↦ inr (x, ground (arith, eq_refl x), here, fits)
      ]
      | inr (id, c, e, fits) ↦ inr (id, ground arith, e, fits)
    ]

-- If every identifier has a package, `findLatestPackage` returns without a fault: nothing if no
-- package is of the type that the filter names, and else one of them that none of them is newer
-- than.
pub find_latest_package-newest :
    (ps : Map Package) (filter : Option PackageFilter) (ids : List String)
    → Present ps ids
    → (r : Option Package) × (find_latest_package ps filter ids none ≡ ok r)
      × ((m : Package)
          → r ≡ some m
          → (id : String) × (contains ids id ≡ true)
            × (lookup id ps ≡ some m)
            × (other_type filter m ≡ false))
      × ((j : String) (q : Package)
          → contains ids j ≡ true
          → lookup j ps ≡ some q
          → other_type filter q ≡ false
          → AtLeast q.uploaded_at r)
find_latest_package-newest ps filter ids h =
    let (r, e) = find_latest_package-total ps filter ids none h in
    (
      r,
      e,
      λ m is. elim (find_latest_package-from ps filter ids none (e ∙ ap ok is)) [
        | inl bad ↦ cc
        | inr found ↦ found
      ],
      λ j q c f fits. find_latest_package-reaches ps filter ids none j q e c f fits,
    )
