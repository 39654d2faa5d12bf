-- ===== src/Routing/Location.antt =====
-- internal/routing/routing.go, MatchesLocation: what the tests on a location mean.
use netweave.Common.{
  ℕ, String, ◌≡◌, ◌≢◌, inl, inr, Bool, true, false, not, List, ◌++◌, arith, if◌then◌else◌, refl,
  ◌==◌, eq_iff, codes, starts, ends, occurs, starts_iff, ends_sound, ends_complete, occurs_sound,
  occurs_complete, String-cases,
}
use netweave.Routing.{LocationCondition, matches_location}

-- What the criteria say, with the flags which of exact, prefix, suffix, contains is the first set.
abbrev pub Says : LocationCondition → String → Bool → Bool → Bool → Bool → Type 0
Says c location true _ _ _ = location ≡ c.exact
Says c location false true _ _ = (rest : List ℕ) × (codes location ≡ codes c.starting ++ rest)
Says c location false false true _ = (front : List ℕ) × (codes location ≡ front ++ codes c.ending)
Says c location false false false true =
    (front : List ℕ) × (rest : List ℕ) × (codes location ≡ front ++ (codes c.containing ++ rest))
Says c location false false false false = Unit

-- The location meets the first of the criteria that is not empty.
abbrev pub Meets : LocationCondition → String → Type 0
Meets c location =
    Says c location (not (c.exact == "")) (not (c.starting == "")) (not (c.ending == ""))
      (not (c.containing == ""))

-- The tests, with the same flags.
abbrev says : LocationCondition → String → Bool → Bool → Bool → Bool → Bool
says c location has_exact has_start has_end has_inside =
    if has_exact
    then location == c.exact
    else if has_start
    then starts (codes location) (codes c.starting)
    else if has_end
    then ends (codes location) (codes c.ending)
    else if has_inside
    then occurs (codes location) (codes c.containing)
    else true

says_iff :
    (c : LocationCondition) (location : String) (x s e i : Bool)
    → (says c location x s e i ≡ true → Says c location x s e i)
      × (Says c location x s e i → says c location x s e i ≡ true)
says_iff c location true _ _ _ = ((eq_iff location c.exact).0, (eq_iff location c.exact).1)
says_iff c location false true _ _ = (
  (starts_iff (codes location) (codes c.starting)).0,
  λ (rest, e). (starts_iff (codes location) (codes c.starting)).1 rest e,
)
says_iff c location false false true _ = (
  ends_sound (codes location) (codes c.ending),
  λ (front, e). ends_complete (codes location) (codes c.ending) front e,
)
says_iff c location false false false true = (
  occurs_sound (codes location) (codes c.containing),
  λ (front, rest, e). occurs_complete (codes location) (codes c.containing) front rest e,
)
says_iff c location false false false false = (λ _. tt, λ _. refl)

-- A location matches exactly if it is not empty and meets the first criterion that is set: it is
-- the exact text, it begins with the prefix, it ends in the suffix, or it has the text inside; and
-- each location that is not empty matches if none is set.
pub matches_location_iff :
    (c : LocationCondition) (location : String)
    → (matches_location c location ≡ true → (location ≢ "") × Meets c location)
      × (location ≢ "" → Meets c location → matches_location c location ≡ true)
unfolding matches_location
matches_location_iff c location = elim (String-cases location "") [
  | inl (b, same) ↦ (λ h. absurd (ground arith), λ other m. absurd (other same))
  | inr (b, other) ↦
      let (to, from) =
        says_iff c location (not (c.exact == "")) (not (c.starting == "")) (not (c.ending == ""))
          (not (c.containing == "")) in
      (λ h. (other, to (rw b at h)), λ _ m. rw b (from m))
]
