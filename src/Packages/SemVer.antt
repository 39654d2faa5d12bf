-- ===== src/Packages/SemVer.antt =====
-- internal/dms/storage/packages.go, ValidateSemVer: the regular expression
-- `^v?(\d+)(\.\d+)?(\.\d+)?(-[a-zA-Z0-9.-]+)?(\+[a-zA-Z0-9.-]+)?$`, matched from left to right.
-- No two of its parts can begin with the same character where both are allowed, but for the two
-- numbers after a dot, so the matcher never has to go back.
use netweave.Common.{
  ℕ, String, ◌≡◌, refl, Bool, true, false, ◌&&◌, ◌||◌, Option, none, some, List, [], ◌∷◌, leb, eqb,
  if◌then◌else◌, codes,
}

-- \d
abbrev pub is_digit : ℕ → Bool
is_digit c = leb b'0' c && leb c b'9'

-- [a-zA-Z0-9.-]
abbrev pub is_label : ℕ → Bool
is_label c =
    (leb b'a' c && leb c b'z')
    || (leb b'A' c && leb c b'Z')
    || is_digit c
    || eqb c b'.'
    || eqb c b'-'

abbrev pub skip_while : (ℕ → Bool) → List ℕ → List ℕ
skip_while p [] = []
skip_while p (c ∷ s) = if p c then skip_while p s else c ∷ s

-- `p+`: what is left behind the longest run, if the run is not empty.
abbrev pub skip_run : (ℕ → Bool) → List ℕ → Option (List ℕ)
skip_run p [] = none
skip_run p (c ∷ s) = if p c then some (skip_while p s) else none

abbrev pub or_else : Option (List ℕ) → List ℕ → List ℕ
or_else none s = s
or_else (some t) s = t

-- `(mark p+)?`
abbrev pub skip_group : ℕ → (ℕ → Bool) → List ℕ → List ℕ
skip_group mark p [] = []
skip_group mark p (c ∷ s) = if eqb c mark then or_else (skip_run p s) (c ∷ s) else c ∷ s

-- `v?`
abbrev pub skip_v : List ℕ → List ℕ
skip_v [] = []
skip_v (c ∷ s) = if eqb c b'v' then s else c ∷ s

abbrev pub is_nil : List ℕ → Bool
is_nil [] = true
is_nil (c ∷ s) = false

-- the parts behind the first number
abbrev pub match_tail : Option (List ℕ) → Bool
match_tail none = false
match_tail (some s) = is_nil (
    skip_group b'+' is_label
      (skip_group b'-' is_label (skip_group b'.' is_digit (skip_group b'.' is_digit s))))

unfoldable pub validate_sem_ver : String → Bool
validate_sem_ver version = match_tail (skip_run is_digit (skip_v (codes version)))

accepts : validate_sem_ver "v1.2.3-beta.1+build-7" ≡ true
unfolding validate_sem_ver
accepts = refl

rejects : validate_sem_ver "1.2.3.4" ≡ false
unfolding validate_sem_ver
rejects = refl
