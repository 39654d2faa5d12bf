-- ===== src/Common/Texts.antt =====
-- Tests on texts by their code points, as Go's `strings` package makes them on bytes; on well-formed
-- UTF-8 the two agree.
use Prim.Native.Char.{code}
use Prim.Native.Nat.{ℕ, ◌-◌, ◌+◌}
use Prim.Native.String.{String}
use mathlib.Core.Path.{◌≡◌, refl, ap, sym, ◌∙◌}
use mathlib.Core.Bool.{Bool, true, false, ◌&&◌, ◌||◌}
use mathlib.Core.List.{List, [], ◌∷◌, ◌++◌}
use mathlib.Core.Logic.{inl, inr}
use native.Mathlib.Omega.{arith}
use netweave.Common.Tests.{eqb, leb, Bool-cases}
use netweave.Common.Lists.{length, take, drop, length-append, take-append-drop}

-- The code points of a text.
abbrev pub codes : String → List ℕ
codes String.[] = []
codes (String.◌∷◌ c s) = code c ∷ codes s

pub same_codes : List ℕ → List ℕ → Bool
same_codes [] [] = true
same_codes (a ∷ s) (b ∷ t) = eqb a b && same_codes s t
same_codes _ _ = false

-- strings.HasPrefix
unfoldable pub starts : List ℕ → List ℕ → Bool
starts s [] = true
starts [] (b ∷ t) = false
starts (a ∷ s) (b ∷ t) = eqb a b && starts s t

-- strings.HasSuffix: s[len(s)-len(t):] == t if t is not longer than s
pub ends : List ℕ → List ℕ → Bool
ends s t = leb (length t) (length s) && same_codes (drop (length s - length t) s) t

-- strings.Contains
unfoldable pub occurs : List ℕ → List ℕ → Bool
occurs [] t = starts [] t
occurs (a ∷ s) t = starts (a ∷ s) t || occurs s t

pub same_codes_iff :
    (s t : List ℕ) → (same_codes s t ≡ true → s ≡ t) × (s ≡ t → same_codes s t ≡ true)
unfolding same_codes
same_codes_iff [] [] = (λ _. refl, λ _. refl)
same_codes_iff [] (b ∷ t) = (λ h. absurd (ground arith), λ e. absurd (ground arith))
same_codes_iff (a ∷ s) [] = (λ h. absurd (ground arith), λ e. absurd (ground arith))
same_codes_iff (a ∷ s) (b ∷ t) =
    (λ h. ground (arith, same_codes_iff s t), λ e. ground (arith, same_codes_iff s t))

pub starts_iff :
    (s t : List ℕ)
    → (starts s t ≡ true → (rest : List ℕ) × (s ≡ t ++ rest))
      × ((rest : List ℕ) → s ≡ t ++ rest → starts s t ≡ true)
unfolding starts
starts_iff s [] = (λ _. (s, refl), λ _ _. refl)
starts_iff [] (b ∷ t) = (λ h. absurd (ground arith), λ rest e. absurd (ground arith))
starts_iff (a ∷ s) (b ∷ t) = (
  λ h.
      let (rest, e) = (starts_iff s t).0 (ground arith) in
      let first : a ≡ b = ground arith in (rest, ground (arith, e, first)),
  λ rest e. ground (arith, (starts_iff s t).1 rest),
)

pub occurs_sound :
    (s t : List ℕ)
    → occurs s t ≡ true
    → (front : List ℕ) × (rest : List ℕ) × (s ≡ front ++ (t ++ rest))
unfolding occurs
occurs_sound [] t h = let (rest, e) = (starts_iff [] t).0 h in ([], rest, e)
occurs_sound (a ∷ s) t h = elim (Bool-cases (starts (a ∷ s) t)) [
  | inl b ↦ let (rest, e) = (starts_iff (a ∷ s) t).0 b in ([], rest, e)
  | inr b ↦
      let (front, rest, e) = occurs_sound s t (ground arith) in (a ∷ front, rest, ap (◌∷◌ a) e)
]

pub occurs_complete : (s t front rest : List ℕ) → s ≡ front ++ (t ++ rest) → occurs s t ≡ true
unfolding occurs
occurs_complete [] t [] rest e = (starts_iff [] t).1 rest e
occurs_complete [] t (b ∷ front) rest e = absurd (ground arith)
occurs_complete (a ∷ s) t [] rest e =
    let first : starts (a ∷ s) t ≡ true = (starts_iff (a ∷ s) t).1 rest e in ground arith
occurs_complete (a ∷ s) t (b ∷ front) rest e =
    let later : occurs s t ≡ true = occurs_complete s t front rest (ground arith) in ground arith

drop-length-append : (front t : List ℕ) → drop (length front) (front ++ t) ≡ t
drop-length-append [] t = refl
drop-length-append (a ∷ front) t = drop-length-append front t

pub ends_sound : (s t : List ℕ) → ends s t ≡ true → (front : List ℕ) × (s ≡ front ++ t)
unfolding ends
ends_sound s t h =
    let n = length s - length t in
    let same : drop n s ≡ t = (same_codes_iff (drop n s) t).0 (ground arith) in
    (take n s, sym (take-append-drop n s) ∙ ap (take n s ++◌) same)

pub ends_complete : (s t front : List ℕ) → s ≡ front ++ t → ends s t ≡ true
unfolding ends
ends_complete s t front e =
    let long : length s ≡ length front + length t = ap length e ∙ length-append front t in
    let count : length s - length t ≡ length front = omega arith in
    let same : drop (length s - length t) s ≡ t =
      ap (λ k. drop k s) count ∙ ap (drop (length front)) e ∙ drop-length-append front t in
    ground (arith, (same_codes_iff (drop (length s - length t) s) t).1)
