-- ===== src/Settings/Checks.antt =====
-- internal/config/config.go: when a chain of checks passes. Each lemma reads one Boolean condition
-- of the code, or one way to join checks, as a proposition.
use netweave.Common.{
  contains_iff, ℕ, String, ◌≡◌, ◌≢◌, ◌↔◌, refl, inl, inr, Bool, true, false, not, ◌&&◌, List, arith,
  ◌==◌, eq_iff, contains, Among, ok, err, ◌>>◌, reject_if, ℤ, pos, ltb_ℤ, ◌≤ℤ◌, ltb_ℤ-false,
  Bool-cases,
}
use netweave.Settings.{Check, ConfigError, outside, when}

abbrev pub Passes : Check → Type 0
Passes m = m ≡ ok tt

abbrev pub IsWithin : ℕ → ℕ → ℤ → Type 0
IsWithin low high n = pos low ≤ℤ n × n ≤ℤ pos high

>>_iff :
    (m k : Check) {P Q : Type 0} → (Passes m ↔ P) → (Passes k ↔ Q) → (Passes (m >> k) ↔ (P × Q))
>>_iff (ok tt) k p q = (λ h. (p.0 refl, q.0 h), λ h. q.1 h.1)
>>_iff (err e) k p q = (λ h. absurd (ground (arith, h)), λ h. absurd (ground (arith, p.1 h.0)))

-- One check after another.
infixr 6 ◌⨾◌
pub ◌⨾◌ :
    {m k : Check} {P Q : Type 0} → (Passes m ↔ P) → (Passes k ↔ Q) → (Passes (m >> k) ↔ (P × Q))
◌⨾◌ {m} {k} p q = >>_iff m k p q

reject_if_iff :
    (b : Bool) (e : ConfigError) {P : Type 0} → ((b ≡ false) ↔ P) → (Passes (reject_if b e) ↔ P)
reject_if_iff true e p = (λ h. absurd (ground (arith, h)), λ h. absurd (ground (arith, p.1 h)))
reject_if_iff false e p = (λ h. p.0 refl, λ h. refl)

pub reject_iff :
    {b : Bool} (e : ConfigError) {P : Type 0} → ((b ≡ false) ↔ P) → (Passes (reject_if b e) ↔ P)
reject_iff {b} e p = reject_if_iff b e p

pub when_iff :
    (b : Bool) (m : Check) {P : Type 0} → (Passes m ↔ P) → (Passes (when b m) ↔ (b ≡ true → P))
when_iff true m p = (λ h _. p.0 h, λ h. p.1 (h refl))
when_iff false m p = (λ h e. absurd (ground (arith, e)), λ h. refl)

pub false_iff : (b : Bool) → (b ≡ false) ↔ (b ≡ false)
false_iff b = (λ h. h, λ h. h)

pub not_iff : (b : Bool) → (not b ≡ false) ↔ (b ≡ true)
not_iff true = (λ h. refl, λ h. refl)
not_iff false = (λ h. ground (arith, h), λ h. ground (arith, h))

pub ne_iff : (s t : String) → ((s == t) ≡ false) ↔ (s ≢ t)
ne_iff s t = (
  λ h e. absurd (ground (arith, h, (eq_iff s t).1 e)),
  λ h. elim (Bool-cases (s == t)) [ inl e ↦ absurd (h ((eq_iff s t).0 e)) | inr e ↦ e ],
)

pub not_eq_iff : (s t : String) → (not (s == t) ≡ false) ↔ (s ≡ t)
not_eq_iff s t =
    (λ h. (eq_iff s t).0 ((not_iff (s == t)).0 h), λ e. (not_iff (s == t)).1 ((eq_iff s t).1 e))

pub member_iff : (xs : List String) (s : String) → (not (contains xs s) ≡ false) ↔ Among s xs
member_iff xs s = (
  λ h. (contains_iff xs s).0 ((not_iff (contains xs s)).0 h),
  λ h. (not_iff (contains xs s)).1 ((contains_iff xs s).1 h),
)

pub ltb_ℤ_iff : (a b : ℤ) → (ltb_ℤ a b ≡ false) ↔ (b ≤ℤ a)
ltb_ℤ_iff a b = (ltb_ℤ-false a b, λ h. ground arith)

pub outside_iff : (low high : ℕ) (n : ℤ) → (outside low high n ≡ false) ↔ IsWithin low high n
outside_iff low high n = (λ h. ground (arith, h), λ h. ground arith)

-- a && b, rejected: where the first holds, the second does not.
pub &&_iff :
    (a b : Bool) {P Q : Type 0}
    → ((a ≡ true) ↔ P)
    → ((b ≡ false) ↔ Q)
    → (((a && b) ≡ false) ↔ (P → Q))
&&_iff true b p q = (λ h _. q.0 h, λ h. q.1 (h (p.0 refl)))
&&_iff false b p q = (λ h x. absurd (ground (arith, p.1 x)), λ h. refl)

-- if s != t { check }
pub unless_iff :
    (s t : String) {m : Check} {P : Type 0}
    → (Passes m ↔ P)
    → (Passes (when (not (s == t)) m) ↔ (s ≢ t → P))
unless_iff s t {m} p = elim (Bool-cases (s == t)) [
  | inl e ↦ (λ h n. absurd (n ((eq_iff s t).0 e)), λ h. rw e refl)
  | inr e ↦ (λ h n. p.0 (rw e at h), λ h. rw e (p.1 (h (λ q. ground (arith, e, (eq_iff s t).1 q)))))
]
