-- ===== src/Query/Text/Decimals.antt =====
-- strconv: Atoi reads what Itoa writes.
use Prim.Native.Char.{code}
use Prim.Native.Nat.{◌*◌, ◌/◌}
use netweave.Common.{
  ℕ, zero, suc, ◌+◌, ◌%◌, ◌≤◌, ◌<◌, String, ◌≡◌, refl, ap, ◌∙◌, inl, inr, true, false, some, arith,
  ltb, leb, eqb, pos, Bool-cases,
}
use netweave.Query.Text.{digit, write, read, atoi, itoa, max_int}

code-digit : (d : ℕ) → d < 10 → code (digit d) ≡ 48 + d
code-digit zero h = refl
code-digit (suc zero) h = refl
code-digit (suc (suc zero)) h = refl
code-digit (suc (suc (suc zero))) h = refl
code-digit (suc (suc (suc (suc zero)))) h = refl
code-digit (suc (suc (suc (suc (suc zero))))) h = refl
code-digit (suc (suc (suc (suc (suc (suc zero)))))) h = refl
code-digit (suc (suc (suc (suc (suc (suc (suc zero))))))) h = refl
code-digit (suc (suc (suc (suc (suc (suc (suc (suc zero)))))))) h = refl
code-digit (suc (suc (suc (suc (suc (suc (suc (suc (suc n))))))))) h =
    let last : n ≡ 0 = omega arith in ap (λ k. 57 + k) (refl {a = 0}) ∙ omega arith

-- 10 ^ rounds
abbrev bound : ℕ → ℕ
bound zero = 1
bound (suc r) = 10 * bound r

read-digit :
    (d m : ℕ) (out : String) → d < 10 → read (String.◌∷◌ (digit d) out) m ≡ read out (m * 10 + d)
unfolding read
read-digit d m out h =
    let e = code-digit d h in
    let low : leb 48 (code (digit d)) ≡ true = ground (arith, e) in
    let high : leb (code (digit d)) 57 ≡ true = ground (arith, e) in
    rw (low, high) (ap (λ k. read out (m * 10 + k)) (omega (arith, e)))

read-write : (r n : ℕ) (out : String) → n < bound r → read (write r n out) 0 ≡ read out n
unfolding write
read-write zero n out h = ap (read out) (omega arith)
read-write (suc r) n out h = elim (Bool-cases (ltb n 10)) [
  | inl b ↦ rw b (read-digit n 0 out (ground (arith, b)) ∙ ap (read out) (omega arith))
  | inr b ↦ rw b (
      read-write r (n / 10) (String.◌∷◌ (digit (n % 10)) out) (omega arith)
      ∙ read-digit (n % 10) (n / 10) out (omega arith)
      ∙ ap (read out) (omega arith))
]

-- It begins with a digit.
abbrev Starts : String → Type 0
Starts String.[] = ⊥
Starts (String.◌∷◌ c s) = 48 ≤ code c

write-Starts : (r n : ℕ) (out : String) → Starts out → Starts (write r n out)
unfolding write
write-Starts zero n out h = h
write-Starts (suc r) n out h = elim (Bool-cases (ltb n 10)) [
  | inl b ↦ rw b (omega (arith, code-digit n (ground (arith, b))))
  | inr b ↦ rw b (
      write-Starts r (n / 10) (String.◌∷◌ (digit (n % 10)) out)
        (omega (arith, code-digit (n % 10) (omega arith))))
]

write_one-Starts : (r n : ℕ) → Starts (write (suc r) n "")
unfolding write
write_one-Starts r n = elim (Bool-cases (ltb n 10)) [
  | inl b ↦ rw b (omega (arith, code-digit n (ground (arith, b))))
  | inr b ↦ rw b (
      write-Starts r (n / 10) (String.◌∷◌ (digit (n % 10)) "")
        (omega (arith, code-digit (n % 10) (omega arith))))
]

atoi-read :
    (s : String) (n : ℕ) → Starts s → read s 0 ≡ some n → n ≤ max_int → atoi s ≡ some (pos n)
unfolding atoi
atoi-read String.[] n h e l = absurd h
atoi-read (String.◌∷◌ c s) n h e l =
    let plus : eqb (code c) 43 ≡ false = ground arith in
    let minus : eqb (code c) 45 ≡ false = ground arith in
    let fits : leb n max_int ≡ true = ground arith in rw (plus, minus, e, fits) refl

read-nil : (n : ℕ) → read "" n ≡ some n
unfolding read
read-nil n = refl

-- A number that is not negative and fits an `int` is read back from its decimal digits.
pub atoi-itoa : (n : ℕ) → n ≤ max_int → atoi (itoa (pos n)) ≡ some (pos n)
unfolding itoa
atoi-itoa n h =
    atoi-read (write 20 n "") n (write_one-Starts 19 n)
      (read-write 20 n "" (omega arith) ∙ read-nil n) h
