-- ===== src/Query/Text.antt =====
-- What internal/models/filters.go uses of Go's packages `strings` and `strconv`.
pub mod Laws
pub mod Decimals
mod Tests
use Prim.Native.Char.{Char, code}
use Prim.Native.Nat.{◌*◌, ◌/◌, ◌^◌}
use Prim.Native.String.{◌++◌}
use netweave.Common.{
  ℕ, zero, suc, ◌+◌, ◌-◌, ◌%◌, String, Bool, true, false, ◌&&◌, ◌||◌, Option, none, some, List, [],
  ◌∷◌, ltb, leb, eqb, if◌then◌else◌, ◌==◌, ℤ, pos, negsuc,
}

abbrev pub comma : ℕ
comma = 44

abbrev pub colon : ℕ
colon = 58

abbrev pub push : Char → List String → List String
push c [] = (String.◌∷◌ c "") ∷ []
push c (w ∷ ws) = (String.◌∷◌ c w) ∷ ws

-- strings.Split at one character
unfoldable pub split : ℕ → String → List String
split sep String.[] = "" ∷ []
split sep (String.◌∷◌ c s) =
    let rest = split sep s in if eqb (code c) sep then "" ∷ rest else push c rest

abbrev pub after_first : Char → Option (String × String) → Option (String × String)
after_first c none = none
after_first c (some (k, v)) = some (String.◌∷◌ c k, v)

-- strings.SplitN with at most two parts: `none` if there is one
unfoldable pub cut : ℕ → String → Option (String × String)
cut sep String.[] = none
cut sep (String.◌∷◌ c s) =
    let rest = cut sep s in if eqb (code c) sep then some ("", s) else after_first c rest

-- strings.Join
unfoldable pub join : String → List String → String
join sep [] = ""
join sep (w ∷ []) = w
join sep (w ∷ (v ∷ ws)) = w ++ (sep ++ join sep (v ∷ ws))

-- unicode.IsSpace
abbrev is_space : ℕ → Bool
is_space c =
    (leb 9 c && leb c 13)
    || eqb c 32
    || eqb c 0x85
    || eqb c 0xa0
    || eqb c 0x1680
    || (leb 0x2000 c && leb c 0x200a)
    || eqb c 0x2028
    || eqb c 0x2029
    || eqb c 0x202f
    || eqb c 0x205f
    || eqb c 0x3000

pub trim_left : String → String
trim_left String.[] = ""
trim_left (String.◌∷◌ c s) =
    let rest = trim_left s in if is_space (code c) then rest else String.◌∷◌ c s

pub trim_right : String → String
trim_right String.[] = ""
trim_right (String.◌∷◌ c s) =
    let rest = trim_right s in if is_space (code c) && rest == "" then "" else String.◌∷◌ c rest

-- strings.TrimSpace
unfoldable pub trim_space : String → String
unfolding trim_left trim_right
trim_space s = trim_right (trim_left s)

abbrev pub digit : ℕ → Char
digit zero = "0"
digit (suc zero) = "1"
digit (suc (suc zero)) = "2"
digit (suc (suc (suc zero))) = "3"
digit (suc (suc (suc (suc zero)))) = "4"
digit (suc (suc (suc (suc (suc zero))))) = "5"
digit (suc (suc (suc (suc (suc (suc zero)))))) = "6"
digit (suc (suc (suc (suc (suc (suc (suc zero))))))) = "7"
digit (suc (suc (suc (suc (suc (suc (suc (suc zero)))))))) = "8"
digit (suc (suc (suc (suc (suc (suc (suc (suc (suc n))))))))) = "9"

-- The digits of a number below 10 ^ rounds, before those that are written already.
pub write : ℕ → ℕ → String → String
write zero n out = out
write (suc rounds) n out =
    let rest = write rounds (n / 10) (String.◌∷◌ (digit (n % 10)) out) in
    if ltb n 10 then String.◌∷◌ (digit n) out else rest

-- strconv.Itoa; an `int` has at most 19 digits
unfoldable pub itoa : ℤ → String
unfolding write
itoa (pos n) = write 20 n ""
itoa (negsuc n) = String.◌∷◌ "-" (write 20 (suc n) "")

pub read : String → ℕ → Option ℕ
read String.[] n = some n
read (String.◌∷◌ c s) n =
    let rest = read s (n * 10 + (code c - 48)) in
    if leb 48 (code c) && leb (code c) 57 then rest else none

abbrev read_all : String → Option ℕ
read_all String.[] = none
read_all (String.◌∷◌ c s) = read (String.◌∷◌ c s) 0

abbrev pub max_int : ℕ
max_int = 2 ^ 63 - 1

abbrev positive : Option ℕ → Option ℤ
positive none = none
positive (some n) = if leb n max_int then some (pos n) else none

abbrev negative : Option ℕ → Option ℤ
negative none = none
negative (some zero) = some (pos 0)
negative (some (suc n)) = if leb n max_int then some (negsuc n) else none

abbrev signed : ℕ → String → String → Option ℤ
signed c s all =
    if eqb c 43
    then positive (read_all s)
    else if eqb c 45
    then negative (read_all s)
    else positive (read_all all)

-- strconv.Atoi, with `none` for an error
unfoldable pub atoi : String → Option ℤ
unfolding read
atoi String.[] = none
atoi (String.◌∷◌ c s) = signed (code c) s (String.◌∷◌ c s)
