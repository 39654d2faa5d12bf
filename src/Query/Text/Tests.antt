-- ===== src/Query/Text/Tests.antt =====
-- Runs of the functions on texts.
use netweave.Common.{◌≡◌, refl, some, none, [], ◌∷◌, pos, negsuc}
use netweave.Query.Text.{split, cut, join, trim_space, itoa, atoi, comma, colon}

split_run : split comma "a,,b" ≡ "a" ∷ "" ∷ "b" ∷ []
unfolding split
split_run = refl

cut_run : cut colon "env:prod:x" ≡ some ("env", "prod:x")
unfolding cut
cut_run = refl

join_run : join "," ("a" ∷ "b" ∷ []) ≡ "a,b"
unfolding join
join_run = refl

trim_run : trim_space "  a b " ≡ "a b"
unfolding trim_space
trim_run = refl

itoa_run : itoa (pos 1040) ≡ "1040"
unfolding itoa
itoa_run = refl

atoi_run : atoi "-17" ≡ some (negsuc 16)
unfolding atoi
atoi_run = refl

atoi_overflow : atoi "9223372036854775808" ≡ none
unfolding atoi
atoi_overflow = refl

atoi_largest : atoi "+9223372036854775807" ≡ some (pos 9223372036854775807)
unfolding atoi
atoi_largest = refl

atoi_letter : atoi "12a" ≡ none
unfolding atoi
atoi_letter = refl
