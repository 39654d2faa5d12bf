-- ===== src/Query/Text/Laws.antt =====
-- strings: Split gives back what Join has joined, and SplitN the two sides of the separator.
use Prim.Native.Char.{Char, code}
use Prim.Native.String.{◌++◌}
use Prim.Native.String.append
use netweave.Common.{ℕ, String, ◌≡◌, refl, ap, ◌∙◌, true, false, some, List, [], ◌∷◌, eqb, All}
use netweave.Query.Text.{split, cut, join}

-- The character does not stand in the text.
abbrev pub Lacks : ℕ → String → Type 0
Lacks sep String.[] = Unit
Lacks sep (String.◌∷◌ c s) = (eqb (code c) sep ≡ false) × Lacks sep s

pub Lacks-append : (sep : ℕ) (s t : String) → Lacks sep s → Lacks sep t → Lacks sep (s ++ t)
Lacks-append sep String.[] t h k = rw (append.nil t) k
Lacks-append sep (String.◌∷◌ c s) t h k = rw (append.cons c s t) (h.0, Lacks-append sep s t h.1 k)

split-Lacks : (sep : ℕ) (s : String) → Lacks sep s → split sep s ≡ s ∷ []
unfolding split
split-Lacks sep String.[] h = refl
split-Lacks sep (String.◌∷◌ c s) h = rw (h.0, split-Lacks sep s h.1) refl

split-append :
    (sep : ℕ) (d : Char) (s t : String)
    → Lacks sep s
    → eqb (code d) sep ≡ true
    → split sep (s ++ String.◌∷◌ d t) ≡ s ∷ split sep t
unfolding split
split-append sep d String.[] t h e = rw (append.nil (String.◌∷◌ d t), e) refl
split-append sep d (String.◌∷◌ c s) t h e =
    rw (append.cons c s (String.◌∷◌ d t), h.0, split-append sep d s t h.1 e) refl

pub cut-append :
    (sep : ℕ) (d : Char) (k v : String)
    → Lacks sep k
    → eqb (code d) sep ≡ true
    → cut sep (k ++ String.◌∷◌ d v) ≡ some (k, v)
unfolding cut
cut-append sep d String.[] v h e = rw (append.nil (String.◌∷◌ d v), e) refl
cut-append sep d (String.◌∷◌ c k) v h e =
    rw (append.cons c k (String.◌∷◌ d v), h.0, cut-append sep d k v h.1 e) refl

pub char_append : (d : Char) (t : String) → String.◌∷◌ d "" ++ t ≡ String.◌∷◌ d t
char_append d t = append.cons d "" t ∙ ap (String.◌∷◌ d) (append.nil t)

pub split-join :
    (sep : ℕ) (d : Char) (w : String) (ws : List String)
    → eqb (code d) sep ≡ true
    → All (Lacks sep) (w ∷ ws)
    → split sep (join (String.◌∷◌ d "") (w ∷ ws)) ≡ w ∷ ws
unfolding join
split-join sep d w [] e h = split-Lacks sep w h.0
split-join sep d w (v ∷ ws) e h =
    ap (λ t. split sep (w ++ t)) (char_append d (join (String.◌∷◌ d "") (v ∷ ws)))
    ∙ split-append sep d w (join (String.◌∷◌ d "") (v ∷ ws)) h.0 e
    ∙ ap (λ rest. w ∷ rest) (split-join sep d v ws e h.1)
