-- ===== src/Query/Labels.antt =====
-- internal/models/filters.go: reading back the labels of a filter.
use Prim.Native.String.{◌++◌}
use netweave.Common.{
  String, ◌≡◌, ◌≢◌, refl, sym, ap, ◌∙◌, subst, inl, inr, not, Option, none, some, List, [], ◌∷◌,
  arith, if◌then◌else◌, ◌==◌, All, String-cases, map, Map, lookup, insert, lookup-insert, Unique,
}
use netweave.Query.{first_of, label_pair, is_empty_list, put_label, put_labels}
use netweave.Query.Text.{split, join, cut, comma, colon, trim_space}
use netweave.Query.Text.Laws.{Lacks, Lacks-append, split-join, cut-append, char_append}
use netweave.Query.Parts.{IsWord}

-- The key has no colon, and neither side a comma or white space around it.
abbrev pub IsLabel : String × String → Type 0
IsLabel e = Lacks colon e.0 × IsWord e.0 × IsWord e.1

pairs_lack : (ls : Map String) → All IsLabel ls → All (Lacks comma) (map label_pair ls)
pairs_lack [] h = tt
pairs_lack ((k, v) ∷ ls) h = (
  Lacks-append comma k (":" ++ v) h.0.1.0 (Lacks-append comma ":" v (refl, tt) h.0.2.0),
  pairs_lack ls h.1,
)

cut-pair : (k v : String) → Lacks colon k → cut colon (label_pair (k, v)) ≡ some (k, v)
cut-pair k v h = ap (λ t. cut colon (k ++ t)) (char_append ":" v) ∙ cut-append colon ":" k v h refl

pair-ne-nil : (k v : String) → Lacks colon k → label_pair (k, v) ≢ ""
unfolding cut
pair-ne-nil k v h e = ground (arith, ap (cut colon) e, cut-pair k v h)

put_label-pair :
    (k v : String) (acc : Map String)
    → IsLabel (k, v)
    → put_label (cut colon (label_pair (k, v))) acc ≡ insert k v acc
put_label-pair k v acc h =
    ap (λ o. put_label o acc) (cut-pair k v h.0)
    ∙ ap (λ a. insert a (trim_space v) acc) h.1.1
    ∙ ap (λ b. insert k b acc) h.2.1

abbrev or_else : Option String → Option String → Option String
or_else none o = o
or_else (some v) o = some v

-- What the loop of parseLabels makes of the pairs.
put_labels-pairs :
    (ls acc : Map String) (j : String)
    → All IsLabel ls
    → Unique ls
    → lookup j (put_labels (map label_pair ls) acc) ≡ or_else (lookup j ls) (lookup j acc)
unfolding put_labels lookup
put_labels-pairs [] acc j h u = refl
put_labels-pairs ((k, v) ∷ ls) acc j h u =
    ap (λ a. lookup j (put_labels (map label_pair ls) a)) (put_label-pair k v acc h.0)
    ∙ put_labels-pairs ls (insert k v acc) j h.1 u.1
    ∙ elim (String-cases k j) [
      | inl (b, same) ↦
          let gone : lookup j ls ≡ none = subst (λ n. lookup n ls ≡ none) same u.0 in
          rw (b, gone, lookup-insert k j v acc, b) refl
      | inr (b, other) ↦ rw (b, lookup-insert k j v acc, b) refl
    ]

or_else-none : (o : Option String) → or_else o none ≡ o
or_else-none none = refl
or_else-none (some v) = refl

pub labels_back :
    (ls : Map String) (vs : List String) (j : String)
    → All IsLabel ls
    → Unique ls
    → vs ≡ (if not (is_empty_list ls) then join "," (map label_pair ls) ∷ [] else [])
    → lookup j (if first_of vs == "" then [] else put_labels (split comma (first_of vs)) [])
      ≡ lookup j ls
unfolding split lookup
labels_back [] vs j h u e = rw e refl
labels_back ((k, v) ∷ ls) vs j h u e =
    let whole = join "," (map label_pair ((k, v) ∷ ls)) in
    let parts : split comma whole ≡ map label_pair ((k, v) ∷ ls) =
      split-join comma "," (label_pair (k, v)) (map label_pair ls) refl
        (pairs_lack ((k, v) ∷ ls) h) in
    let given : first_of vs ≡ whole = ap first_of e in
    elim (String-cases whole "") [
      | inl (b, same) ↦
          let head : "" ∷ [] ≡ map label_pair ((k, v) ∷ ls) = ap (split comma) (sym same) ∙ parts in
          absurd (pair-ne-nil k v h.0.0 (ground (arith, head)))
      | inr (b, n) ↦
          rw (given, b, parts)
            (put_labels-pairs ((k, v) ∷ ls) [] j h u ∙ or_else-none (lookup j ((k, v) ∷ ls)))
    ]
