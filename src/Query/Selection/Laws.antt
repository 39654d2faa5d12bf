-- ===== src/Query/Selection/Laws.antt =====
-- internal/models/filters.go, SelectFields: which keys the result has, and what a merge loses.
use netweave.Common.{
  String, ◌≡◌, ◌≢◌, ◌↔◌, refl, ap, ◌∙◌, ◌⊎◌, inl, inr, false, Option, none, some, List, [], ◌∷◌,
  arith, if◌then◌else◌, ◌==◌, eq_iff, eq_refl, Any, Fields, String-cases,
}
use netweave.Query.{Filter, is_empty_list}
use netweave.Query.Text.{split}
use netweave.Query.Selection.{
  dot, field_at, put_field, merge, put_found, nested_map, put_nested, select_field, select_each,
  select_fields,
}

field_at-put_field :
    (k j : String) (v : Any) (fs : Fields)
    → field_at j (put_field k v fs) ≡ (if k == j then some v else field_at j fs)
unfolding field_at put_field
field_at-put_field k j v Fields.end = refl
field_at-put_field k j v (Fields.field i w fs) =
    ground (arith, field_at-put_field k j v fs, eq_iff i k, eq_iff i j, eq_iff k j)

abbrev pub Has : Option Any → Type 0
Has none = ⊥
Has (some v) = Unit

-- The path leads from the key to a value, or to a map if it goes on.
abbrev pub Reaches : List String → Fields → String → Type 0
Reaches [] source k = ⊥
Reaches (key ∷ []) source k = (key ≡ k) × Has (field_at key source)
Reaches (key ∷ (next ∷ path)) source k =
    (key ≡ k) × ((m : Fields) × (field_at key source ≡ some (Any.obj m)))

abbrev pub SomeReaches : List String → Fields → String → Type 0
SomeReaches [] source k = ⊥
SomeReaches (w ∷ ws) source k = Reaches (split dot w) source k ⊎ SomeReaches ws source k

put_iff :
    (key k : String) (v : Any) (result : Fields)
    → Has (field_at k (put_field key v result)) ↔ (Has (field_at k result) ⊎ (key ≡ k))
put_iff key k v result = elim (String-cases key k) [
  | inl (b, e) ↦ (λ h. inr e, λ h. rw (field_at-put_field key k v result, b) tt)
  | inr (b, n) ↦ (
    λ h. inl (rw (field_at-put_field key k v result, b) at h),
    λ h. elim h [ inl x ↦ rw (field_at-put_field key k v result, b) x | inr e ↦ absurd (n e) ],
  )
]

put_found_iff :
    (o : Option Any) (key k : String) (result : Fields)
    → Has (field_at k (put_found o key result)) ↔ (Has (field_at k result) ⊎ ((key ≡ k) × Has o))
put_found_iff none key k result = (λ h. inl h, λ h. elim h [ inl x ↦ x | inr y ↦ absurd y.1 ])
put_found_iff (some v) key k result = (
  λ h. elim ((put_iff key k v result).0 h) [ inl x ↦ inl x | inr e ↦ inr (e, tt) ],
  λ h. (put_iff key k v result).1 (elim h [ inl x ↦ inl x | inr y ↦ inr y.0 ]),
)

abbrev IsMap : Option Any → Type 0
IsMap o = (m : Fields) × (o ≡ some (Any.obj m))

-- A value that is no map changes nothing.
unchanged_iff :
    (v : Any) (key k : String) (result : Fields)
    → ((m : Fields) → v ≢ Any.obj m)
    → Has (field_at k result) ↔ (Has (field_at k result) ⊎ ((key ≡ k) × IsMap (some v)))
unchanged_iff v key k result n =
    (λ h. inl h, λ h. elim h [ inl x ↦ x | inr y ↦ absurd (n y.1.0 (ground (arith, y.1.1))) ])

put_nested_iff :
    (o : Option Any) (select : Fields → Fields) (key k : String) (result : Fields)
    → Has (field_at k (put_nested (nested_map o) select key result))
      ↔ (Has (field_at k result) ⊎ ((key ≡ k) × IsMap o))
put_nested_iff none select key k result =
    (λ h. inl h, λ h. elim h [ inl x ↦ x | inr y ↦ absurd (ground (arith, y.1.1)) ])
put_nested_iff (some (Any.obj m)) select key k result = (
  λ h. elim ((put_iff key k _ result).0 h) [ inl x ↦ inl x | inr e ↦ inr (e, (m, refl)) ],
  λ h. (put_iff key k _ result).1 (elim h [ inl x ↦ inl x | inr y ↦ inr y.0 ]),
)
put_nested_iff (some Any.nil) select key k result =
    unchanged_iff Any.nil key k result (λ m e. ground (arith, e))
put_nested_iff (some (Any.bool b)) select key k result =
    unchanged_iff (Any.bool b) key k result (λ m e. ground (arith, e))
put_nested_iff (some (Any.num n)) select key k result =
    unchanged_iff (Any.num n) key k result (λ m e. ground (arith, e))
put_nested_iff (some (Any.str s)) select key k result =
    unchanged_iff (Any.str s) key k result (λ m e. ground (arith, e))
put_nested_iff (some (Any.arr xs)) select key k result =
    unchanged_iff (Any.arr xs) key k result (λ m e. ground (arith, e))

select_field_iff :
    (path : List String) (source result : Fields) (k : String)
    → Has (field_at k (select_field path source result))
      ↔ (Has (field_at k result) ⊎ Reaches path source k)
unfolding select_field
select_field_iff [] source result k = (λ h. inl h, λ h. elim h [ inl x ↦ x | inr y ↦ absurd y ])
select_field_iff (key ∷ []) source result k = put_found_iff (field_at key source) key k result
select_field_iff (key ∷ (next ∷ path)) source result k =
    put_nested_iff (field_at key source) _ key k result

select_each_iff :
    (ws : List String) (source result : Fields) (k : String)
    → Has (field_at k (select_each ws source result))
      ↔ (Has (field_at k result) ⊎ SomeReaches ws source k)
unfolding select_each
select_each_iff [] source result k = (λ h. inl h, λ h. elim h [ inl x ↦ x | inr y ↦ absurd y ])
select_each_iff (w ∷ ws) source result k =
    let rest = select_each_iff ws source (select_field (split dot w) source result) k in
    let one = select_field_iff (split dot w) source result k in
    (
      λ h. elim (rest.0 h) [
        | inl x ↦ elim (one.0 x) [ inl y ↦ inl y | inr y ↦ inr (inl y) ]
        | inr x ↦ inr (inr x)
      ],
      λ h. elim h [
        | inl x ↦ rest.1 (inl (one.1 (inl x)))
        | inr (inl x) ↦ rest.1 (inl (one.1 (inr x)))
        | inr (inr x) ↦ rest.1 (inr x)
      ],
    )

-- With a selection of fields, the result has a key exactly if some selected path begins with it: the
-- path is the key alone and the answer has a value there, or it goes on and the answer has a map
-- there.
pub select_fields-keys :
    (f : Filter) (source : Fields) (k : String)
    → is_empty_list f.fields ≡ false
    → Has (field_at k (select_fields f source)) ↔ SomeReaches f.fields source k
unfolding select_fields field_at
select_fields-keys f source k h =
    let each = select_each_iff f.fields source Fields.end k in
    (λ x. elim (each.0 (rw h at x)) [ inl y ↦ absurd y | inr y ↦ y ], λ x. rw h (each.1 (inr x)))

first_path :
    (source m n : Fields) (a b c : String) (x : Any)
    → field_at a source ≡ some (Any.obj m)
    → field_at b m ≡ some (Any.obj n)
    → field_at c n ≡ some x
    → select_field (a ∷ b ∷ c ∷ []) source Fields.end
      ≡ Fields.field a
          (Any.obj (Fields.field b (Any.obj (Fields.field c x Fields.end)) Fields.end))
          Fields.end
unfolding select_field put_field field_at
first_path source m n a b c x ea eb ec = rw (ea, eb, ec) refl

second_path :
    (source m n : Fields) (a b d : String) (y z : Any)
    → field_at a source ≡ some (Any.obj m)
    → field_at b m ≡ some (Any.obj n)
    → field_at d n ≡ some y
    → select_field
        (a ∷ b ∷ d ∷ [])
        source
        (Fields.field a (Any.obj (Fields.field b z Fields.end)) Fields.end)
      ≡ Fields.field a
          (Any.obj (Fields.field b (Any.obj (Fields.field d y Fields.end)) Fields.end))
          Fields.end
unfolding select_field put_field field_at merge
second_path source m n a b d y z ea eb ed = rw (ea, eb, ed, eq_refl a, eq_refl b) refl

-- Of two selected paths a.b.c and a.b.d, where the answer has maps at a and a.b and values at both
-- ends, only the second is in the result: the merge replaces the map at a.b.
pub select_fields-siblings :
    (f : Filter) (source m n : Fields) (a b c d v w : String) (x y : Any)
    → f.fields ≡ v ∷ w ∷ []
    → split dot v ≡ a ∷ b ∷ c ∷ []
    → split dot w ≡ a ∷ b ∷ d ∷ []
    → field_at a source ≡ some (Any.obj m)
    → field_at b m ≡ some (Any.obj n)
    → field_at c n ≡ some x
    → field_at d n ≡ some y
    → select_fields f source
      ≡ Fields.field a
          (Any.obj (Fields.field b (Any.obj (Fields.field d y Fields.end)) Fields.end))
          Fields.end
unfolding select_fields select_each
select_fields-siblings f source m n a b c d v w x y fs p q ea eb ec ed =
    rw (fs, p, q)
      (ap (select_field (a ∷ b ∷ d ∷ []) source) (first_path source m n a b c x ea eb ec)
        ∙ second_path source m n a b d y _ ea eb ed)
