-- ===== src/Query/Selection.antt =====
-- internal/models/filters.go: SelectFields, which keeps the fields of an answer that a filter names,
-- and ShouldIncludeField. A map of Go is `Fields`; its copies are the maps themselves, as sharing is
-- not modelled. A path is taken apart at its dots at once, and not at one dot in each call.
pub mod Laws
use Prim.Native.String.{◌++◌}
use netweave.Common.{
  ℕ, String, Bool, true, false, ◌||◌, Option, none, some, List, [], ◌∷◌, if◌then◌else◌, ◌==◌, Any,
  Fields, codes, starts,
}
use netweave.Query.{Filter, is_empty_list}
use netweave.Query.Text.{split}

abbrev pub dot : ℕ
dot = 46

-- m[key]
unfoldable pub field_at : String → Fields → Option Any
field_at key Fields.end = none
field_at key (Fields.field k v fs) = if k == key then some v else field_at key fs

-- m[key] = value
unfoldable pub put_field : String → Any → Fields → Fields
put_field key value Fields.end = Fields.field key value Fields.end
put_field key value (Fields.field k v fs) =
    let kept = Fields.field k v (put_field key value fs) in
    if k == key then Fields.field key value fs else kept

-- for k, v := range nested { existing[k] = v }
unfoldable pub merge : Fields → Fields → Fields
merge Fields.end existing = existing
merge (Fields.field k v fs) existing = merge fs (put_field k v existing)

abbrev pub put_found : Option Any → String → Fields → Fields
put_found none key result = result
put_found (some v) key result = put_field key v result

-- value.(map[string]interface{})
abbrev pub nested_map : Option Any → Option Fields
nested_map (some (Any.obj fs)) = some fs
nested_map _ = none

-- A map that is there already is merged with.
abbrev pub merged : Option Any → Fields → Fields
merged (some (Any.obj existing)) nested = merge nested existing
merged _ nested = nested

abbrev pub put_nested : Option Fields → (Fields → Fields) → String → Fields → Fields
put_nested none select key result = result
put_nested (some m) select key result =
    put_field key (Any.obj (merged (field_at key result) (select m))) result

-- selectField and selectNestedField, for the parts of a path.
unfoldable pub select_field : List String → Fields → Fields → Fields
select_field [] source result = result
select_field (key ∷ []) source result = put_found (field_at key source) key result
select_field (key ∷ (next ∷ path)) source result =
    put_nested (nested_map (field_at key source)) (λ m. select_field (next ∷ path) m Fields.end) key
      result

-- The loop of `SelectFields`.
unfoldable pub select_each : List String → Fields → Fields → Fields
select_each [] source result = result
select_each (w ∷ ws) source result =
    select_each ws source (select_field (split dot w) source result)

unfoldable pub select_fields : Filter → Fields → Fields
select_fields f source =
    if is_empty_list f.fields then source else select_each f.fields source Fields.end

-- The loop of `ShouldIncludeField`.
unfoldable pub includes : List String → String → Bool
includes [] name = false
includes (w ∷ ws) name =
    w == name
    || starts (codes name) (codes (w ++ "."))
    || starts (codes w) (codes (name ++ "."))
    || includes ws name

unfoldable pub should_include_field : Filter → String → Bool
should_include_field f name = if is_empty_list f.fields then true else includes f.fields name
