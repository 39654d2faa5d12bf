-- ===== src/Common/Values.antt =====
-- Go's `interface{}` as the gateway uses it: the values that JSON decoding makes.
use Prim.Native.String.{String}
use mathlib.Core.Bool.{Bool, true, false, not}
use mathlib.Core.Option.{Option, none, some}
use mathlib.Core.List.{List, [], ◌∷◌}
use text.Mathlib.Text.{◌==◌}
use netweave.Common.Int.{ℤ, pos, negsuc}
use netweave.Common.Tests.{eqb}

mutual
  pub data Any : Type 0 where
    nil : Any
    bool : Bool → Any
    num : ℤ → Any
    str : String → Any
    arr : Items → Any
    obj : Fields → Any

  pub data Items : Type 0 where
    done : Items
    item : Any → Items → Items

  pub data Fields : Type 0 where
    end : Fields
    field : String → Any → Fields → Fields

-- v.(string)
abbrev pub as_string : Option Any → Option String
as_string (some (str s)) = some s
as_string _ = none

abbrev pub fields_map : Fields → List (String × Any)
fields_map end = []
fields_map (field k v fs) = (k, v) ∷ fields_map fs

-- v.(map[string]interface{})
abbrev pub as_map : Option Any → Option (List (String × Any))
as_map (some (obj fs)) = some (fields_map fs)
as_map _ = none

abbrev eqb_ℤ : ℤ → ℤ → Bool
eqb_ℤ (pos a) (pos b) = eqb a b
eqb_ℤ (negsuc a) (negsuc b) = eqb a b
eqb_ℤ _ _ = false

abbrev eqb_Bool : Bool → Bool → Bool
eqb_Bool true b = b
eqb_Bool false b = not b

-- Go's `==` on two interface values: `none` is the panic on two slices or two maps.
unfoldable pub same_value : Any → Any → Option Bool
same_value nil nil = some true
same_value (bool a) (bool b) = some (eqb_Bool a b)
same_value (num a) (num b) = some (eqb_ℤ a b)
same_value (str a) (str b) = some (a == b)
same_value (arr a) (arr b) = none
same_value (obj a) (obj b) = none
same_value _ _ = some false
