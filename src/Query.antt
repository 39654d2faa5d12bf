-- ===== src/Query.antt =====
-- internal/models/filters.go: the filter of a list request, read from the query of its URL and
-- written back, and what it matches. `Query.Text` has what is used of packages `strings` and
-- `strconv`. The resources have the fields that a filter looks at.
pub mod Text
pub mod Bounds
pub mod Values
pub mod Parts
pub mod Labels
pub mod RoundTrip
pub mod Matching
pub mod Selection
mod Tests
use Prim.Native.String.{◌++◌}
use mathlib.Core.List.{◌++◌ as append_list}
use netweave.Common.{
  String, Bool, true, false, not, ◌&&◌, ◌||◌, Option, none, some, List, [], ◌∷◌, if◌then◌else◌,
  ◌==◌, Map, lookup, insert, map, ℤ, pos, ltb_ℤ, Any, contains, codes, starts,
}
use netweave.Query.Text.{split, cut, join, trim_space, atoi, itoa, comma, colon}

pub record Filter : Type 0 where
  pub resource_pool_id : List String
  pub resource_type_id : List String
  pub resource_id : List String
  pub location : String
  pub o_cloud_id : String
  pub labels : Map String
  pub resource_class : String
  pub resource_kind : String
  pub vendor : String
  pub model : String
  pub limit : ℤ
  pub offset : ℤ
  pub sort_by : String
  pub sort_order : String
  pub extensions : Map Any
  pub fields : List String

abbrev pub is_empty_list {ℓ} : {A : Type ℓ} → List A → Bool
is_empty_list [] = true
is_empty_list (x ∷ xs) = false

-- url.Values
abbrev pub Params : Type 0
Params = Map (List String)

-- params[key], nil for a missing key
abbrev pub or_nil : Option (List String) → List String
or_nil none = []
or_nil (some vs) = vs

pub values_of : String → Params → List String
values_of key params = or_nil (lookup key params)

abbrev pub first_of : List String → String
first_of [] = ""
first_of (v ∷ vs) = v

-- params.Get
abbrev pub get : String → Params → String
get key params = first_of (values_of key params)

-- params.Set
pub set : String → String → Params → Params
set key value params = insert key (value ∷ []) params

pub parse_resource_ids : Params → Filter → Filter
parse_resource_ids params f = record f {
  resource_pool_id =
      if is_empty_list (values_of "resourcePoolId" params)
      then f.resource_pool_id
      else values_of "resourcePoolId" params;
  resource_type_id =
      if is_empty_list (values_of "resourceTypeId" params)
      then f.resource_type_id
      else values_of "resourceTypeId" params;
  resource_id =
      if is_empty_list (values_of "resourceId" params)
      then f.resource_id
      else values_of "resourceId" params;
}

-- if value != "" { field = value }
abbrev pub or_old : String → String → String
or_old value old = if value == "" then old else value

pub parse_string_fields : Params → Filter → Filter
parse_string_fields params f = record f {
  location = or_old (get "location" params) f.location;
  o_cloud_id = or_old (get "oCloudId" params) f.o_cloud_id;
  resource_class = or_old (get "resourceClass" params) f.resource_class;
  resource_kind = or_old (get "resourceKind" params) f.resource_kind;
  vendor = or_old (get "vendor" params) f.vendor;
  model = or_old (get "model" params) f.model;
}

abbrev pub put_label : Option (String × String) → Map String → Map String
put_label none labels = labels
put_label (some (k, v)) labels = insert (trim_space k) (trim_space v) labels

-- The loop of `parseLabels`.
pub put_labels : List String → Map String → Map String
put_labels [] labels = labels
put_labels (pair ∷ pairs) labels = put_labels pairs (put_label (cut colon pair) labels)

pub parse_labels : Params → Filter → Filter
unfolding put_labels
parse_labels params f = record f {
  labels =
      if get "labels" params == ""
      then f.labels
      else put_labels (split comma (get "labels" params)) f.labels;
}

abbrev pub positive_or : ℤ → Option ℤ → ℤ
positive_or old none = old
positive_or old (some n) = if ltb_ℤ (pos 0) n then n else old

abbrev pub natural_or : ℤ → Option ℤ → ℤ
natural_or old none = old
natural_or old (some n) = if ltb_ℤ n (pos 0) then old else n

abbrev pub is_zero : ℤ → Bool
is_zero n = not (ltb_ℤ n (pos 0)) && not (ltb_ℤ (pos 0) n)

-- The default, and then the largest limit.
abbrev pub default_limit : ℤ → ℤ
default_limit n = if is_zero n then pos 100 else n

abbrev pub cap_limit : ℤ → ℤ
cap_limit n = if ltb_ℤ (pos 1000) n then pos 1000 else n

pub parse_pagination_params : Params → Filter → Filter
parse_pagination_params params f = record f {
  limit = cap_limit (
      default_limit (
        if get "limit" params == ""
        then f.limit
        else positive_or f.limit (atoi (get "limit" params))));
  offset =
      if get "offset" params == ""
      then f.offset
      else natural_or f.offset (atoi (get "offset" params));
}

abbrev pub known_order : String → String → String
known_order order old = if order == "asc" || order == "desc" then order else old

pub parse_sort_params : Params → Filter → Filter
parse_sort_params params f =
    let order =
      if get "sortOrder" params == ""
      then f.sort_order
      else known_order (get "sortOrder" params) f.sort_order in
    record f {
      sort_by = or_old (get "sortBy" params) f.sort_by;
      sort_order = if order == "" then "asc" else order;
    }

-- The loop of `parseFieldSelection`.
pub trim_fields : List String → List String
trim_fields [] = []
trim_fields (w ∷ ws) =
    let rest = trim_fields ws in if trim_space w == "" then rest else trim_space w ∷ rest

pub parse_field_selection : Params → Filter → Filter
unfolding trim_fields
parse_field_selection params f = record f {
  fields =
      if get "fields" params == ""
      then f.fields
      else trim_fields (split comma (get "fields" params));
}

abbrev pub new_filter : Filter
new_filter = record {
  resource_pool_id = [];
  resource_type_id = [];
  resource_id = [];
  location = "";
  o_cloud_id = "";
  labels = [];
  resource_class = "";
  resource_kind = "";
  vendor = "";
  model = "";
  limit = pos 0;
  offset = pos 0;
  sort_by = "";
  sort_order = "";
  extensions = [];
  fields = [];
}

pub parse_query_params : Params → Filter
unfolding parse_resource_ids parse_string_fields parse_labels parse_pagination_params
    parse_sort_params parse_field_selection
parse_query_params params = parse_field_selection params (
    parse_sort_params params (
      parse_pagination_params params
        (parse_labels params (parse_string_fields params (parse_resource_ids params new_filter)))))

abbrev pub append_value : String → List String → List String
append_value v vs = append_list vs (v ∷ [])

-- params.Add for each value
pub add_all : String → List String → Params → Params
add_all key [] params = params
add_all key (v ∷ vs) params =
    add_all key vs (insert key (append_value v (values_of key params)) params)

-- if b { params.Set(key, value) }
abbrev pub set_if : Bool → String → String → Params → Params
set_if b key value params = if b then set key value params else params

pub add_id_filters : Filter → Params → Params
add_id_filters f params = add_all "resourceId" f.resource_id (
    add_all "resourceTypeId" f.resource_type_id
      (add_all "resourcePoolId" f.resource_pool_id params))

abbrev set_text : String → String → Params → Params
set_text key value params = set_if (not (value == "")) key value params

-- The loop goes over a map of Go, in any order; the keys differ.
pub add_string_filters : Filter → Params → Params
add_string_filters f params = set_text "location" f.location (
    set_text "oCloudId" f.o_cloud_id (
      set_text "resourceClass" f.resource_class (
        set_text "resourceKind" f.resource_kind
          (set_text "vendor" f.vendor (set_text "model" f.model params)))))

abbrev pub label_pair : String × String → String
label_pair (k, v) = k ++ (":" ++ v)

pub add_labels_filter : Filter → Params → Params
add_labels_filter f params =
    set_if (not (is_empty_list f.labels)) "labels" (join "," (map label_pair f.labels)) params

pub add_pagination_params : Filter → Params → Params
add_pagination_params f params =
    set_if (ltb_ℤ (pos 0) f.offset) "offset" (itoa f.offset)
      (set_if (ltb_ℤ (pos 0) f.limit) "limit" (itoa f.limit) params)

pub add_sorting_params : Filter → Params → Params
add_sorting_params f params = set_text "sortOrder" f.sort_order (set_text "sortBy" f.sort_by params)

pub add_fields_param : Filter → Params → Params
add_fields_param f params =
    set_if (not (is_empty_list f.fields)) "fields" (join "," f.fields) params

pub to_query_params : Filter → Params
unfolding add_id_filters add_string_filters add_labels_filter add_pagination_params
    add_sorting_params add_fields_param
to_query_params f = add_fields_param f (
    add_sorting_params f
      (add_pagination_params f (add_labels_filter f (add_string_filters f (add_id_filters f [])))))
