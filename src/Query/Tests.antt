-- ===== src/Query/Tests.antt =====
-- internal/models/filters.go: a filter with labels and fields, and the theorems at it.
use netweave.Common.{
  starts, Any, Fields, ◌≡◌, ◌↔◌, ◌⊎◌, refl, inr, true, false, some, [], ◌∷◌, arith, eq_iff, pos,
  lookup, insert,
}
use netweave.Query.{
  Filter, Params, parse_query_params, to_query_params, new_filter, put_labels, values_of, set,
  add_all,
}
use netweave.Query.Text.{atoi, itoa, split, cut, join, trim_space}
use netweave.Query.Bounds.{IsBounded, parse_query_params-IsBounded}
use netweave.Query.RoundTrip.{IsCanonical, IsSame, parse_query_params-to_query_params}
use netweave.Query.Selection.{
  dot, field_at, put_field, merge, select_field, select_each, select_fields, includes,
  should_include_field,
}
use netweave.Query.Selection.Laws.{Has, SomeReaches, select_fields-keys, select_fields-siblings}
use netweave.Query.Matching.{
  ResourcePool, Resource, ResourceType, Subscription, IsPool, IsResource, IsType, IsShared,
  matches_resource_pool, matches_resource, matches_resource_type, matches_subscription, matches_iff,
  is_empty,
}

abbrev filter : Filter
filter = record new_filter {
  resource_pool_id = "p1" ∷ "p2" ∷ [];
  location = "us-east";
  labels = ("env", "prod") ∷ ("tier", "gold") ∷ [];
  limit = pos 50;
  offset = pos 200;
  sort_by = "name";
  sort_order = "desc";
  fields = "name" ∷ "extensions.cpu" ∷ [];
}

abbrev pool : ResourcePool
pool = record { resource_pool_id = "p2"; location = "us-east-1a"; o_cloud_id = "cloud" }

abbrev resource : Resource
resource = record { resource_id = "r"; resource_type_id = "t"; resource_pool_id = "p9" }

abbrev kind : ResourceType
kind = record {
  resource_type_id = "t";
  resource_class = "compute";
  resource_kind = "physical";
  vendor = "Dell";
  model = "R750";
}

abbrev subscription : Subscription
subscription = record { filter_pools = some ("p1" ∷ []) }

printed_limit : values_of "limit" (to_query_params filter) ≡ "50" ∷ []
unfolding to_query_params values_of set add_all lookup insert itoa join
printed_limit = refl

printed_labels : values_of "labels" (to_query_params filter) ≡ "env:prod,tier:gold" ∷ []
unfolding to_query_params values_of set add_all lookup insert itoa join
printed_labels = refl

-- A limit above the largest, and white space around a label.
abbrev query : Params
query = ("limit", "5000" ∷ []) ∷ ("labels", " env : prod ,x" ∷ []) ∷ ("sortOrder", "up" ∷ []) ∷ []

read_limit : (parse_query_params query).limit ≡ pos 1000
unfolding parse_query_params values_of lookup atoi
read_limit = refl

read_labels : (parse_query_params query).labels ≡ ("env", "prod") ∷ []
unfolding parse_query_params values_of lookup insert split cut trim_space put_labels
read_labels = refl

read_order : (parse_query_params query).sort_order ≡ "asc"
unfolding parse_query_params values_of lookup
read_order = refl

not_empty : is_empty filter ≡ false
unfolding is_empty
not_empty = refl

filter-IsCanonical : IsCanonical filter
unfolding lookup trim_space
filter-IsCanonical = record {
  labels_clean = search tt;
  labels_unique = (refl, (refl, tt));
  limit_low = omega arith;
  limit_high = omega arith;
  offset_low = omega arith;
  offset_high = omega arith;
  order_known = inr refl;
  fields_clean = (
    (search tt, λ e. ground (arith, eq_iff "name" "", e)),
    ((search tt, λ e. ground (arith, eq_iff "extensions.cpu" "", e)), tt),
  );
  no_extensions = refl;
}

parse_query_params-to_query_params_example :
    IsSame (parse_query_params (to_query_params filter)) filter
parse_query_params-to_query_params_example =
    parse_query_params-to_query_params filter filter-IsCanonical

parse_query_params-IsBounded_example : IsBounded (parse_query_params query)
parse_query_params-IsBounded_example = parse_query_params-IsBounded query

matches_iff_example :
    ((matches_resource_pool filter pool ≡ true) ↔ IsPool filter pool)
    × ((matches_resource filter resource ≡ true) ↔ IsResource filter resource)
    × ((matches_resource_type filter kind ≡ true) ↔ IsType filter kind)
    × ((matches_subscription filter subscription ≡ true)
        ↔ ((filter.resource_pool_id ≡ []) ⊎ IsShared filter.resource_pool_id (some ("p1" ∷ []))))
matches_iff_example = matches_iff filter pool resource kind subscription

abbrev cpu : Fields
cpu = Fields.field "count" (Any.num (pos 4)) (Fields.field "model" (Any.str "x") Fields.end)

abbrev spec : Fields
spec = Fields.field "cpu" (Any.obj cpu) Fields.end

abbrev answer : Fields
answer = Fields.field "name" (Any.str "n1") (Fields.field "spec" (Any.obj spec) Fields.end)

abbrev siblings : Filter
siblings = record new_filter { fields = "spec.cpu.count" ∷ "spec.cpu.model" ∷ [] }

-- The count is lost.
siblings_run :
    select_fields siblings answer
    ≡ Fields.field "spec"
        (Any.obj
          (Fields.field "cpu" (Any.obj (Fields.field "model" (Any.str "x") Fields.end)) Fields.end))
        Fields.end
unfolding select_fields select_each select_field split field_at put_field merge
siblings_run = refl

path_count : split dot "spec.cpu.count" ≡ "spec" ∷ "cpu" ∷ "count" ∷ []
unfolding split
path_count = refl

path_model : split dot "spec.cpu.model" ≡ "spec" ∷ "cpu" ∷ "model" ∷ []
unfolding split
path_model = refl

at_spec : field_at "spec" answer ≡ some (Any.obj spec)
unfolding field_at
at_spec = refl

at_cpu : field_at "cpu" spec ≡ some (Any.obj cpu)
unfolding field_at
at_cpu = refl

at_count : field_at "count" cpu ≡ some (Any.num (pos 4))
unfolding field_at
at_count = refl

at_model : field_at "model" cpu ≡ some (Any.str "x")
unfolding field_at
at_model = refl

select_fields-siblings_example :
    select_fields siblings answer
    ≡ Fields.field "spec"
        (Any.obj
          (Fields.field "cpu" (Any.obj (Fields.field "model" (Any.str "x") Fields.end)) Fields.end))
        Fields.end
select_fields-siblings_example =
    select_fields-siblings siblings answer spec cpu "spec" "cpu" "count" "model" "spec.cpu.count"
      "spec.cpu.model" (Any.num (pos 4)) (Any.str "x") refl path_count path_model at_spec at_cpu
      at_count at_model

select_fields-keys_example :
    Has (field_at "spec" (select_fields siblings answer))
    ↔ SomeReaches siblings.fields answer "spec"
select_fields-keys_example = select_fields-keys siblings answer "spec" refl

included : should_include_field siblings "spec" ≡ true
unfolding should_include_field includes starts
included = refl
