-- ===== src/Query/Values.antt =====
-- internal/models/filters.go: what ToQueryParams puts under each key.
use mathlib.Core.List.{append-nil, append_assoc}
use netweave.Common.{
  String-cases, inl, inr, String, ◌≡◌, refl, sym, ◌∙◌, Bool, true, false, not, List, [], ◌∷◌, ◌++◌,
  if◌then◌else◌, ◌==◌, lookup, insert, lookup-insert, Bool-cases, map, ltb_ℤ, pos,
}
use netweave.Query.{
  Filter, Params, values_of, set, set_if, add_all, append_value, to_query_params, is_empty_list,
  label_pair,
}
use netweave.Query.Text.{join, itoa}

values-insert :
    (key k : String) (vs : List String) (params : Params)
    → values_of k (insert key vs params) ≡ (if key == k then vs else values_of k params)
unfolding values_of
values-insert key k vs params = elim (Bool-cases (key == k)) [
  | inl b ↦ rw (lookup-insert key k vs params, b) refl
  | inr b ↦ rw (lookup-insert key k vs params, b) refl
]

-- The values under a key, where nothing else stands under it.
values-set_if :
    (b : Bool) (key k value : String) (params : Params)
    → values_of k (set_if b key value params)
      ≡ (if key == k then (if b then value ∷ [] else values_of k params) else values_of k params)
unfolding set
values-set_if true key k value params = values-insert key k (value ∷ []) params
values-set_if false key k value params = elim (Bool-cases (key == k)) [
  | inl e ↦ rw e refl
  | inr e ↦ rw e refl
]

values-add_all :
    (key k : String) (vs : List String) (params : Params)
    → values_of k (add_all key vs params)
      ≡ (if key == k then values_of k params ++ vs else values_of k params)
unfolding add_all
values-add_all key k [] params = elim (Bool-cases (key == k)) [
  | inl e ↦ rw e (sym (append-nil (values_of k params)))
  | inr e ↦ rw e refl
]
values-add_all key k (v ∷ vs) params = elim (String-cases key k) [
  | inl (e, same) ↦
      values-add_all key k vs _
      ∙ rw (e, values-insert key k (append_value v (values_of key params)) params, e)
          (rw same (append_assoc (values_of k params) (v ∷ []) vs))
  | inr (e, other) ↦
      values-add_all key k vs _
      ∙ rw (e, values-insert key k (append_value v (values_of key params)) params, e) refl
]

nothing_yet : (k : String) → values_of k [] ≡ []
unfolding values_of lookup
nothing_yet k = refl

ruleset values_laws = (values-set_if, values-add_all, nothing_yet)

module _ (f : Filter) where
  pub values-resource_pool_id : values_of "resourcePoolId" (to_query_params f) ≡ f.resource_pool_id
  unfolding to_query_params
  values-resource_pool_id = simp values_laws

  pub values-resource_type_id : values_of "resourceTypeId" (to_query_params f) ≡ f.resource_type_id
  unfolding to_query_params
  values-resource_type_id = simp values_laws

  pub values-resource_id : values_of "resourceId" (to_query_params f) ≡ f.resource_id
  unfolding to_query_params
  values-resource_id = simp values_laws

  pub values-location :
      values_of "location" (to_query_params f)
      ≡ (if not (f.location == "") then f.location ∷ [] else [])
  unfolding to_query_params
  values-location = simp values_laws

  pub values-o_cloud_id :
      values_of "oCloudId" (to_query_params f)
      ≡ (if not (f.o_cloud_id == "") then f.o_cloud_id ∷ [] else [])
  unfolding to_query_params
  values-o_cloud_id = simp values_laws

  pub values-resource_class :
      values_of "resourceClass" (to_query_params f)
      ≡ (if not (f.resource_class == "") then f.resource_class ∷ [] else [])
  unfolding to_query_params
  values-resource_class = simp values_laws

  pub values-resource_kind :
      values_of "resourceKind" (to_query_params f)
      ≡ (if not (f.resource_kind == "") then f.resource_kind ∷ [] else [])
  unfolding to_query_params
  values-resource_kind = simp values_laws

  pub values-vendor :
      values_of "vendor" (to_query_params f) ≡ (if not (f.vendor == "") then f.vendor ∷ [] else [])
  unfolding to_query_params
  values-vendor = simp values_laws

  pub values-model :
      values_of "model" (to_query_params f) ≡ (if not (f.model == "") then f.model ∷ [] else [])
  unfolding to_query_params
  values-model = simp values_laws

  pub values-sort_by :
      values_of "sortBy" (to_query_params f)
      ≡ (if not (f.sort_by == "") then f.sort_by ∷ [] else [])
  unfolding to_query_params
  values-sort_by = simp values_laws

  pub values-sort_order :
      values_of "sortOrder" (to_query_params f)
      ≡ (if not (f.sort_order == "") then f.sort_order ∷ [] else [])
  unfolding to_query_params
  values-sort_order = simp values_laws

  pub values-labels :
      values_of "labels" (to_query_params f)
      ≡ (if not (is_empty_list f.labels) then join "," (map label_pair f.labels) ∷ [] else [])
  unfolding to_query_params
  values-labels = simp values_laws

  pub values-limit :
      values_of "limit" (to_query_params f)
      ≡ (if ltb_ℤ (pos 0) f.limit then itoa f.limit ∷ [] else [])
  unfolding to_query_params
  values-limit = simp values_laws

  pub values-offset :
      values_of "offset" (to_query_params f)
      ≡ (if ltb_ℤ (pos 0) f.offset then itoa f.offset ∷ [] else [])
  unfolding to_query_params
  values-offset = simp values_laws

  pub values-fields :
      values_of "fields" (to_query_params f)
      ≡ (if not (is_empty_list f.fields) then join "," f.fields ∷ [] else [])
  unfolding to_query_params
  values-fields = simp values_laws
