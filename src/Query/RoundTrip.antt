-- ===== src/Query/RoundTrip.antt =====
-- internal/models/filters.go: ParseQueryParams reads back what ToQueryParams writes.
use netweave.Common.{String, ◌≡◌, ◌≢◌, sym, [], pos, ◌≤ℤ◌, All, lookup, Unique}
use netweave.Query.{Filter, parse_query_params, to_query_params}
use netweave.Query.Bounds.{IsOrder}
use netweave.Query.Values.{
  values-resource_pool_id, values-resource_type_id, values-resource_id, values-location,
  values-o_cloud_id, values-labels, values-resource_class, values-resource_kind, values-vendor,
  values-model, values-limit, values-offset, values-sort_by, values-sort_order, values-fields,
}
use netweave.Query.Text.{max_int}
use netweave.Query.Parts.{
  IsWord, text_back, ids_back, order_back, limit_back, offset_back, fields_back,
}
use netweave.Query.Labels.{IsLabel, labels_back}

-- A filter whose texts can stand in a query: labels and fields without commas or white space around
-- them, the keys of labels without colons, a limit from 1 to 1000, an offset that is an `int` and not
-- negative, an order that is known, and no extensions.
pub record IsCanonical (f : Filter) : Type 0 where
  pub labels_clean : All IsLabel f.labels
  pub labels_unique : Unique f.labels
  pub limit_low : pos 1 ≤ℤ f.limit
  pub limit_high : f.limit ≤ℤ pos 1000
  pub offset_low : pos 0 ≤ℤ f.offset
  pub offset_high : f.offset ≤ℤ pos max_int
  pub order_known : IsOrder f.sort_order
  pub fields_clean : All (λ w. IsWord w × w ≢ "") f.fields
  pub no_extensions : f.extensions ≡ []

-- The same fields, and the same value under each label.
pub record IsSame (f g : Filter) : Type 0 where
  pub same_pools : f.resource_pool_id ≡ g.resource_pool_id
  pub same_types : f.resource_type_id ≡ g.resource_type_id
  pub same_resources : f.resource_id ≡ g.resource_id
  pub same_location : f.location ≡ g.location
  pub same_cloud : f.o_cloud_id ≡ g.o_cloud_id
  pub same_labels : (j : String) → lookup j f.labels ≡ lookup j g.labels
  pub same_class : f.resource_class ≡ g.resource_class
  pub same_kind : f.resource_kind ≡ g.resource_kind
  pub same_vendor : f.vendor ≡ g.vendor
  pub same_model : f.model ≡ g.model
  pub same_limit : f.limit ≡ g.limit
  pub same_offset : f.offset ≡ g.offset
  pub same_sort_by : f.sort_by ≡ g.sort_by
  pub same_sort_order : f.sort_order ≡ g.sort_order
  pub same_extensions : f.extensions ≡ g.extensions
  pub same_fields : f.fields ≡ g.fields

-- ParseQueryParams reads a filter back from the query that ToQueryParams makes of it, with the same
-- value under each label, if the filter is canonical: no commas in labels and fields nor white
-- space around them, no colons in the keys of labels, no empty fields, no key twice, a limit from 1
-- to 1000, an offset of an `int` that is not negative, the order "asc" or "desc", and no
-- extensions.
pub parse_query_params-to_query_params :
    (f : Filter) → IsCanonical f → IsSame (parse_query_params (to_query_params f)) f
unfolding parse_query_params
parse_query_params-to_query_params f c = record {
  same_pools = ids_back f.resource_pool_id _ (values-resource_pool_id f);
  same_types = ids_back f.resource_type_id _ (values-resource_type_id f);
  same_resources = ids_back f.resource_id _ (values-resource_id f);
  same_location = text_back f.location _ (values-location f);
  same_cloud = text_back f.o_cloud_id _ (values-o_cloud_id f);
  same_labels = λ j. labels_back f.labels _ j c.labels_clean c.labels_unique (values-labels f);
  same_class = text_back f.resource_class _ (values-resource_class f);
  same_kind = text_back f.resource_kind _ (values-resource_kind f);
  same_vendor = text_back f.vendor _ (values-vendor f);
  same_model = text_back f.model _ (values-model f);
  same_limit = limit_back f.limit _ c.limit_low c.limit_high (values-limit f);
  same_offset = offset_back f.offset _ c.offset_low c.offset_high (values-offset f);
  same_sort_by = text_back f.sort_by _ (values-sort_by f);
  same_sort_order = order_back f.sort_order _ c.order_known (values-sort_order f);
  same_extensions = sym c.no_extensions;
  same_fields = fields_back f.fields _ c.fields_clean (values-fields f);
}
