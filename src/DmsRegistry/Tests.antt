-- ===== src/DmsRegistry/Tests.antt =====
-- Runs of the registry of DMS adapters, and its theorems at concrete registries.
use netweave.Common.{
  ◌≡◌, refl, inr, true, false, none, some, List, [], ◌∷◌, arith, lookup, insert, ok, eq_iff,
}
use netweave.DmsRegistry.{Adapter, PluginMetadata, DmsRegistry, new_registry, register, set_default}
use netweave.DmsRegistry.Laws.{IsAligned, Call, registers, checks, run, run-IsAligned}
use netweave.DmsRegistry.Defaults.{IsSingle}

abbrev helm : Adapter
helm = record { handle = 1; version = "3"; capabilities = "rollback" ∷ [] }

abbrev argo : Adapter
argo = record { handle = 2; version = "2"; capabilities = [] }

abbrev calls : List Call
calls =
    registers 5 none "helm" "helm" helm [] true
    ∷ registers 6 none "argo" "argocd" argo [] false
    ∷ checks 7 "argo" (some "timeout")
    ∷ []

abbrev helm_meta : PluginMetadata
helm_meta = record {
  name = "helm";
  plugin_type = "helm";
  version = "3";
  enabled = true;
  default = true;
  capabilities = "rollback" ∷ [];
  registered_at = 5;
  last_health_check = 5;
  healthy = true;
  health_error = none;
  config = [];
}

abbrev argo_meta : PluginMetadata
argo_meta = record {
  name = "argo";
  plugin_type = "argocd";
  version = "2";
  enabled = true;
  default = false;
  capabilities = [];
  registered_at = 6;
  last_health_check = 7;
  healthy = false;
  health_error = some "timeout";
  config = [];
}

abbrev two : DmsRegistry
two = record {
  plugins = ("helm", helm) ∷ ("argo", argo) ∷ [];
  meta = ("helm", helm_meta) ∷ ("argo", argo_meta) ∷ [];
  default_plugin = "helm";
}

run-IsAligned_example : IsAligned (run new_registry calls)
run-IsAligned_example = run-IsAligned calls

two-IsAligned : IsAligned two
unfolding lookup
two-IsAligned = record {
  paired = λ n. ground arith;
  named = λ n m e. ground (arith, eq_iff "helm" n, eq_iff "argo" n);
  default_there = inr refl;
}

two-IsSingle : IsSingle two
unfolding lookup
two-IsSingle n m e f = ground (arith, eq_iff "helm" n, eq_iff "argo" n)

nameless : lookup "" two.plugins ≡ none
unfolding lookup
nameless = refl

abbrev argo_default : DmsRegistry
argo_default = record two {
  meta =
      ("helm", record helm_meta { default = false })
      ∷ ("argo", record argo_meta { default = true })
      ∷ [];
  default_plugin = "argo";
}

set_default_run : set_default two "argo" ≡ ok argo_default
unfolding set_default lookup insert
set_default_run = refl

abbrev flux_meta : PluginMetadata
flux_meta = record helm_meta {
  name = "flux";
  plugin_type = "flux";
  registered_at = 9;
  last_health_check = 9;
}

abbrev three : DmsRegistry
three = record {
  plugins = ("helm", helm) ∷ ("argo", argo) ∷ ("flux", helm) ∷ [];
  meta = ("helm", helm_meta) ∷ ("argo", argo_meta) ∷ ("flux", flux_meta) ∷ [];
  default_plugin = "flux";
}

register_run : register 9 none two "flux" "flux" helm [] true ≡ ok three
unfolding register lookup insert
register_run = refl

helm_there : lookup "helm" two.meta ≡ some helm_meta
unfolding lookup
helm_there = refl
