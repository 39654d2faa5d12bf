-- ===== src/DmsRegistry/Laws.antt =====
-- internal/dms/registry/registry.go: the invariant of the registry, over all calls.
use netweave.Common.{
  ℕ, String, ◌≡◌, refl, sym, subst, ◌⊎◌, inl, inr, Bool, true, false, Option, some, List, [], ◌∷◌,
  arith, if◌then◌else◌, Map, lookup, insert, lookup-insert, lookup-erase, ok, after, Any, ◌==◌,
  eq_iff, eq_refl, Bool-cases, Option-cases, Result-cases,
}
use netweave.DmsRegistry.{
  Adapter, PluginMetadata, DmsRegistry, Outcome, new_registry, exists, new_metadata, register,
  unregister, enable, disable, change_meta, flag, set_default, check_plugin_health, close,
}

pub record IsAligned (r : DmsRegistry) : Type 0 where
  -- an adapter and its metadata come and go together
  pub paired : (n : String) → exists (lookup n r.plugins) ≡ exists (lookup n r.meta)
  pub named : (n : String) (m : PluginMetadata) → lookup n r.meta ≡ some m → m.name ≡ n
  -- the default is registered, if there is one
  pub default_there : (r.default_plugin ≡ "") ⊎ (exists (lookup r.default_plugin r.plugins) ≡ true)

new_registry-IsAligned : IsAligned new_registry
unfolding new_registry lookup
new_registry-IsAligned = record {
  paired = λ n. refl;
  named = λ n m e. cc;
  default_there = inl refl;
}

register-IsAligned :
    (now : ℕ) (health : Option String) (r t : DmsRegistry) (name typ : String) (plugin : Adapter)
    (config : Map Any) (b : Bool)
    → register now health r name typ plugin config b ≡ ok t
    → IsAligned r
    → IsAligned t
unfolding register
register-IsAligned now health r t name typ plugin config b h v =
    let fresh : exists (lookup name r.plugins) ≡ false = ground arith in
    let m = new_metadata now health name typ plugin config b in
    record {
      paired = λ n.
          ground (
            arith,
            v.paired n,
            lookup-insert name n plugin r.plugins,
            lookup-insert name n m r.meta,
          );
      named = λ n q e. ground (arith, v.named n q, lookup-insert name n m r.meta, eq_iff name n);
      default_there = ground (
        arith,
        v.default_there,
        lookup-insert name name plugin r.plugins,
        lookup-insert name r.default_plugin plugin r.plugins,
        eq_refl name,
      );
    }

unregister-IsAligned :
    (r t : DmsRegistry) (name : String) → unregister r name ≡ ok t → IsAligned r → IsAligned t
unfolding unregister
unregister-IsAligned r t name h v = record {
  paired =
      λ n. ground (arith, v.paired n, lookup-erase name n r.plugins, lookup-erase name n r.meta);
  named = λ n q e. ground (arith, v.named n q, lookup-erase name n r.meta);
  default_there = ground (
    arith,
    v.default_there,
    lookup-erase name r.default_plugin r.plugins,
    eq_iff name r.default_plugin,
    eq_iff r.default_plugin name,
  );
}

-- Changing the metadata of one plugin, its name excepted.
meta-IsAligned :
    (r : DmsRegistry) (name : String) (m q : PluginMetadata)
    → lookup name r.meta ≡ some m
    → q.name ≡ m.name
    → IsAligned r
    → IsAligned (record r { meta = insert name q r.meta })
meta-IsAligned r name m q e same v = record {
  paired = λ n. ground (arith, v.paired n, lookup-insert name n q r.meta, eq_iff name n);
  named = λ n o f.
      ground (arith, v.named n o, v.named name m, lookup-insert name n q r.meta, eq_iff name n);
  default_there = v.default_there;
}

change_meta-IsAligned :
    (r t : DmsRegistry) (name : String) (f : PluginMetadata → PluginMetadata)
    → ((m : PluginMetadata) → (f m).name ≡ m.name)
    → change_meta r name f ≡ ok t
    → IsAligned r
    → IsAligned t
change_meta-IsAligned r t name f keeps h v = elim (Option-cases (lookup name r.meta)) [
  | inl e ↦ absurd (ground arith)
  | inr (m, e) ↦
      let stored : t ≡ record r { meta = insert name (f m) r.meta } = ground arith in
      subst IsAligned (sym stored) (meta-IsAligned r name m (f m) e (keeps m) v)
]

flag-IsAligned :
    (r : DmsRegistry) (name : String) (b : Bool)
    → IsAligned r
    → IsAligned (record r { meta = flag name b r.meta })
flag-IsAligned r name b v = elim (Option-cases (lookup name r.meta)) [
  | inl e ↦
      let same : flag name b r.meta ≡ r.meta = rw (e, flag) in
      subst (λ x. IsAligned (record r { meta = x })) (sym same) v
  | inr (m, e) ↦
      let same : flag name b r.meta ≡ insert name (record m { default = b }) r.meta =
        rw (e, flag) in
      subst (λ x. IsAligned (record r { meta = x })) (sym same)
        (meta-IsAligned r name m (record m { default = b }) e refl v)
]

-- The metadata once the flag of the old default is cleared.
abbrev pub cleared : DmsRegistry → Map PluginMetadata
cleared r = if r.default_plugin == "" then r.meta else flag r.default_plugin false r.meta

cleared-IsAligned : (r : DmsRegistry) → IsAligned r → IsAligned (record r { meta = cleared r })
cleared-IsAligned r v = elim (Bool-cases (r.default_plugin == "")) [
  | inl e ↦
      subst
        (λ b.
          IsAligned (record r { meta = if b then r.meta else flag r.default_plugin false r.meta }))
        (sym e) v
  | inr e ↦
      subst
        (λ b.
          IsAligned (record r { meta = if b then r.meta else flag r.default_plugin false r.meta }))
        (sym e) (flag-IsAligned r r.default_plugin false v)
]

set_default-IsAligned :
    (r t : DmsRegistry) (name : String) → set_default r name ≡ ok t → IsAligned r → IsAligned t
unfolding set_default
set_default-IsAligned r t name h v =
    let there : exists (lookup name r.plugins) ≡ true = ground arith in
    let stored : t ≡ record r { meta = flag name true (cleared r); default_plugin = name } =
      ground arith in
    let w = flag-IsAligned (record r { meta = cleared r }) name true (cleared-IsAligned r v) in
    subst IsAligned (sym stored)
      (record { paired = w.paired; named = w.named; default_there = inr there })

check_plugin_health-IsAligned :
    (now : ℕ) (r : DmsRegistry) (name : String) (health : Option String)
    → IsAligned r
    → IsAligned (check_plugin_health now r name health)
unfolding check_plugin_health
check_plugin_health-IsAligned now r name health v = elim (Option-cases (lookup name r.meta)) [
  | inl e ↦ rw (e, check_plugin_health) v
  | inr (m, e) ↦ rw (e, check_plugin_health) (meta-IsAligned r name m _ e refl v)
]

-- The calls that change a registry, with what the adapters answer.
pub data Call : Type 0 where
  registers : ℕ → Option String → String → String → Adapter → Map Any → Bool → Call
  unregisters enables disables sets_default : String → Call
  checks : ℕ → String → Option String → Call
  closes : (String → Option String) → Call

pub call : DmsRegistry → Call → Outcome DmsRegistry
call r (registers now health name typ plugin config b) =
    register now health r name typ plugin config b
call r (unregisters name) = unregister r name
call r (enables name) = enable r name
call r (disables name) = disable r name
call r (sets_default name) = set_default r name
call r (checks now name health) = ok (check_plugin_health now r name health)
call r (closes answers) = ok (close answers r).0

call-IsAligned : (r t : DmsRegistry) (c : Call) → call r c ≡ ok t → IsAligned r → IsAligned t
unfolding call enable disable close
call-IsAligned r t (registers now health name typ plugin config b) h v =
    register-IsAligned now health r t name typ plugin config b h v
call-IsAligned r t (unregisters name) h v = unregister-IsAligned r t name h v
call-IsAligned r t (enables name) h v = change_meta-IsAligned r t name _ (λ m. refl) h v
call-IsAligned r t (disables name) h v = change_meta-IsAligned r t name _ (λ m. refl) h v
call-IsAligned r t (sets_default name) h v = set_default-IsAligned r t name h v
call-IsAligned r t (checks now name health) h v =
    let same : check_plugin_health now r name health ≡ t = ground arith in
    subst IsAligned same (check_plugin_health-IsAligned now r name health v)
call-IsAligned r t (closes answers) h v =
    let same : new_registry ≡ t = ground arith in subst IsAligned same new_registry-IsAligned

pub run : DmsRegistry → List Call → DmsRegistry
unfolding call
run r [] = r
run r (c ∷ cs) = run (after r (call r c)) cs

run_from-IsAligned : (r : DmsRegistry) (cs : List Call) → IsAligned r → IsAligned (run r cs)
unfolding run
run_from-IsAligned r [] v = v
run_from-IsAligned r (c ∷ cs) v = elim (Result-cases (call r c)) [
  | inl (t, e) ↦ rw e (run_from-IsAligned t cs (call-IsAligned r t c e v))
  | inr (x, e) ↦ rw e (run_from-IsAligned r cs v)
]

-- After any calls on a new registry, an adapter is registered exactly under the names that have
-- metadata, the metadata bear their own names, and the default, if there is one, is registered.
pub run-IsAligned : (cs : List Call) → IsAligned (run new_registry cs)
run-IsAligned cs = run_from-IsAligned new_registry cs new_registry-IsAligned
