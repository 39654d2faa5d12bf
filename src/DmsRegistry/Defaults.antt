-- ===== src/DmsRegistry/Defaults.antt =====
-- internal/dms/registry/registry.go: the default plugin, and the Default flags of the metadata.
use netweave.Common.{
  ℕ, String, ◌≡◌, ◌≢◌, sym, ap, ◌∙◌, subst, inl, inr, Bool, true, false, not, ◌&&◌, Option, none,
  some, [], ◌∷◌, arith, if◌then◌else◌, Among, Map, lookup, lookup-insert, ok, Any, ◌==◌, eq_iff,
  Bool-cases, Option-cases, String-cases,
}
use netweave.DmsRegistry.{
  Adapter, PluginMetadata, DmsRegistry, exists, new_metadata, register, flag, set_default,
  get_default, supports, capable_among, find_by_capability,
}
use netweave.DmsRegistry.Laws.{IsAligned, cleared}

-- Only the default plugin has its flag set.
abbrev pub IsSingle : DmsRegistry → Type 0
IsSingle r =
    (n : String) (m : PluginMetadata)
    → lookup n r.meta ≡ some m
    → m.default ≡ true
    → n ≡ r.default_plugin

abbrev pub set_flag : Bool → Option PluginMetadata → Option PluginMetadata
set_flag b none = none
set_flag b (some m) = some (record m { default = b })

lookup-flag :
    (name n : String) (b : Bool) (metas : Map PluginMetadata)
    → lookup n (flag name b metas)
      ≡ (if name == n then set_flag b (lookup n metas) else lookup n metas)
lookup-flag name n b metas = elim (Option-cases (lookup name metas)) [
  | inl e ↦ ground (arith, eq_iff name n)
  | inr (m, e) ↦
      ground (arith, lookup-insert name n (record m { default = b }) metas, eq_iff name n)
]

lookup-cleared :
    (r : DmsRegistry) (n : String)
    → lookup n (cleared r) ≡ (
        if not (r.default_plugin == "") && r.default_plugin == n
        then set_flag false (lookup n r.meta)
        else lookup n r.meta)
lookup-cleared r n = ground (arith, lookup-flag r.default_plugin n false r.meta)

-- Away from the new default no flag is left.
unflagged :
    (r : DmsRegistry) (n : String) (m : PluginMetadata)
    → IsAligned r
    → IsSingle r
    → lookup "" r.plugins ≡ none
    → lookup n (cleared r) ≡ some m
    → m.default ≡ false
unflagged r n m v single nameless e = elim (Bool-cases m.default) [
  | inr f ↦ f
  | inl f ↦ elim (String-cases r.default_plugin "") [
    | inl (b, empty) ↦
        let there : lookup n r.meta ≡ some m = ground (arith, lookup-cleared r n) in
        let same : n ≡ "" = single n m there f ∙ empty in
        absurd (ground (arith, v.paired "", subst (λ x. lookup x r.meta ≡ some m) same there))
    | inr (b, _) ↦ elim (String-cases r.default_plugin n) [
      | inl (c, _) ↦ ground (arith, lookup-cleared r n, Option-cases (lookup n r.meta))
      | inr (c, other) ↦
          let there : lookup n r.meta ≡ some m = ground (arith, lookup-cleared r n) in
          absurd (other (sym (single n m there f)))
    ]
  ]
]

-- After a successful `set_default` in an aligned registry where only the default is flagged and no
-- plugin has the empty name, the given plugin is the default, `get_default` returns it, and the
-- flag of each plugin says whether it is the one.
pub set_default_flags :
    (r t : DmsRegistry) (name : String)
    → IsAligned r
    → IsSingle r
    → lookup "" r.plugins ≡ none
    → set_default r name ≡ ok t
    → (t.default_plugin ≡ name)
      × (get_default t ≡ lookup name r.plugins)
      × ((n : String) (m : PluginMetadata) → lookup n t.meta ≡ some m → m.default ≡ (name == n))
unfolding set_default get_default
set_default_flags r t name v single nameless h =
    let there : exists (lookup name r.plugins) ≡ true = ground arith in
    let stored : t ≡ record r { meta = flag name true (cleared r); default_plugin = name } =
      ground arith in
    (
      ap (λ x. x.default_plugin) stored,
      ground (arith, eq_iff name ""),
      λ n m e.
          let e' : lookup n (flag name true (cleared r)) ≡ some m =
            ap (λ x. lookup n x.meta) (sym stored) ∙ e in
          elim (String-cases name n) [
            | inl (b, same) ↦
                ground
                  (arith, lookup-flag name n true (cleared r), Option-cases (lookup n (cleared r)))
            | inr (b, _) ↦
                let old : lookup n (cleared r) ≡ some m =
                  ground (arith, lookup-flag name n true (cleared r)) in
                unflagged r n m v single nameless old ∙ sym b
          ],
    )

-- A successful register of a plugin as the default, while another plugin is the flagged default,
-- leaves both flagged.
pub register_default-two_flags :
    (now : ℕ) (health : Option String) (r t : DmsRegistry) (name typ : String) (plugin : Adapter)
    (config : Map Any) (old : String) (m : PluginMetadata)
    → IsAligned r
    → lookup old r.meta ≡ some m
    → m.default ≡ true
    → register now health r name typ plugin config true ≡ ok t
    → (t.default_plugin ≡ name) × (old ≢ name) × (lookup old t.meta ≡ some m) × ¬ IsSingle t
unfolding register
register_default-two_flags now health r t name typ plugin config old m v e f h =
    let fresh : exists (lookup name r.plugins) ≡ false = ground arith in
    let other : old ≢ name =
      λ same. ground (arith, v.paired name, subst (λ x. lookup x r.meta ≡ some m) same e) in
    let kept : lookup old t.meta ≡ some m = ground (
      arith,
      lookup-insert name old (new_metadata now health name typ plugin config true) r.meta,
      eq_iff name old,
    ) in
    let here : t.default_plugin ≡ name = ground arith in
    (here, other, kept, λ single. other (single old m kept f ∙ here))

capable_among_sound :
    (capability : String) (meta : Map PluginMetadata) (ps : Map Adapter) (p : Adapter)
    → Among p (capable_among capability meta ps)
    → (n : String) × Among (n, p) ps × (supports capability (lookup n meta) ≡ true)
unfolding capable_among
capable_among_sound capability meta [] p h = absurd h
capable_among_sound capability meta ((name, q) ∷ ps) p h =
    let later : Among p (capable_among capability meta ps)
        → (n : String) × Among (n, p) ((name, q) ∷ ps)
          × (supports capability (lookup n meta) ≡ true) =
      λ m.
        let (n, there, fits) = capable_among_sound capability meta ps p m in (n, inr there, fits) in
    elim (Bool-cases (supports capability (lookup name meta))) [
      | inr b ↦ later (rw b at h)
      | inl b ↦
          let cases : Among p (q ∷ capable_among capability meta ps) = rw b at h in
          elim cases [ inl same ↦ (name, inl (ap (λ x. (name, x)) same), b) | inr m ↦ later m ]
    ]

capable_among_complete :
    (capability : String) (meta : Map PluginMetadata) (ps : Map Adapter) (n : String) (p : Adapter)
    → Among (n, p) ps
    → supports capability (lookup n meta) ≡ true
    → Among p (capable_among capability meta ps)
unfolding capable_among
capable_among_complete capability meta [] n p h e = absurd h
capable_among_complete capability meta ((name, q) ∷ ps) n p (inl same) e =
    let fits : supports capability (lookup name meta) ≡ true =
      ap (λ x. supports capability (lookup x.0 meta)) same ∙ e in
    rw fits (inl (ap (λ x. x.1) same))
capable_among_complete capability meta ((name, q) ∷ ps) n p (inr m) e =
    let rest = capable_among_complete capability meta ps n p m e in
    elim (Bool-cases (supports capability (lookup name meta))) [
      | inl b ↦ rw b (inr rest)
      | inr b ↦ rw b rest
    ]

-- `find_by_capability` returns the adapters that are registered under a name whose metadata are
-- enabled and healthy and have the capability, and no others.
pub find_by_capability_exact :
    (r : DmsRegistry) (capability : String) (p : Adapter)
    → (Among p (find_by_capability r capability)
        → (n : String) × Among (n, p) r.plugins × (supports capability (lookup n r.meta) ≡ true))
      × ((n : String)
          → Among (n, p) r.plugins
          → supports capability (lookup n r.meta) ≡ true
          → Among p (find_by_capability r capability))
unfolding find_by_capability
find_by_capability_exact r capability p = (
  capable_among_sound capability r.meta r.plugins p,
  λ n m e. capable_among_complete capability r.meta r.plugins n p m e,
)
