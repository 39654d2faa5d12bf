-- ===== src/Smo/Laws.antt =====
-- internal/smo/registry.go: the invariant of the registry.
use netweave.Common.{
  String, ◌≡◌, refl, sym, ap, ◌∙◌, ◌⊎◌, inl, inr, Bool, true, false, Option, none, some, [], ◌∷◌,
  arith, if◌then◌else◌, Map, lookup, lookup-insert, subst, Unique, insert-Unique, ok, ◌==◌, ℕ,
  Bool-cases, Option-cases, String-cases,
}
use netweave.Smo.{
  Registry, Plugin, PluginInfo, exists, set_default, flag, change, put_changed, check_each,
  check_all_plugins_health, note_health,
}

-- Each plugin has its information and no other name has any, no key stands twice, and the default is
-- a registered plugin, which is missing only from an empty registry.
pub record IsConsistent (r : Registry) : Type 0 where
  pub same_names : (k : String) → exists (lookup k r.plugins) ≡ exists (lookup k r.plugin_info)
  pub unique_plugins : Unique r.plugins
  pub unique_infos : Unique r.plugin_info
  pub no_empty_name : lookup "" r.plugins ≡ none
  pub default_there :
      (r.default_plugin ≡ "") × (r.plugins ≡ [])
      ⊎ (exists (lookup r.default_plugin r.plugins) ≡ true)

abbrev pub changed : Bool → (PluginInfo → PluginInfo) → Option PluginInfo → Option PluginInfo
changed b f none = none
changed b f (some info) = some (if b then f info else info)

lookup-put_changed :
    (found : Option PluginInfo) (name k : String) (f : PluginInfo → PluginInfo)
    (infos : Map PluginInfo)
    → lookup name infos ≡ found
    → lookup k (put_changed found name f infos) ≡ changed (name == k) f (lookup k infos)
lookup-put_changed none name k f infos e = elim (String-cases name k) [
  | inl (b, same) ↦
      let missing : lookup k infos ≡ none = subst (λ n. lookup n infos ≡ none) same e in
      rw missing refl
  | inr (b, n) ↦ elim (Option-cases (lookup k infos)) [
    | inl missing ↦ rw missing refl
    | inr (info, there) ↦ rw (there, b) refl
  ]
]
lookup-put_changed (some info) name k f infos e =
    lookup-insert name k (f info) infos ∙ elim (String-cases name k) [
      | inl (b, same) ↦
          let there : lookup k infos ≡ some info = subst (λ n. lookup n infos ≡ some info) same e in
          rw (there, b) refl
      | inr (b, n) ↦ elim (Option-cases (lookup k infos)) [
        | inl missing ↦ rw (missing, b) refl
        | inr (other, there) ↦ rw (there, b) refl
      ]
    ]

pub lookup-change :
    (name k : String) (f : PluginInfo → PluginInfo) (infos : Map PluginInfo)
    → lookup k (change name f infos) ≡ changed (name == k) f (lookup k infos)
lookup-change name k f infos = lookup-put_changed (lookup name infos) name k f infos refl

exists-changed :
    (b : Bool) (f : PluginInfo → PluginInfo) (o : Option PluginInfo)
    → exists (changed b f o) ≡ exists o
exists-changed b f none = refl
exists-changed b f (some info) = refl

pub exists-change :
    (name k : String) (f : PluginInfo → PluginInfo) (infos : Map PluginInfo)
    → exists (lookup k (change name f infos)) ≡ exists (lookup k infos)
exists-change name k f infos =
    ap exists (lookup-change name k f infos) ∙ exists-changed (name == k) f (lookup k infos)

put_changed-Unique :
    (found : Option PluginInfo) (name : String) (f : PluginInfo → PluginInfo)
    (infos : Map PluginInfo)
    → Unique infos
    → Unique (put_changed found name f infos)
put_changed-Unique none name f infos u = u
put_changed-Unique (some info) name f infos u = insert-Unique name (f info) infos u

pub change-Unique :
    (name : String) (f : PluginInfo → PluginInfo) (infos : Map PluginInfo)
    → Unique infos
    → Unique (change name f infos)
change-Unique name f infos u = put_changed-Unique (lookup name infos) name f infos u

exists-check_each :
    (now : ℕ) (health : Plugin → Bool) (ps : Map Plugin) (infos : Map PluginInfo) (k : String)
    → exists (lookup k (check_each now health ps infos)) ≡ exists (lookup k infos)
unfolding check_each
exists-check_each now health [] infos k = refl
exists-check_each now health ((name, p) ∷ ps) infos k =
    exists-check_each now health ps (note_health now name (health p) infos) k
    ∙ exists-change name k _ infos

check_each-Unique :
    (now : ℕ) (health : Plugin → Bool) (ps : Map Plugin) (infos : Map PluginInfo)
    → Unique infos
    → Unique (check_each now health ps infos)
unfolding check_each
check_each-Unique now health [] infos u = u
check_each-Unique now health ((name, p) ∷ ps) infos u =
    check_each-Unique now health ps _ (change-Unique name _ infos u)

pub check_all-IsConsistent :
    (now : ℕ) (health : Plugin → Bool) (r : Registry)
    → IsConsistent r
    → IsConsistent (check_all_plugins_health now health r)
unfolding check_all_plugins_health
check_all-IsConsistent now health r c = record {
  same_names = λ k. c.same_names k ∙ sym (exists-check_each now health r.plugins r.plugin_info k);
  unique_plugins = c.unique_plugins;
  unique_infos = check_each-Unique now health r.plugins r.plugin_info c.unique_infos;
  no_empty_name = c.no_empty_name;
  default_there = c.default_there;
}

pub set_default-IsConsistent :
    (r s : Registry) (name : String) → IsConsistent r → set_default r name ≡ ok s → IsConsistent s
unfolding set_default
set_default-IsConsistent r s name c h = elim (Bool-cases (exists (lookup name r.plugins))) [
  | inr e ↦ absurd (ground (arith, h, e))
  | inl e ↦
      let infos = flag r.default_plugin false r.plugin_info in
      let result : record r { plugin_info = flag name true infos; default_plugin = name } ≡ s =
        ground (arith, h, e) in
      subst IsConsistent result (record {
        same_names = λ k.
            c.same_names k
            ∙ sym (exists-change name k _ infos ∙ exists-change r.default_plugin k _ r.plugin_info);
        unique_plugins = c.unique_plugins;
        unique_infos =
            change-Unique name _ infos
              (change-Unique r.default_plugin _ r.plugin_info c.unique_infos);
        no_empty_name = c.no_empty_name;
        default_there = inr e;
      })
]
