-- ===== src/Smo/Joining.antt =====
-- internal/smo/registry.go: Register and Unregister keep the invariant.
use netweave.Common.{
  String, ◌≡◌, refl, sym, ap, ◌∙◌, ◌⊎◌, inl, inr, Bool, true, false, ◌||◌, Option, none, some, [],
  ◌∷◌, arith, if◌then◌else◌, Map, lookup, insert, erase, lookup-insert, lookup-erase, subst, Unique,
  insert-Unique, erase-Unique, ok, ◌==◌, eq_iff, eq_refl, ℕ, Bool-cases,
}
use netweave.Smo.{
  Registry, Plugin, PluginInfo, exists, new_info, register, unregister, choose_default,
}
use netweave.Smo.Laws.{IsConsistent, exists-change, change-Unique}

exists-insert :
    {V : Type 0} (name k : String) (v : V) (m : Map V)
    → exists (lookup k (insert name v m)) ≡ (if name == k then true else exists (lookup k m))
exists-insert name k v m = elim (Bool-cases (name == k)) [
  | inl b ↦ rw (lookup-insert name k v m, b) refl
  | inr b ↦ rw (lookup-insert name k v m, b) refl
]

exists-erase :
    {V : Type 0} (name k : String) (m : Map V)
    → exists (lookup k (erase name m)) ≡ (if name == k then false else exists (lookup k m))
exists-erase name k m = elim (Bool-cases (name == k)) [
  | inl b ↦ rw (lookup-erase name k m, b) refl
  | inr b ↦ rw (lookup-erase name k m, b) refl
]

pub registered :
    (now : ℕ) (healthy : Bool) (r s : Registry) (name : String) (given : Option Plugin) (d : Bool)
    → register now healthy r name given d ≡ ok s
    → (plugin : Plugin) × ((name == "") ≡ false)
      × (exists (lookup name r.plugins) ≡ false)
      × (s ≡ record {
        plugins = insert name plugin r.plugins;
        plugin_info = insert name (new_info now healthy d plugin) r.plugin_info;
        default_plugin = if d || r.default_plugin == "" then name else r.default_plugin;
      })
unfolding register
registered now healthy r s name none d h =
    absurd (elim (Bool-cases (name == "")) [
      | inl b ↦ ground (arith, h, b)
      | inr b ↦ ground (arith, h, b)
    ])
registered now healthy r s name (some plugin) d h = elim (Bool-cases (name == "")) [
  | inl b ↦ absurd (ground (arith, h, b))
  | inr b ↦ elim (Bool-cases (exists (lookup name r.plugins))) [
    | inl e ↦ absurd (ground (arith, h, b, e))
    | inr e ↦ (plugin, b, e, ground (arith, h, b, e))
  ]
]

kept_there :
    (name : String) (plugin : Plugin) (k : String) (ps : Map Plugin)
    → exists (lookup k ps) ≡ true
    → exists (lookup k (insert name plugin ps)) ≡ true
kept_there name plugin k ps h =
    exists-insert name k plugin ps
    ∙ elim (Bool-cases (name == k)) [ inl b ↦ rw b refl | inr b ↦ rw b h ]

default_there-register :
    (name : String) (plugin : Plugin) (d : Bool) (r : Registry)
    → (r.default_plugin ≡ "") × (r.plugins ≡ [])
      ⊎ (exists (lookup r.default_plugin r.plugins) ≡ true)
    → let chosen = if d || r.default_plugin == "" then name else r.default_plugin in
      (chosen ≡ "") × (insert name plugin r.plugins ≡ [])
      ⊎ (exists (lookup chosen (insert name plugin r.plugins)) ≡ true)
default_there-register name plugin d r there = elim (Bool-cases (d || r.default_plugin == "")) [
  | inl t ↦ rw t (inr (exists-insert name name plugin r.plugins ∙ rw (eq_refl name) refl))
  | inr f ↦ elim there [
    | inl (e, _) ↦ absurd (ground (arith, f, eq_iff r.default_plugin "", e))
    | inr x ↦ rw f (inr (kept_there name plugin r.default_plugin r.plugins x))
  ]
]

pub register-IsConsistent :
    (now : ℕ) (healthy : Bool) (r s : Registry) (name : String) (given : Option Plugin) (d : Bool)
    → IsConsistent r
    → register now healthy r name given d ≡ ok s
    → IsConsistent s
register-IsConsistent now healthy r s name given d c h =
    let (plugin, b, _, e) = registered now healthy r s name given d h in
    let info = new_info now healthy d plugin in
    subst IsConsistent (sym e) (record {
      same_names = λ k.
          exists-insert name k plugin r.plugins
          ∙ ap (λ x. if name == k then true else x) (c.same_names k)
          ∙ sym (exists-insert name k info r.plugin_info);
      unique_plugins = insert-Unique name plugin r.plugins c.unique_plugins;
      unique_infos = insert-Unique name info r.plugin_info c.unique_infos;
      no_empty_name = rw (lookup-insert name "" plugin r.plugins, b) c.no_empty_name;
      default_there = default_there-register name plugin d r (c.default_there);
    })

pub nothing_there : (name : String) → exists (lookup {V = Plugin} name []) ≡ true → ⊥
unfolding lookup
nothing_there name h = ground (arith, h)

first_there : (n : String) (p : Plugin) (ps : Map Plugin) → exists (lookup n ((n, p) ∷ ps)) ≡ true
unfolding lookup
first_there n p ps = rw (eq_refl n) refl

choose_default-IsConsistent :
    (ps : Map Plugin) (infos : Map PluginInfo)
    → ((k : String) → exists (lookup k ps) ≡ exists (lookup k infos))
    → Unique ps
    → Unique infos
    → lookup "" ps ≡ none
    → IsConsistent (choose_default ps infos)
unfolding choose_default
choose_default-IsConsistent [] infos same u v empty = record {
  same_names = same;
  unique_plugins = u;
  unique_infos = v;
  no_empty_name = empty;
  default_there = inl (refl, refl);
}
choose_default-IsConsistent ((n, p) ∷ ps) infos same u v empty = record {
  same_names = λ k. same k ∙ sym (exists-change n k _ infos);
  unique_plugins = u;
  unique_infos = change-Unique n _ infos v;
  no_empty_name = empty;
  default_there = inr (first_there n p ps);
}

default_there-erase :
    (r : Registry) (name : String)
    → (r.default_plugin == name) ≡ false
    → exists (lookup name r.plugins) ≡ true
    → (r.default_plugin ≡ "") × (r.plugins ≡ [])
      ⊎ (exists (lookup r.default_plugin r.plugins) ≡ true)
    → exists (lookup r.default_plugin (erase name r.plugins)) ≡ true
default_there-erase r name d e (inl (_, empty)) =
    absurd (nothing_there name (subst (λ ps. exists (lookup name ps) ≡ true) empty e))
default_there-erase r name d e (inr x) =
    let other : (name == r.default_plugin) ≡ false =
      ground (arith, d, eq_iff r.default_plugin name, eq_iff name r.default_plugin) in
    exists-erase name r.default_plugin r.plugins ∙ rw other x

pub unregister-IsConsistent :
    (r s : Registry) (name : String) → IsConsistent r → unregister r name ≡ ok s → IsConsistent s
unfolding unregister
unregister-IsConsistent r s name c h = elim (Bool-cases (exists (lookup name r.plugins))) [
  | inr e ↦ absurd (ground (arith, h, e))
  | inl e ↦
      let ps = erase name r.plugins in
      let infos = erase name r.plugin_info in
      let same : (k : String) → exists (lookup k ps) ≡ exists (lookup k infos) = λ k.
        exists-erase name k r.plugins
        ∙ ap (λ x. if name == k then false else x) (c.same_names k)
        ∙ sym (exists-erase name k r.plugin_info) in
      let u = erase-Unique name r.plugins c.unique_plugins in
      let v = erase-Unique name r.plugin_info c.unique_infos in
      let empty : lookup "" ps ≡ none =
        lookup-erase name "" r.plugins
        ∙ elim (Bool-cases (name == "")) [ inl b ↦ rw b refl | inr b ↦ rw b c.no_empty_name ] in
      elim (Bool-cases (r.default_plugin == name)) [
        | inl d ↦
            let chosen : choose_default ps infos ≡ s = ground (arith, h, e, d) in
            subst IsConsistent chosen (choose_default-IsConsistent ps infos same u v empty)
        | inr d ↦
            let left : record r { plugins = ps; plugin_info = infos } ≡ s =
              ground (arith, h, e, d) in
            subst IsConsistent left (record {
              same_names = same;
              unique_plugins = u;
              unique_infos = v;
              no_empty_name = empty;
              default_there = inr (default_there-erase r name d e c.default_there);
            })
      ]
]
