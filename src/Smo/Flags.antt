-- ===== src/Smo/Flags.antt =====
-- internal/smo/registry.go: the flag IsDefault of the plugins' information.
use netweave.Common.{
  ℕ, String, ◌≡◌, ◌↔◌, refl, sym, ap, ◌∙◌, subst, Bool, true, false, ◌||◌, Option, none, some,
  arith, if◌then◌else◌, lookup, insert, lookup-insert, ok, ◌==◌, eq_iff, eq_refl, inl, inr,
  Bool-cases, Option-cases, String-cases,
}
use netweave.Smo.{Registry, Plugin, PluginInfo, exists, flag, register, set_default, new_info}
use netweave.Smo.Joining.{registered, nothing_there}
use netweave.Smo.Laws.{IsConsistent, lookup-change, changed}

-- Exactly the default plugin has the flag.
abbrev pub IsMarked : Registry → Type 0
IsMarked r =
    (k : String) (info : PluginInfo)
    → lookup k r.plugin_info ≡ some info
    → info.is_default ≡ (k == r.default_plugin)

changed-flag :
    (b v : Bool) (o : Option PluginInfo) (info : PluginInfo)
    → changed b (λ i. record i { is_default = v }) o ≡ some info
    → (old : PluginInfo) × (o ≡ some old) × (info.is_default ≡ (if b then v else old.is_default))
changed-flag b v none info h = absurd (ground (arith, h))
changed-flag b v (some old) info h = (old, refl, ground (arith, h))

-- SetDefault keeps it that exactly the default plugin has the flag.
pub set_default-IsMarked :
    (r s : Registry) (name : String) → IsMarked r → set_default r name ≡ ok s → IsMarked s
unfolding set_default
set_default-IsMarked r s name m h = elim (Bool-cases (exists (lookup name r.plugins))) [
  | inr e ↦ absurd (ground (arith, h, e))
  | inl e ↦
      let infos = flag r.default_plugin false r.plugin_info in
      let result : record r { plugin_info = flag name true infos; default_plugin = name } ≡ s =
        ground (arith, h, e) in
      subst IsMarked result λ k info there.
        let (middle, found, set) =
          changed-flag (name == k) true (lookup k infos) info
            (sym (lookup-change name k _ infos) ∙ there) in
        let (old, was, cleared) =
          changed-flag (r.default_plugin == k) false (lookup k r.plugin_info) middle
            (sym (lookup-change r.default_plugin k _ r.plugin_info) ∙ found) in
        ground (
          arith,
          set,
          cleared,
          m k old was,
          eq_iff name k,
          eq_iff k name,
          eq_iff r.default_plugin k,
          eq_iff k r.default_plugin,
        )
]

module _ (r : Registry) (c : IsConsistent r) where
  default_info :
      (r.default_plugin == "") ≡ false
      → (info : PluginInfo) × (lookup r.default_plugin r.plugin_info ≡ some info)
  default_info h = elim (Option-cases (lookup r.default_plugin r.plugin_info)) [
    | inr found ↦ found
    | inl e ↦ absurd (elim c.default_there [
      | inl (d, _) ↦ ground (arith, h, eq_iff r.default_plugin "", d)
      | inr there ↦ ground (arith, there, c.same_names r.default_plugin, e)
    ])
  ]

  no_info : (r.default_plugin == "") ≡ true → (k : String) → lookup k r.plugin_info ≡ none
  no_info h k = elim (Option-cases (lookup k r.plugin_info)) [
    | inl e ↦ e
    | inr (info, e) ↦
        let there : exists (lookup k r.plugins) ≡ true = c.same_names k ∙ ap exists e in
        absurd (elim c.default_there [
          | inl (_, empty) ↦ nothing_there k (subst (λ ps. exists (lookup k ps) ≡ true) empty there)
          | inr x ↦
              let none_named : exists (lookup "" r.plugins) ≡ true =
                subst (λ n. exists (lookup n r.plugins) ≡ true) ((eq_iff r.default_plugin "").0 h)
                  x in
              ground (arith, none_named, c.no_empty_name)
        ])
  ]

  -- The default is another name than one that is not registered.
  default_other :
      (name : String)
      → exists (lookup name r.plugins) ≡ false
      → (r.default_plugin == "") ≡ false
      → ((name == r.default_plugin) ≡ false) × ((r.default_plugin == name) ≡ false)
  default_other name free h =
      let (info, e) = default_info h in
      let there : exists (lookup r.default_plugin r.plugins) ≡ true =
        c.same_names r.default_plugin ∙ ap exists e in
      elim (String-cases name r.default_plugin) [
        | inl (_, same) ↦
            absurd (
              ground
                (arith, free, subst (λ n. exists (lookup n r.plugins) ≡ true) (sym same) there))
        | inr (b, n) ↦
            (b, ground (arith, b, eq_iff name r.default_plugin, eq_iff r.default_plugin name))
      ]

  -- The registry with a new plugin.
  abbrev joined : ℕ → Bool → String → Plugin → Bool → Registry
  joined now healthy name plugin d = record {
    plugins = insert name plugin r.plugins;
    plugin_info = insert name (new_info now healthy d plugin) r.plugin_info;
    default_plugin = if d || r.default_plugin == "" then name else r.default_plugin;
  }

  module _ (m : IsMarked r) (now : ℕ) (healthy : Bool) (name : String) (plugin : Plugin)
      (free : exists (lookup name r.plugins) ≡ false) where
    abbrev info : Bool → PluginInfo
    info d = new_info now healthy d plugin

    new_there : (d : Bool) → lookup name (insert name (info d) r.plugin_info) ≡ some (info d)
    new_there d = lookup-insert name name (info d) r.plugin_info ∙ rw (eq_refl name) refl

    joined-first :
        (d : Bool)
        → (r.default_plugin == "") ≡ true
        → IsMarked (joined now healthy name plugin d) ↔ (d ≡ (r.default_plugin == ""))
    joined-first d h = (
      λ f. ground (arith, f name (info d) (new_there d), h, eq_refl name),
      λ e k i found. elim (String-cases name k) [
        | inl (b, same) ↦ ground (
          arith,
          found,
          lookup-insert name k (info d) r.plugin_info,
          b,
          e,
          h,
          (eq_iff k name).1 (sym same),
        )
        | inr (b, n) ↦
            absurd
              (ground (arith, found, lookup-insert name k (info d) r.plugin_info, b, no_info h k))
      ],
    )

    joined-later :
        (d : Bool)
        → (r.default_plugin == "") ≡ false
        → IsMarked (joined now healthy name plugin d) ↔ (d ≡ (r.default_plugin == ""))
    joined-later d h =
        let (left, right) = default_other name free h in
        let (old, was) = default_info h in
        let kept : lookup r.default_plugin (insert name (info d) r.plugin_info) ≡ some old =
          lookup-insert name r.default_plugin (info d) r.plugin_info ∙ rw left was in
        (
          λ f. ground (
            arith,
            f r.default_plugin old kept,
            m r.default_plugin old was,
            h,
            eq_refl r.default_plugin,
            right,
          ),
          λ e k i found. elim (String-cases name k) [
            | inl (b, same) ↦ ground (
              arith,
              found,
              lookup-insert name k (info d) r.plugin_info,
              b,
              e,
              h,
              subst (λ n. (n == r.default_plugin) ≡ false) same left,
            )
            | inr (b, n) ↦ ground (
              arith,
              found,
              lookup-insert name k (info d) r.plugin_info,
              b,
              e,
              h,
              m k i (sym (lookup-insert name k (info d) r.plugin_info ∙ rw b refl) ∙ found),
            )
          ],
        )

  -- In a consistent registry where exactly the default plugin has the flag, a successful Register
  -- leaves it so if and only if the caller asks for a default exactly when there is none yet.
  pub register-IsMarked :
      (now : ℕ) (healthy : Bool) (s : Registry) (name : String) (given : Option Plugin) (d : Bool)
      → IsMarked r
      → register now healthy r name given d ≡ ok s
      → IsMarked s ↔ (d ≡ (r.default_plugin == ""))
  register-IsMarked now healthy s name given d m h =
      let (plugin, _, free, e) = registered now healthy r s name given d h in
      subst (λ t. IsMarked t ↔ (d ≡ (r.default_plugin == ""))) (sym e)
        (elim (Bool-cases (r.default_plugin == "")) [
          | inl b ↦ (joined-first m now healthy name plugin free d b)
          | inr b ↦ (joined-later m now healthy name plugin free d b)
        ])
