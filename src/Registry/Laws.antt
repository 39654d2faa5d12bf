-- ===== src/Registry/Laws.antt =====
-- internal/registry/registry.go: Register, Unregister, Get and UpdateStatus as operations on one
-- partial map from a category and a name to a plugin.
use netweave.Common.{
  String, ◌≡◌, ◌≢◌, refl, sym, ap, ◌∙◌, subst, ◌⊎◌, inl, inr, true, false, ◌&&◌, Option, none, some,
  List, [], ◌∷◌, arith, if◌then◌else◌, Map, lookup, insert, erase, lookup-insert, lookup-erase, ok,
  err, after, ◌==◌, eq_iff, Option-cases, String-cases,
}
use netweave.Registry.{
  Plugin, Registry, Error, Outcome, not_found, no_category, category_map, exists, put_plugin,
  validate_plugin, register, unregister, get, update_status, new_registry, is_absent,
}

-- The abstract view.
abbrev pub plugin_at : Registry → String → String → Option Plugin
plugin_at r c n = lookup n (category_map c r.plugins)

plugin_at-insert :
    (m : Map (Map Plugin)) (k : String) (ps : Map Plugin) (c n : String)
    → lookup n (category_map c (insert k ps m))
      ≡ (if k == c then lookup n ps else lookup n (category_map c m))
plugin_at-insert m k ps c n = ground (arith, lookup-insert k c ps m)

-- `get` returns what the view holds, and an error where it holds nothing.
pub get-plugin_at :
    (r : Registry) (c n : String)
    → ((p : Plugin) → plugin_at r c n ≡ some p → get r c n ≡ ok p)
      × (plugin_at r c n ≡ none → (get r c n ≡ err no_category) ⊎ (get r c n ≡ err not_found))
unfolding get lookup
get-plugin_at r c n = elim (Option-cases (lookup c r.plugins)) [
  | inl e ↦ (λ p f. ground arith, λ f. inl (rw e refl))
  | inr (ps, e) ↦ (λ p f. ground arith, λ f. inr (ground arith))
]

-- A successful `register` adds exactly the plugin that it is given, where there was none.
pub register-plugin_at :
    (r t : Registry) (plugin : Option Plugin)
    → register r plugin ≡ ok t
    → (p : Plugin) × (plugin ≡ some p)
      × (plugin_at r p.category p.name ≡ none)
      × ((c n : String)
          → plugin_at t c n ≡ (if p.category == c && p.name == n then some p else plugin_at r c n))
unfolding register validate_plugin
register-plugin_at r t none h = absurd (ground arith)
register-plugin_at r t (some p) h =
    let stored : t ≡ put_plugin r p = ground arith in
    (
      p,
      refl,
      ground arith,
      λ c n.
          rw
            (
              stored,
              plugin_at-insert r.plugins p.category
                  (insert p.name p (category_map p.category r.plugins)) c n,
            )
            (ground (
              arith,
              lookup-insert p.name n p (category_map p.category r.plugins),
              eq_iff p.category c,
            )),
    )

-- A successful `unregister` removes exactly the plugin that it names.
pub unregister-plugin_at :
    (r t : Registry) (category name : String)
    → unregister r category name ≡ ok t
    → (exists (plugin_at r category name) ≡ true)
      × ((c n : String)
          → plugin_at t c n ≡ (if category == c && name == n then none else plugin_at r c n))
unfolding unregister
unregister-plugin_at r t category name h = elim (Option-cases (lookup category r.plugins)) [
  | inl e ↦ absurd (ground arith)
  | inr (ps, e) ↦
      let stored : t ≡ record { plugins = insert category (erase name ps) r.plugins } =
        ground arith in
      (
        ground arith,
        λ c n.
            rw (stored, plugin_at-insert r.plugins category (erase name ps) c n)
              (ground (arith, lookup-erase name n ps, eq_iff category c)),
      )
]

-- A successful `update_status` changes the status of the plugin that it names, and nothing else.
pub update_status-plugin_at :
    (r t : Registry) (category name status : String)
    → update_status r category name status ≡ ok t
    → (p : Plugin) × (plugin_at r category name ≡ some p)
      × ((c n : String)
          → plugin_at t c n ≡ (
              if category == c && name == n
              then some (record p { status = status })
              else plugin_at r c n))
unfolding update_status
update_status-plugin_at r t category name status h =
    elim (Option-cases (lookup category r.plugins)) [
      | inl e ↦ absurd (ground arith)
      | inr (ps, e) ↦ elim (Option-cases (lookup name ps)) [
        | inl f ↦ absurd (ground arith)
        | inr (p, f) ↦
            let q : Plugin = record p { status = status } in
            let stored : t ≡ record { plugins = insert category (insert name q ps) r.plugins } =
              ground arith in
            (
              p,
              ground arith,
              λ c n.
                  rw (stored, plugin_at-insert r.plugins category (insert name q ps) c n)
                    (ground (arith, lookup-insert name n q ps, eq_iff category c)),
            )
      ]
    ]

-- `update_status` fails only where there is no plugin.
pub update_status-err :
    (r : Registry) (category name status : String) {e : Error}
    → update_status r category name status ≡ err e
    → plugin_at r category name ≡ none
unfolding update_status lookup
update_status-err r category name status h = elim (Option-cases (lookup category r.plugins)) [
  | inl e ↦ ground arith
  | inr (ps, e) ↦ elim (Option-cases (lookup name ps)) [
    | inl f ↦ ground arith
    | inr (p, f) ↦ absurd (ground arith)
  ]
]

-- Every plugin stands under its own category and name, and was valid when it came in.
pub record IsKeyed (r : Registry) : Type 0 where
  pub place :
      (c n : String) (p : Plugin) → plugin_at r c n ≡ some p → (p.category ≡ c) × (p.name ≡ n)
  pub valid :
      (c n : String) (p : Plugin)
      → plugin_at r c n ≡ some p
      → (c ≢ "") × (n ≢ "") × (is_absent p.instance_value ≡ false)

register-valid :
    (r t : Registry) (p : Plugin)
    → register r (some p) ≡ ok t
    → (p.category ≢ "") × (p.name ≢ "") × (is_absent p.instance_value ≡ false)
unfolding register validate_plugin
register-valid r t p h =
    (λ e. ground (arith, eq_iff p.category ""), λ e. ground (arith, eq_iff p.name ""), ground arith)

register-IsKeyed :
    (r t : Registry) (plugin : Option Plugin) → register r plugin ≡ ok t → IsKeyed r → IsKeyed t
register-IsKeyed r t plugin h v =
    let (p, is, fresh, at) = register-plugin_at r t plugin h in
    let valid = register-valid r t p (subst (λ x. register r x ≡ ok t) is h) in
    record {
      place =
          λ c n q e. ground (arith, at c n, eq_iff p.category c, eq_iff p.name n, v.place c n q);
      valid = λ c n q e. elim (String-cases p.category c) [
        | inr (b, _) ↦ v.valid c n q (ground (arith, at c n))
        | inl (b, same) ↦ elim (String-cases p.name n) [
          | inr (d, _) ↦ v.valid c n q (ground (arith, at c n))
          | inl (d, same_name) ↦
              let is_q : p ≡ q = ground (arith, at c n) in
              (
                λ z. valid.0 (same ∙ z),
                λ z. valid.1 (same_name ∙ z),
                ap (λ x. is_absent x.instance_value) (sym is_q) ∙ valid.2,
              )
        ]
      ];
    }

unregister-IsKeyed :
    (r t : Registry) (category name : String)
    → unregister r category name ≡ ok t
    → IsKeyed r
    → IsKeyed t
unregister-IsKeyed r t category name h v =
    let (there, at) = unregister-plugin_at r t category name h in
    record {
      place = λ c n q e. v.place c n q (ground (arith, at c n));
      valid = λ c n q e. v.valid c n q (ground (arith, at c n));
    }

update_status-IsKeyed :
    (r t : Registry) (category name status : String)
    → update_status r category name status ≡ ok t
    → IsKeyed r
    → IsKeyed t
update_status-IsKeyed r t category name status h v =
    let (p, there, at) = update_status-plugin_at r t category name status h in
    let place = v.place category name p there in
    let valid = v.valid category name p there in
    record {
      place = λ c n q e. ground (arith, at c n, eq_iff category c, eq_iff name n, v.place c n q);
      valid = λ c n q e. elim (String-cases category c) [
        | inr (b, _) ↦ v.valid c n q (ground (arith, at c n))
        | inl (b, same) ↦ elim (String-cases name n) [
          | inr (d, _) ↦ v.valid c n q (ground (arith, at c n))
          | inl (d, same_name) ↦
              let is_q : record p { status = status } ≡ q = ground (arith, at c n) in
              (
                λ z. valid.0 (same ∙ z),
                λ z. valid.1 (same_name ∙ z),
                ap (λ x. is_absent x.instance_value) (sym is_q) ∙ valid.2,
              )
        ]
      ];
    }

-- The calls that change a registry.
pub data Call : Type 0 where
  registers : Option Plugin → Call
  unregisters : String → String → Call
  sets_status : String → String → String → Call

pub call : Registry → Call → Outcome Registry
call r (registers plugin) = register r plugin
call r (unregisters category name) = unregister r category name
call r (sets_status category name status) = update_status r category name status

-- A call that fails leaves the registry as it was.
pub run : Registry → List Call → Registry
unfolding call
run r [] = r
run r (c ∷ cs) = run (after r (call r c)) cs

run_from-IsKeyed : (r : Registry) (cs : List Call) → IsKeyed r → IsKeyed (run r cs)
unfolding run
run_from-IsKeyed r [] v = v
run_from-IsKeyed r (c ∷ cs) v = run_from-IsKeyed (after r (call r c)) cs (step c)
  where
    keep : (m : Outcome Registry) → ((t : Registry) → m ≡ ok t → IsKeyed t) → IsKeyed (after r m)
    keep (ok t) k = k t refl
    keep (err e) k = v

    step : (c : Call) → IsKeyed (after r (call r c))
    step (registers plugin) = keep (register r plugin) (λ t h. register-IsKeyed r t plugin h v)
    step (unregisters a b) = keep (unregister r a b) (λ t h. unregister-IsKeyed r t a b h v)
    step (sets_status a b s) =
        keep (update_status r a b s) (λ t h. update_status-IsKeyed r t a b s h v)

-- After any calls on a new registry, each plugin stands under its own category and name, neither of
-- them empty, and its instance is not nil.
pub run-IsKeyed : (cs : List Call) → IsKeyed (run new_registry cs)
unfolding new_registry lookup
run-IsKeyed cs =
    run_from-IsKeyed new_registry cs (record { place = λ c n p e. cc; valid = λ c n p e. cc })
