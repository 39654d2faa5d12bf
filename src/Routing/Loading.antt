-- ===== src/Routing/Loading.antt =====
-- internal/routing/config.go: what the validation of a configuration is worth.
use netweave.Common.{
  ◌≡◌, ◌≢◌, refl, ap, ◌∙◌, subst, false, some, List, [], ◌∷◌, arith, All, ok, ◌==◌, eq_iff, pos,
  ltb_ℤ, ◌≤ℤ◌, >>=-eq-ok,
}
use netweave.Routing.{Rule}
use netweave.Routing.Rules.{Rearranges, Sorter, higher, sort_rules}
use netweave.Routing.Config.{
  RuleConfig, Config, convert_rule_config, load_rules, load_rules_from_config, validate_rule_config,
  converted, validate_rules, validate_routing_config, convert_rules, new_router,
}

-- A rule that can be used: it has a name and an adapter name, and its priority is positive.
abbrev pub IsUsable : Rule → Type 0
IsUsable rule = (rule.name ≢ "") × (rule.adapter_name ≢ "") × (pos 1 ≤ℤ rule.priority)

validate-convert :
    (c : RuleConfig)
    → validate_rule_config c ≡ ok tt
    → (rule : Rule) × (convert_rule_config c ≡ ok rule) × IsUsable rule
unfolding validate_rule_config convert_rule_config
validate-convert c h =
    let named : (c.name == "") ≡ false = ground arith in
    let plugged : (c.plugin == "") ≡ false = ground arith in
    let priority : ltb_ℤ c.priority (pos 0) ≡ false = ground arith in
    (
      converted c,
      rw (named, plugged, convert_rule_config) refl,
      (
        λ e. ground (arith, eq_iff c.name ""),
        λ e. ground (arith, eq_iff c.plugin ""),
        ground arith,
      ),
    )

validate-load :
    (cs : List RuleConfig)
    → validate_rules cs ≡ ok tt
    → (rules : List Rule) × (load_rules cs ≡ ok rules) × All IsUsable rules
unfolding validate_rules load_rules
validate-load [] h = ([], refl, tt)
validate-load (c ∷ cs) h =
    let (u, first, rest) = >>=-eq-ok (validate_rule_config c) _ h in
    let (rule, e, usable) = validate-convert c first in
    let (rules, f, all_usable) = validate-load cs rest in
    (rule ∷ rules, rw (e, f) refl, (usable, all_usable))

load-convert :
    (cs : List RuleConfig) (rules : List Rule) → load_rules cs ≡ ok rules → convert_rules cs ≡ rules
unfolding load_rules convert_rules
load-convert [] rules h = ground arith
load-convert (c ∷ cs) rules h =
    let (rule, e, rest) = >>=-eq-ok (convert_rule_config c) _ h in
    let (others, f, same) = >>=-eq-ok (load_rules cs) _ rest in
    rw e (ap (◌∷◌ rule) (load-convert cs others f) ∙ ground arith)

-- A configuration that validate_routing_config accepts is loaded without an error; each loaded rule
-- has a name, an adapter name and a positive priority; and new_router has exactly these rules, in
-- some order.
pub validate_routing_config-new_router :
    (sorter : Sorter) (config : Config)
    → validate_routing_config (some config) ≡ ok tt
    → (rules : List Rule) × (load_rules_from_config (some config) ≡ ok rules)
      × All IsUsable rules
      × Rearranges (new_router sorter (some config)).rules rules
unfolding validate_routing_config load_rules_from_config new_router sort_rules
validate_routing_config-new_router sorter config h =
    let (rules, e, usable) = validate-load config.rules h in
    (
      rules,
      e,
      usable,
      subst (Rearranges (sorter.sort_slice higher (convert_rules config.rules)))
          (load-convert config.rules rules e) (sorter.permutes higher (convert_rules config.rules)),
    )
