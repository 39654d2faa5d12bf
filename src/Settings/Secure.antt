-- ===== src/Settings/Secure.antt =====
-- internal/config/config.go: what a validated configuration of an environment has, and where the
-- Redis passwords come from.
use netweave.Common.{
  String, ◌≡◌, ◌≢◌, ◌⊎◌, inl, inr, true, Option, some, arith, String-cases, Among, ok, sym, ◌∙◌,
  Option-cases,
}
use netweave.Settings.{Config, Stat, not_exist, RedisConfig, tls_versions}
use netweave.Settings.Passwords.{get_password}
use netweave.Settings.Accepted.{IsLimit}

module _ (stat : String → Stat) where
  -- Clients must show certificates, the CA file is named and os.Stat does not say of any of the three
  -- files that it does not exist, rates are limited, and there is no debug logging.
  abbrev pub IsSecure : Config → Type 0
  IsSecure c =
      (c.tls.enabled ≡ true)
      × (c.tls.client_auth ≡ "require-and-verify")
      × (c.tls.ca_file ≢ "")
      × (stat c.tls.ca_file ≢ not_exist)
      × (stat c.tls.cert_file ≢ not_exist)
      × (stat c.tls.key_file ≢ not_exist)
      × Among c.tls.min_version tls_versions
      × (c.security.rate_limit_enabled ≡ true)
      × IsLimit c.security
      × (c.logging.level ≢ "debug")

module _ (getenv : String → String) (read_file : String → Option String) where
  -- Where the password comes from, and that it is not empty if a variable gives it.
  abbrev pub IsSource : RedisConfig → String → Type 0
  IsSource c password =
      ((c.password_env_var ≢ "") × (password ≡ getenv c.password_env_var) × (password ≢ ""))
      ⊎ (((c.password_env_var ≡ "")
            × (c.password_file ≢ "")
            × (read_file c.password_file ≡ some password))
          ⊎ ((c.password_env_var ≡ "") × (c.password_file ≡ "") × (password ≡ c.password)))

  -- The password comes from the variable that is named, or else from the file that is named, or else
  -- from the configuration: a variable that is not set, or a file that cannot be read, is an error
  -- and does not fall back to the next source.
  pub get_password-IsSource :
      (c : RedisConfig) (password : String)
      → get_password getenv read_file c ≡ ok password
      → IsSource c password
  unfolding get_password
  get_password-IsSource c password h = elim (String-cases c.password_env_var "") [
    | inr (b, n) ↦ elim (String-cases (getenv c.password_env_var) "") [
      | inl (d, e) ↦ absurd (ground (arith, h, b, d))
      | inr (d, m) ↦
          let same : getenv c.password_env_var ≡ password = ground (arith, h, b, d) in
          inl (n, sym same, λ e. m (same ∙ e))
    ]
    | inl (b, e) ↦ elim (String-cases c.password_file "") [
      | inr (d, m) ↦ elim (Option-cases (read_file c.password_file)) [
        | inl r ↦ absurd (ground (arith, h, b, d, r))
        | inr (text, r) ↦ inr (inl (e, m, ground (arith, h, b, d, r)))
      ]
      | inl (d, f) ↦ inr (inr (e, f, ground (arith, h, b, d)))
    ]
  ]
