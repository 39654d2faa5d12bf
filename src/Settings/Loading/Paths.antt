-- ===== src/Settings/Loading/Paths.antt =====
-- internal/config/config.go: which paths resolveConfigPath gives.
use netweave.Common.{
  String-cases, Result-cases, String, ◌≡◌, refl, ◌⊎◌, inl, inr, true, false, not, ◌&&◌, Option,
  none, some, ◌↔◌, arith, if◌then◌else◌, ◌==◌, codes, occurs, ◌≢◌, Bool-cases, eq_iff,
}
use netweave.Settings.{invalid_extension, empty_path, traversal}
use netweave.Settings.Checks.{Passes, ◌⨾◌, reject_iff, when_iff, false_iff, ne_iff}
use netweave.Settings.Loading.{
  validate_target, Files, Entry, missing, denied, plain, symlink, validate_config_extension,
  validate_no_traversal, validate_absolute_path, validate_config_path, resolve_config_path,
  default_config_path, environment_path, if_valid,
}

neither_iff : (x s t : String) → ((not (x == s) && not (x == t)) ≡ false) ↔ ((x ≡ s) ⊎ (x ≡ t))
neither_iff x s t = (
  λ h. elim (Bool-cases (x == s)) [
    | inl e ↦ inl ((eq_iff x s).0 e)
    | inr e ↦ inr ((eq_iff x t).0 (ground (arith, h, e)))
  ],
  λ h. elim h [
    | inl e ↦ ground (arith, (eq_iff x s).1 e)
    | inr e ↦ ground (arith, (eq_iff x t).1 e)
  ],
)

module _ (files : Files) where
  abbrev pub IsYaml : String → Type 0
  IsYaml path = (files.ext path ≡ ".yaml") ⊎ (files.ext path ≡ ".yml")

  abbrev pub IsTarget : Option String → Type 0
  IsTarget o = (target : String) × (o ≡ some target) × IsYaml target

  -- It can be looked up, and a link has a known target with the extension.
  abbrev pub IsFound : String → Type 0
  IsFound path =
      (files.lstat path ≡ missing)
      ⊎ ((files.lstat path ≡ plain)
          ⊎ ((files.lstat path ≡ symlink) × IsTarget (files.eval_symlinks path)))

  -- Not empty, with the extension, with no parent directory in it before and after it is cleaned,
  -- and found if it is absolute.
  abbrev pub IsSafe : String → Type 0
  IsSafe path =
      (path ≢ "")
      × (IsYaml path
          × ((occurs (codes path) (codes "..") ≡ false)
              × ((occurs (codes (files.clean path)) (codes "..") ≡ false)
                  × (files.is_abs (files.clean path) ≡ true → IsFound (files.clean path)))))

  extension_iff : (path : String) → Passes (validate_config_extension files path) ↔ IsYaml path
  unfolding validate_config_extension
  extension_iff path = reject_iff invalid_extension (neither_iff (files.ext path) ".yaml" ".yml")

  validate_target_iff : (o : Option String) → Passes (validate_target files o) ↔ IsTarget o
  validate_target_iff none = (λ h. absurd (ground (arith, h)), λ h. absurd (ground (arith, h.1)))
  validate_target_iff (some target) = (
    λ h. (target, refl, (extension_iff target).0 h),
    λ h. let same : target ≡ h.0 = ground (arith, h.1) in rw same ((extension_iff h.0).1 h.2),
  )

  absolute_iff :
      (path : String) (entry : Entry)
      → files.lstat path ≡ entry
      → Passes (validate_absolute_path files path) ↔ IsFound path
  unfolding validate_absolute_path
  absolute_iff path missing e = (λ h. inl e, λ h. rw e refl)
  absolute_iff path denied e =
      (λ h. absurd (ground (arith, e, h)), λ h. absurd (ground (arith, e, h)))
  absolute_iff path plain e = (λ h. inr (inl e), λ h. rw e refl)
  absolute_iff path symlink e = (
    λ h. inr (inr (e, (validate_target_iff (files.eval_symlinks path)).0 (rw e at h))),
    λ h. elim h [
      | inl f ↦ absurd (ground (arith, e, f))
      | inr (inl f) ↦ absurd (ground (arith, e, f))
      | inr (inr f) ↦ rw e ((validate_target_iff (files.eval_symlinks path)).1 f.1)
    ],
  )

  config_path_iff : (path : String) → Passes (validate_config_path files path) ↔ IsSafe path
  unfolding validate_config_path validate_no_traversal
  config_path_iff path =
      reject_iff empty_path (ne_iff path "")
      ⨾ extension_iff path
      ⨾ reject_iff traversal (false_iff (occurs (codes path) (codes "..")))
      ⨾ reject_iff traversal (false_iff (occurs (codes (files.clean path)) (codes "..")))
      ⨾ when_iff (files.is_abs (files.clean path)) _ (absolute_iff (files.clean path) _ refl)

  -- The chosen path.
  abbrev pub IsChosen : (String → String) → String → String → Type 0
  IsChosen getenv config_path path =
      (path ≡ "")
      ⊎ (IsSafe path
          ⊎ ((path ≡ environment_path (getenv "NETWEAVE_ENV"))
              × (files.exists path ≡ true)
              × (getenv "NETWEAVE_CONFIG" ≡ "")
              × (getenv "NETWEAVE_ENV" ≢ "")
              × ((config_path ≡ "") ⊎ (config_path ≡ default_config_path))))

  if_valid-IsSafe : (path : String) → (if_valid files path ≡ "") ⊎ IsSafe (if_valid files path)
  if_valid-IsSafe path = elim (Result-cases (validate_config_path files path)) [
    | inl (tt, e) ↦ rw e (inr ((config_path_iff path).0 e))
    | inr (x, e) ↦ rw e (inl refl)
  ]

  if_valid-IsChosen :
      (getenv : String → String) (config_path path : String)
      → IsChosen getenv config_path (if_valid files path)
  if_valid-IsChosen getenv config_path path = elim (if_valid-IsSafe path) [
    | inl e ↦ inl e
    | inr s ↦ inr (inl s)
  ]

  unnamed-IsChosen :
      (getenv : String → String) (config_path : String)
      → (config_path ≡ "") ⊎ (config_path ≡ default_config_path)
      → IsChosen getenv config_path (
          if not (getenv "NETWEAVE_CONFIG" == "")
          then if_valid files (getenv "NETWEAVE_CONFIG")
          else if not (getenv "NETWEAVE_ENV" == "")
              && files.exists (environment_path (getenv "NETWEAVE_ENV"))
          then environment_path (getenv "NETWEAVE_ENV")
          else "")
  unnamed-IsChosen getenv config_path h =
      let env = getenv "NETWEAVE_ENV" in
      elim (String-cases (getenv "NETWEAVE_CONFIG") "") [
        | inr (b, _) ↦ rw b (if_valid-IsChosen getenv config_path (getenv "NETWEAVE_CONFIG"))
        | inl (b, e) ↦ rw b elim (String-cases env "") [
          | inl (c, _) ↦ rw c (inl refl)
          | inr (c, n) ↦ rw c elim (Bool-cases (files.exists (environment_path env))) [
            | inl d ↦ rw d (inr (inr (refl, d, e, n, h)))
            | inr d ↦ rw d (inl refl)
          ]
        ]
      ]

  -- resolveConfigPath gives the empty path, a path that is safe to load, or the file of
  -- NETWEAVE_ENV. The last is only known to exist; it is given when that variable is set,
  -- NETWEAVE_CONFIG is not, and no path but the default is asked for.
  pub resolve_config_path-IsChosen :
      (getenv : String → String) (config_path : String)
      → IsChosen getenv config_path (resolve_config_path files getenv config_path)
  unfolding resolve_config_path
  resolve_config_path-IsChosen getenv config_path =
      elim (Bool-cases (not (config_path == "") && not (config_path == default_config_path))) [
        | inl b ↦ rw b (if_valid-IsChosen getenv config_path config_path)
        | inr b ↦ rw b (
            unnamed-IsChosen getenv config_path
              ((neither_iff config_path "" default_config_path).0 b))
      ]
