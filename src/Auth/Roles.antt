-- ===== src/Auth/Roles.antt =====
-- internal/auth/models.go: what the predefined roles allow.
use netweave.Common.{
  String, ◌≡◌, refl, ap, subst, inl, inr, Bool, true, false, ◌&&◌, some, List, [], ◌∷◌, arith,
  if◌then◌else◌, Among, contains, ◌==◌, eq_iff, Bool-cases,
}
use netweave.Auth.{
  Role, tenant_role, role_has_permission, AuthenticatedUser, has_permission, get_default_roles,
  platform_admin_role, tenant_admin_role, owner_role, admin_role, operator_role, viewer_role,
}

-- All texts of the first list stand in the second.
abbrev included : List String → List String → Bool
included [] ys = true
included (x ∷ xs) ys = contains ys x && included xs ys

contains-included :
    (xs ys : List String) (p : String)
    → included xs ys ≡ true
    → contains xs p ≡ true
    → contains ys p ≡ true
contains-included [] ys p h m = absurd (ground arith)
contains-included (x ∷ xs) ys p h m = elim (Bool-cases (x == p)) [
  | inl e ↦ subst (λ q. contains ys q ≡ true) ((eq_iff x p).0 e) (ground arith)
  | inr e ↦ contains-included xs ys p (ground arith) (ground arith)
]

-- The first role has no permission that the second lacks.
abbrev pub Within : Role → Role → Type 0
Within r q = (p : String) → role_has_permission r p ≡ true → role_has_permission q p ≡ true

-- Each of the tenant roles viewer, operator, admin and owner may do what the one before it may, and
-- the platform administrator what the owner and the tenant administrator may.
pub default_roles-Within :
    Within viewer_role operator_role
    × Within operator_role admin_role
    × Within admin_role owner_role
    × Within owner_role platform_admin_role
    × Within tenant_admin_role platform_admin_role
unfolding role_has_permission
default_roles-Within = (
  λ p. contains-included viewer_role.permissions operator_role.permissions p refl,
  λ p. contains-included operator_role.permissions admin_role.permissions p refl,
  λ p. contains-included admin_role.permissions owner_role.permissions p refl,
  λ p. contains-included owner_role.permissions platform_admin_role.permissions p refl,
  λ p. contains-included tenant_admin_role.permissions platform_admin_role.permissions p refl,
)

-- The permissions on tenants and to change roles.
abbrev pub reserved : List String
reserved =
    "tenants:read" ∷ "tenants:create" ∷ "tenants:update" ∷ "tenants:delete" ∷ "roles:create"
    ∷ "roles:update" ∷ "roles:delete" ∷ []

abbrev disjoint : List String → List String → Bool
disjoint [] ys = true
disjoint (x ∷ xs) ys = if contains ys x then false else disjoint xs ys

contains-disjoint :
    (xs ys : List String) (p : String)
    → disjoint xs ys ≡ true
    → contains xs p ≡ true
    → contains ys p ≡ false
contains-disjoint [] ys p h m = absurd (ground arith)
contains-disjoint (x ∷ xs) ys p h m = elim (Bool-cases (x == p)) [
  | inl e ↦ subst (λ q. contains ys q ≡ false) ((eq_iff x p).0 e) (ground arith)
  | inr e ↦ contains-disjoint xs ys p (ground arith) (ground arith)
]

-- A user who is no platform administrator and has a predefined role of a tenant has none of the
-- permissions on tenants and none to create, change or delete roles.
pub has_permission-reserved :
    (u : AuthenticatedUser) (r : Role) (p : String)
    → u.is_platform_admin ≡ false
    → u.role ≡ some r
    → Among r get_default_roles
    → r.role_type ≡ tenant_role
    → contains reserved p ≡ true
    → has_permission u p ≡ false
unfolding has_permission role_has_permission get_default_roles
has_permission-reserved u r p plain e m t h = rw (plain, e) (go m)
  where
    on :
        (q : Role)
        → disjoint reserved q.permissions ≡ true
        → q ≡ r
        → contains r.permissions p ≡ false
    on q apart same =
        subst (λ x. contains x.permissions p ≡ false) same
          (contains-disjoint reserved q.permissions p apart h)

    go : Among r get_default_roles → contains r.permissions p ≡ false
    go (inl s) = absurd (ground (arith, ap (λ x. x.role_type) s))
    go (inr (inl s)) = absurd (ground (arith, ap (λ x. x.role_type) s))
    go (inr (inr (inl s))) = on owner_role refl s
    go (inr (inr (inr (inl s)))) = on admin_role refl s
    go (inr (inr (inr (inr (inl s))))) = on operator_role refl s
    go (inr (inr (inr (inr (inr (inl s)))))) = on viewer_role refl s
    go (inr (inr (inr (inr (inr (inr z)))))) = absurd z
