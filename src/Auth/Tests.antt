-- ===== src/Auth/Tests.antt =====
-- The theorems on roles at a concrete user.
use netweave.Common.{◌≡◌, refl, inl, inr, false, some, Among}
use netweave.Auth.{AuthenticatedUser, has_permission, get_default_roles, operator_role}
use netweave.Auth.Roles.{has_permission-reserved}

abbrev alice : AuthenticatedUser
alice = record {
  user_id = "alice";
  tenant_id = "acme";
  role = some operator_role;
  is_platform_admin = false;
}

operator_there : Among operator_role get_default_roles
unfolding get_default_roles
operator_there = inr (inr (inr (inr (inl refl))))

has_permission-reserved_example : has_permission alice "tenants:delete" ≡ false
has_permission-reserved_example =
    has_permission-reserved alice operator_role "tenants:delete" refl refl operator_there refl refl
