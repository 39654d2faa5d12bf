-- ===== src/Auth.antt =====
-- internal/auth/models.go: permissions, roles and the limits of a tenant. A permission is its text;
-- times and the descriptions of roles are left out.
pub mod Roles
mod Tests
use netweave.Common.{
  ℕ, String, Bool, true, false, ◌&&◌, Option, none, some, List, [], ◌∷◌, if◌then◌else◌, contains,
  ◌==◌, ℤ, pos, ltb_ℤ,
}

pub data RoleType : Type 0 where
  platform_role tenant_role : RoleType

pub record Role : Type 0 where
  pub id : String
  pub name : String
  pub role_type : RoleType
  pub permissions : List String
  pub tenant_id : String

-- Role.HasPermission
pub role_has_permission : Role → String → Bool
role_has_permission r perm = contains r.permissions perm

pub record TenantQuota : Type 0 where
  pub max_subscriptions : ℤ
  pub max_resource_pools : ℤ
  pub max_deployments : ℤ
  pub max_users : ℤ
  pub max_requests_per_minute : ℤ

pub default_quota : TenantQuota
default_quota = record {
  max_subscriptions = pos 100;
  max_resource_pools = pos 50;
  max_deployments = pos 200;
  max_users = pos 20;
  max_requests_per_minute = pos 1000;
}

pub record TenantUsage : Type 0 where
  pub subscriptions : ℤ
  pub resource_pools : ℤ
  pub deployments : ℤ
  pub users : ℤ

pub data TenantStatus : Type 0 where
  active suspended pending_deletion : TenantStatus

-- `Tenant`, its texts aside.
pub record Tenant : Type 0 where
  pub id : String
  pub status : TenantStatus
  pub quota : TenantQuota
  pub usage : TenantUsage

abbrev is_active_status : TenantStatus → Bool
is_active_status active = true
is_active_status suspended = false
is_active_status pending_deletion = false

pub is_active : Tenant → Bool
is_active t = is_active_status t.status

pub can_create_subscription : Tenant → Bool
can_create_subscription t = is_active t && ltb_ℤ t.usage.subscriptions t.quota.max_subscriptions

pub can_create_resource_pool : Tenant → Bool
can_create_resource_pool t = is_active t && ltb_ℤ t.usage.resource_pools t.quota.max_resource_pools

pub can_create_deployment : Tenant → Bool
can_create_deployment t = is_active t && ltb_ℤ t.usage.deployments t.quota.max_deployments

pub can_add_user : Tenant → Bool
can_add_user t = is_active t && ltb_ℤ t.usage.users t.quota.max_users

pub record AuthenticatedUser : Type 0 where
  pub user_id : String
  pub tenant_id : String
  pub role : Option Role
  pub is_platform_admin : Bool

abbrev role_grants : Option Role → String → Bool
role_grants none perm = false
role_grants (some r) perm = role_has_permission r perm

-- AuthenticatedUser.HasPermission
pub has_permission : AuthenticatedUser → String → Bool
has_permission u perm = if u.is_platform_admin then true else role_grants u.role perm

-- The predefined roles.
abbrev pub platform_admin_role : Role
platform_admin_role = record {
  id = "role-platform-admin";
  name = "platform-admin";
  role_type = platform_role;
  permissions =
      "tenants:read" ∷ "tenants:create" ∷ "tenants:update" ∷ "tenants:delete" ∷ "users:read"
      ∷ "users:create" ∷ "users:update" ∷ "users:delete" ∷ "roles:read" ∷ "roles:create"
      ∷ "roles:update" ∷ "roles:delete" ∷ "subscriptions:read" ∷ "subscriptions:create"
      ∷ "subscriptions:delete" ∷ "resourcePools:read" ∷ "resourcePools:create"
      ∷ "resourcePools:update" ∷ "resourcePools:delete" ∷ "resources:read" ∷ "resources:create"
      ∷ "resources:update" ∷ "resources:delete" ∷ "resourceTypes:read" ∷ "deploymentManagers:read"
      ∷ "audit:read" ∷ [];
  tenant_id = "";
}

abbrev pub tenant_admin_role : Role
tenant_admin_role = record {
  id = "role-tenant-admin";
  name = "tenant-admin";
  role_type = platform_role;
  permissions =
      "tenants:read" ∷ "tenants:create" ∷ "tenants:update" ∷ "users:read" ∷ "users:create"
      ∷ "users:update" ∷ "users:delete" ∷ "audit:read" ∷ [];
  tenant_id = "";
}

abbrev pub owner_role : Role
owner_role = record {
  id = "role-owner";
  name = "owner";
  role_type = tenant_role;
  permissions =
      "users:read" ∷ "users:create" ∷ "users:update" ∷ "users:delete" ∷ "roles:read"
      ∷ "subscriptions:read" ∷ "subscriptions:create" ∷ "subscriptions:delete"
      ∷ "resourcePools:read" ∷ "resourcePools:create" ∷ "resourcePools:update"
      ∷ "resourcePools:delete" ∷ "resources:read" ∷ "resources:create" ∷ "resources:update"
      ∷ "resources:delete" ∷ "resourceTypes:read" ∷ "deploymentManagers:read" ∷ "audit:read" ∷ [];
  tenant_id = "";
}

abbrev pub admin_role : Role
admin_role = record {
  id = "role-admin";
  name = "admin";
  role_type = tenant_role;
  permissions =
      "users:read" ∷ "users:create" ∷ "users:update" ∷ "roles:read" ∷ "subscriptions:read"
      ∷ "subscriptions:create" ∷ "subscriptions:delete" ∷ "resourcePools:read"
      ∷ "resourcePools:create" ∷ "resourcePools:update" ∷ "resourcePools:delete" ∷ "resources:read"
      ∷ "resources:create" ∷ "resources:update" ∷ "resources:delete" ∷ "resourceTypes:read"
      ∷ "deploymentManagers:read" ∷ [];
  tenant_id = "";
}

abbrev pub operator_role : Role
operator_role = record {
  id = "role-operator";
  name = "operator";
  role_type = tenant_role;
  permissions =
      "subscriptions:read" ∷ "subscriptions:create" ∷ "subscriptions:delete" ∷ "resourcePools:read"
      ∷ "resources:read" ∷ "resources:create" ∷ "resources:update" ∷ "resourceTypes:read"
      ∷ "deploymentManagers:read" ∷ [];
  tenant_id = "";
}

abbrev pub viewer_role : Role
viewer_role = record {
  id = "role-viewer";
  name = "viewer";
  role_type = tenant_role;
  permissions =
      "subscriptions:read" ∷ "resourcePools:read" ∷ "resources:read" ∷ "resourceTypes:read"
      ∷ "deploymentManagers:read" ∷ [];
  tenant_id = "";
}

unfoldable pub get_default_roles : List Role
get_default_roles =
    platform_admin_role ∷ tenant_admin_role ∷ owner_role ∷ admin_role ∷ operator_role ∷ viewer_role
    ∷ []
