-- ===== src/Common/Permissions/Roles.antt =====
-- common/types/permissions.ts: how the seeded roles compare.
use prime_focus_css_api.Common.{◌≡◌, refl, true, ◌↔◌, ◌⊎◌, arith}
use prime_focus_css_api.Common.Permissions.{
  PermissionCode, RoleCode, super_admin, admin, tier2_specialist, tier1_agent, includes,
  resolve_role_permissions, retention_run, role_manage, ticket_read_all_products,
}

-- What a tier-1 agent may do a tier-2 specialist may, what a specialist may an administrator may,
-- and the super administrator may do everything.
role_ladder :
    (code : PermissionCode)
    → (includes (resolve_role_permissions tier1_agent) code ≡ true
        → includes (resolve_role_permissions tier2_specialist) code ≡ true)
      × (includes (resolve_role_permissions tier2_specialist) code ≡ true
          → includes (resolve_role_permissions admin) code ≡ true)
      × (includes (resolve_role_permissions super_admin) code ≡ true)
unfolding resolve_role_permissions
role_ladder PermissionCode.user_read = (λ _. refl, λ _. refl, refl)
role_ladder _ = ground arith

-- Among the seeded roles only the super administrator may manage roles or run the retention sweep,
-- and only the two administrators may read across all products.
pub reserved_permissions :
    (role : RoleCode)
    → ((includes (resolve_role_permissions role) role_manage ≡ true) ↔ (role ≡ super_admin))
      × ((includes (resolve_role_permissions role) retention_run ≡ true) ↔ (role ≡ super_admin))
      × ((includes (resolve_role_permissions role) ticket_read_all_products ≡ true)
          ↔ ((role ≡ super_admin) ⊎ (role ≡ admin)))
unfolding resolve_role_permissions
reserved_permissions super_admin = ground arith
reserved_permissions _ = ground arith
