-- ===== src/Common/Permissions/Tests.antt =====
-- common/types/permissions.ts: the seeded roles at one permission and at one role.
use prime_focus_css_api.Common.{◌≡◌, true, ◌↔◌, ◌⊎◌}
use prime_focus_css_api.Common.Permissions.{
  super_admin, admin, includes, resolve_role_permissions, retention_run, role_manage,
  ticket_read_all_products,
}
use prime_focus_css_api.Common.Permissions.Roles.{reserved_permissions}

reserved_permissions_example :
    ((includes (resolve_role_permissions admin) role_manage ≡ true) ↔ (admin ≡ super_admin))
    × ((includes (resolve_role_permissions admin) retention_run ≡ true) ↔ (admin ≡ super_admin))
    × ((includes (resolve_role_permissions admin) ticket_read_all_products ≡ true)
        ↔ ((admin ≡ super_admin) ⊎ (admin ≡ admin)))
reserved_permissions_example = reserved_permissions admin
