-- ===== src/Common/Permissions.antt =====
-- common/types/permissions.ts: the permission codes, the seeded roles and what each is granted.
pub mod Roles
mod Tests
use prime_focus_css_api.Common.{ℕ, zero, suc, Bool, true, false, ◌||◌, List, [], ◌∷◌, ◌==◌, any}

-- The codes of `PERMISSION_CATALOGUE`, in order.
pub data PermissionCode : Type 0 where
  user_read user_invite user_manage user_delete role_read : PermissionCode
  role_manage team_read team_manage api_key_read api_key_manage : PermissionCode
  audit_read product_read product_manage customer_read customer_manage : PermissionCode
  ticket_read ticket_reply ticket_assign_self ticket_assign ticket_escalate : PermissionCode
  ticket_manage ticket_delete ticket_read_all_products kb_read kb_manage : PermissionCode
  sla_manage report_view report_refresh webhook_read webhook_manage : PermissionCode
  sso_read sso_manage channel_read channel_manage retention_run : PermissionCode

abbrev pub code_number : PermissionCode → ℕ
code_number user_read = 0
code_number user_invite = 1
code_number user_manage = 2
code_number user_delete = 3
code_number role_read = 4
code_number role_manage = 5
code_number team_read = 6
code_number team_manage = 7
code_number api_key_read = 8
code_number api_key_manage = 9
code_number audit_read = 10
code_number product_read = 11
code_number product_manage = 12
code_number customer_read = 13
code_number customer_manage = 14
code_number ticket_read = 15
code_number ticket_reply = 16
code_number ticket_assign_self = 17
code_number ticket_assign = 18
code_number ticket_escalate = 19
code_number ticket_manage = 20
code_number ticket_delete = 21
code_number ticket_read_all_products = 22
code_number kb_read = 23
code_number kb_manage = 24
code_number sla_manage = 25
code_number report_view = 26
code_number report_refresh = 27
code_number webhook_read = 28
code_number webhook_manage = 29
code_number sso_read = 30
code_number sso_manage = 31
code_number channel_read = 32
code_number channel_manage = 33
code_number retention_run = 34

abbrev pub same_code : PermissionCode → PermissionCode → Bool
same_code a b = code_number a == code_number b

-- `permissions.includes(code)`
abbrev pub includes : List PermissionCode → PermissionCode → Bool
includes permissions code = any (same_code code) permissions

unfoldable pub all_permission_codes : List PermissionCode
all_permission_codes =
    user_read ∷ user_invite ∷ user_manage ∷ user_delete ∷ role_read ∷ role_manage ∷ team_read
    ∷ team_manage ∷ api_key_read ∷ api_key_manage ∷ audit_read ∷ product_read ∷ product_manage
    ∷ customer_read ∷ customer_manage ∷ ticket_read ∷ ticket_reply ∷ ticket_assign_self
    ∷ ticket_assign ∷ ticket_escalate ∷ ticket_manage ∷ ticket_delete ∷ ticket_read_all_products
    ∷ kb_read ∷ kb_manage ∷ sla_manage ∷ report_view ∷ report_refresh ∷ webhook_read
    ∷ webhook_manage ∷ sso_read ∷ sso_manage ∷ channel_read ∷ channel_manage ∷ retention_run ∷ []

pub data RoleCode : Type 0 where
  super_admin admin tier2_specialist tier1_agent : RoleCode

-- The grants of a seeded role: a list, or the wildcard.
pub data Grants : Type 0 where
  wildcard : Grants
  listed : List PermissionCode → Grants

-- The `permissions` of the entries of `SYSTEM_ROLES`.
unfoldable pub system_role_grants : RoleCode → Grants
system_role_grants super_admin = wildcard
system_role_grants admin = listed (
    user_read ∷ user_invite ∷ user_manage ∷ user_delete ∷ role_read ∷ team_read ∷ team_manage
    ∷ api_key_read ∷ api_key_manage ∷ audit_read ∷ product_read ∷ product_manage ∷ customer_read
    ∷ customer_manage ∷ ticket_read ∷ ticket_reply ∷ ticket_assign ∷ ticket_assign_self
    ∷ ticket_escalate ∷ ticket_manage ∷ ticket_read_all_products ∷ kb_read ∷ kb_manage ∷ sla_manage
    ∷ report_view ∷ report_refresh ∷ webhook_read ∷ webhook_manage ∷ sso_read ∷ sso_manage
    ∷ channel_read ∷ channel_manage ∷ [])
system_role_grants tier2_specialist = listed (
    user_read ∷ team_read ∷ product_read ∷ customer_read ∷ customer_manage ∷ ticket_read
    ∷ ticket_reply ∷ ticket_assign ∷ ticket_assign_self ∷ ticket_escalate ∷ ticket_manage ∷ kb_read
    ∷ kb_manage ∷ report_view ∷ channel_read ∷ channel_manage ∷ [])
system_role_grants tier1_agent = listed (
    user_read ∷ team_read ∷ product_read ∷ customer_read ∷ ticket_read ∷ ticket_reply
    ∷ ticket_assign_self ∷ ticket_escalate ∷ kb_read ∷ channel_read ∷ [])

unfoldable pub resolve_role_permissions : RoleCode → List PermissionCode
unfolding system_role_grants all_permission_codes
resolve_role_permissions role = elim (system_role_grants role) [
  | wildcard ↦ all_permission_codes
  | listed permissions ↦ permissions
]
