-- ===== src/Admin/Store/Iam.antt =====
-- The staff accounts of `AdminStore`: `getAdmins` to `revokeSession`.
use Prim.Native.String.{◌++◌}
use mathlib.Core.List
use guardian_cloud.Prelude.{
  Bool, true, false, not, Option, none, some, List, [], ◌∷◌, String, ◌otherwise◌, length, find,
  find_and_set, filter, to_string, slice_last, str_eq,
}
use guardian_cloud.Admin.Types.Enums.{AdminRoleType, AdminStatus, InvitationStatus, SessionStatus}
use guardian_cloud.Admin.Types.Security.{Value}
use guardian_cloud.Admin.Types.Iam.{
  GuardianAdminUser, GuardianRole, PermissionDefinition, GuardianTeam, AdminInvitation,
  AdminSession,
}
use guardian_cloud.Admin.Types.Partial.{PartialGuardianAdminUser}
use guardian_cloud.Admin.Types.Platform.{Detail}
use guardian_cloud.Admin.Types.Spread.{spread_admin}
use guardian_cloud.Admin.State.{Host, iso_now, AdminStore, notify, log_action, plain_text}

unfoldable pub get_admins : AdminStore → List GuardianAdminUser
get_admins s = s.admins

unfoldable pub get_admin_by_id : String → AdminStore → Option GuardianAdminUser
get_admin_by_id id s = find (λ a. str_eq a.id id) s.admins

-- the literal of a role
abbrev pub admin_role_text : AdminRoleType → String
admin_role_text AdminRoleType.super_admin = "SUPER_ADMIN"
admin_role_text AdminRoleType.operations_admin = "OPERATIONS_ADMIN"
admin_role_text AdminRoleType.security_admin = "SECURITY_ADMIN"
admin_role_text AdminRoleType.support_admin = "SUPPORT_ADMIN"
admin_role_text AdminRoleType.billing_admin = "BILLING_ADMIN"
admin_role_text AdminRoleType.read_only_admin = "READ_ONLY_ADMIN"

-- The table has a title for each role, so the fallback of the source is never taken.
unfoldable pub role_titles : AdminRoleType → String
role_titles AdminRoleType.super_admin = "Guardian Super Admin"
role_titles AdminRoleType.operations_admin = "Guardian Operations Admin"
role_titles AdminRoleType.security_admin = "Guardian Security Admin"
role_titles AdminRoleType.support_admin = "Guardian Support Admin"
role_titles AdminRoleType.billing_admin = "Guardian Billing Admin"
role_titles AdminRoleType.read_only_admin = "Guardian Read Only Admin"

-- the object that `createAdmin` puts into the list
unfoldable pub new_admin : Host → PartialGuardianAdminUser → GuardianAdminUser
new_admin h input = record {
  id = "adm-" ++ slice_last 4 (to_string (h.now 0));
  name = input.name otherwise "New Admin";
  email = input.email otherwise "admin@guardian.internal";
  avatar_url = none;
  role = input.role otherwise AdminRoleType.support_admin;
  role_title = role_titles (input.role otherwise AdminRoleType.support_admin);
  team = input.team otherwise "Support";
  status = AdminStatus.active;
  mfa_enabled = true;
  last_login_at = "Never";
  created_at = iso_now h 1;
  assigned_permissions = input.assigned_permissions otherwise ("organizations.read" ∷ []);
}

-- A new administrator goes to the end of the list.
unfoldable pub create_admin :
    Host → PartialGuardianAdminUser → AdminStore → GuardianAdminUser × AdminStore
unfolding notify log_action
create_admin h input s =
    let a = new_admin h input in
    let details =
      some (("email", plain_text a.email) ∷ ("role", plain_text (admin_role_text a.role)) ∷ []) in
    let added = record s { admins = List.◌++◌ s.admins (a ∷ []) } in
    (a, notify (log_action h 2 "IAM_ADMIN_CREATED" "GuardianAdminUser" a.id details added))

unfoldable pub update_admin :
    Host → String → PartialGuardianAdminUser → AdminStore → Option GuardianAdminUser × AdminStore
unfolding notify log_action
update_admin h id updates s =
    elim (find_and_set (λ a. str_eq a.id id) (λ a. spread_admin a updates) s.admins) [
      | none ↦ (none, s)
      | some c ↦
          let details = some (("updates", Detail.admin_updates updates) ∷ []) in
          (
            some c.after,
            notify (
                log_action h 0 "IAM_ADMIN_UPDATED" "GuardianAdminUser" id details
                  (record s { admins = c.items })),
          )
    ]

-- the statuses that `setAdminStatus` takes
pub data AdminStatusChange : Type 0 where
  active suspended : AdminStatusChange

abbrev pub admin_status_text : AdminStatusChange → String
admin_status_text AdminStatusChange.active = "ACTIVE"
admin_status_text AdminStatusChange.suspended = "SUSPENDED"

abbrev pub to_admin_status : AdminStatusChange → AdminStatus
to_admin_status AdminStatusChange.active = AdminStatus.active
to_admin_status AdminStatusChange.suspended = AdminStatus.suspended

abbrev pub with_admin_status : AdminStatusChange → GuardianAdminUser → GuardianAdminUser
with_admin_status status a = record a { status = to_admin_status status }

unfoldable pub set_admin_status :
    Host → String → AdminStatusChange → AdminStore → Option GuardianAdminUser × AdminStore
unfolding notify log_action
set_admin_status h id status s =
    elim (find_and_set (λ a. str_eq a.id id) (with_admin_status status) s.admins) [
      | none ↦ (none, s)
      | some c ↦ (
        some c.after,
        notify (
            log_action h 0 ("IAM_ADMIN_" ++ admin_status_text status) "GuardianAdminUser" id none
              (record s { admins = c.items })),
      )
    ]

abbrev pub without_mfa : GuardianAdminUser → GuardianAdminUser
without_mfa a = record a { mfa_enabled = false }

unfoldable pub reset_admin_mfa : Host → String → AdminStore → Bool × AdminStore
unfolding notify log_action
reset_admin_mfa h id s = elim (find_and_set (λ a. str_eq a.id id) without_mfa s.admins) [
  | none ↦ (false, s)
  | some c ↦ (
    true,
    notify (
        log_action h 0 "IAM_ADMIN_MFA_RESET" "GuardianAdminUser" id none
          (record s { admins = c.items })),
  )
]

-- The entry names the first administrator with the id; all that have it go.
unfoldable pub remove_admin : Host → String → AdminStore → Bool × AdminStore
unfolding notify log_action
remove_admin h id s = elim (find (λ a. str_eq a.id id) s.admins) [
  | none ↦ (false, s)
  | some removed ↦
      let details = some (("email", plain_text removed.email) ∷ []) in
      let kept = filter (λ a. not (str_eq a.id id)) s.admins in
      (
        true,
        notify (
            log_action h 0 "IAM_ADMIN_REMOVED" "GuardianAdminUser" id details
              (record s { admins = kept })),
      )
]

unfoldable pub get_roles : AdminStore → List GuardianRole
get_roles s = s.roles

unfoldable pub get_role_by_id : String → AdminStore → Option GuardianRole
get_role_by_id id s = find (λ r. str_eq r.id id) s.roles

abbrev pub with_permissions : Host → List String → GuardianRole → GuardianRole
with_permissions h permissions r = record r { permissions = permissions; updated_at = iso_now h 0 }

unfoldable pub update_role_permissions :
    Host → String → List String → AdminStore → Option GuardianRole × AdminStore
unfolding notify log_action
update_role_permissions h role_id permissions s =
    elim (find_and_set (λ r. str_eq r.id role_id) (with_permissions h permissions) s.roles) [
      | none ↦ (none, s)
      | some c ↦
          let details = some (("count", Detail.value (Value.num (length permissions))) ∷ []) in
          (
            some c.after,
            notify (
                log_action h 1 "IAM_ROLE_PERMISSIONS_UPDATED" "GuardianRole" role_id details
                  (record s { roles = c.items })),
          )
    ]

unfoldable pub get_permissions : AdminStore → List PermissionDefinition
get_permissions s = s.permissions

unfoldable pub get_teams : AdminStore → List GuardianTeam
get_teams s = s.teams

unfoldable pub get_invitations : AdminStore → List AdminInvitation
get_invitations s = s.invitations

abbrev pub revoked_invitation : AdminInvitation → AdminInvitation
revoked_invitation i = record i { status = InvitationStatus.revoked }

unfoldable pub revoke_invitation : Host → String → AdminStore → Bool × AdminStore
unfolding notify log_action
revoke_invitation h id s =
    elim (find_and_set (λ i. str_eq i.id id) revoked_invitation s.invitations) [
      | none ↦ (false, s)
      | some c ↦ (
        true,
        notify (
            log_action h 0 "IAM_INVITATION_REVOKED" "AdminInvitation" id none
              (record s { invitations = c.items })),
      )
    ]

unfoldable pub get_sessions : AdminStore → List AdminSession
get_sessions s = s.sessions

abbrev pub revoked_session : AdminSession → AdminSession
revoked_session x = record x { status = SessionStatus.revoked }

unfoldable pub revoke_session : Host → String → AdminStore → Bool × AdminStore
unfolding notify log_action
revoke_session h id s = elim (find_and_set (λ x. str_eq x.id id) revoked_session s.sessions) [
  | none ↦ (false, s)
  | some c ↦ (
    true,
    notify (
        log_action h 0 "IAM_SESSION_REVOKED" "AdminSession" id none
          (record s { sessions = c.items })),
  )
]
