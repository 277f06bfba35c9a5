-- ===== src/Admin/Types/Iam.antt =====
-- The staff side: administrators, roles, permissions, teams, invitations and sessions
-- (web/src/types/admin.ts).
use guardian_cloud.Prelude.{ℕ, Bool, Option, List, String}
use guardian_cloud.Admin.Types.Enums.{AdminRoleType, AdminStatus, InvitationStatus, SessionStatus}

pub record GuardianAdminUser : Type 0 where
  pub id : String
  pub name : String
  pub email : String
  pub avatar_url : Option String
  pub role : AdminRoleType
  pub role_title : String
  pub team : String
  pub status : AdminStatus
  pub mfa_enabled : Bool
  pub last_login_at : String
  pub created_at : String
  pub assigned_permissions : List String

pub record GuardianRole : Type 0 where
  pub id : String
  pub key : AdminRoleType
  pub name : String
  pub description : String
  pub admin_count : ℕ
  pub is_system_role : Bool
  pub permissions : List String
  pub updated_at : String

pub record PermissionDefinition : Type 0 where
  pub id : String
  pub resource : String
  pub action : String
  pub key : String
  pub description : String
  pub category : String

pub record GuardianTeam : Type 0 where
  pub id : String
  pub name : String
  pub description : String
  pub lead_email : String
  pub member_count : ℕ
  pub slack_channel : String

pub record AdminInvitation : Type 0 where
  pub id : String
  pub email : String
  pub role : AdminRoleType
  pub team : String
  pub invited_by : String
  pub status : InvitationStatus
  pub sent_at : String
  pub expires_at : String

pub record AdminSession : Type 0 where
  pub id : String
  pub admin_id : String
  pub admin_name : String
  pub admin_email : String
  pub device : String
  pub browser : String
  pub ip_address : String
  pub location : String
  pub last_active_at : String
  pub status : SessionStatus
  pub is_current : Bool
