-- ===== src/Admin/Service.antt =====
-- The object `adminService` (web/src/services/adminService.ts): the views' way into the store. Each
-- of its methods that changes the store is a command, and hands its arguments on.
use guardian_cloud.Prelude.{Bool, true, false, Option, none, some, List, String}
use guardian_cloud.Admin.Types.Enums.{TenantStatus, UserStatus, IncidentStatus, AlertStatus}
use guardian_cloud.Admin.Types.Tenant.{Organization, IndividualUser, Plan}
use guardian_cloud.Admin.Types.Security.{Value, SecurityIncident, SecurityAlert}
use guardian_cloud.Admin.Types.Iam.{GuardianAdminUser, GuardianRole}
use guardian_cloud.Admin.Types.Partial.{
  PartialOrganization, PartialIndividualUser, PartialPlan, PartialSecurityIncident,
  PartialGuardianAdminUser, PartialMaintenanceWindow,
}
use guardian_cloud.Admin.Types.Platform.{
  AgentRelease, FeatureFlag, MaintenanceWindow, PlatformSettings,
}
use guardian_cloud.Admin.State.{Host, AdminStore}
use guardian_cloud.Admin.Store.Organizations
use guardian_cloud.Admin.Store.Users
use guardian_cloud.Admin.Store.Devices
use guardian_cloud.Admin.Store.Devices.{DeviceCommand, CommandResult}
use guardian_cloud.Admin.Store.Plans
use guardian_cloud.Admin.Store.Security
use guardian_cloud.Admin.Store.Iam
use guardian_cloud.Admin.Store.Iam.{AdminStatusChange}
use guardian_cloud.Admin.Store.Platform
use guardian_cloud.Admin.Store.Settings
use guardian_cloud.Admin.Store.Settings.{SettingsSection}

pub data Command : Type 0 where
  create_organization : PartialOrganization → Command
  update_organization : String → PartialOrganization → Command
  set_organization_status : String → TenantStatus → Option String → Command
  create_user : PartialIndividualUser → Command
  update_user : String → PartialIndividualUser → Command
  set_user_status : String → UserStatus → Option String → Command
  simulate_device_command : String → DeviceCommand → String → Command
  create_plan : PartialPlan → Command
  update_plan : String → PartialPlan → Command
  create_incident : PartialSecurityIncident → Command
  update_incident_status : String → IncidentStatus → Option String → Command
  assign_incident : String → String → String → Command
  set_alert_status : String → AlertStatus → Option String → Command
  create_admin : PartialGuardianAdminUser → Command
  update_admin : String → PartialGuardianAdminUser → Command
  set_admin_status : String → AdminStatusChange → Command
  reset_admin_mfa : String → Command
  remove_admin : String → Command
  update_role_permissions : String → List String → Command
  revoke_invitation : String → Command
  revoke_session : String → Command
  toggle_agent_min_supported : String → Command
  toggle_feature_flag : String → Command
  create_maintenance_window : PartialMaintenanceWindow → Command
  update_settings : SettingsSection → List (String × Value) → Command

-- what the methods return
pub data Reply : Type 0 where
  organization : Option Organization → Reply
  user : Option IndividualUser → Reply
  command_result : CommandResult → Reply
  plan : Option Plan → Reply
  incident : Option SecurityIncident → Reply
  alert : Option SecurityAlert → Reply
  admin : Option GuardianAdminUser → Reply
  role : Option GuardianRole → Reply
  done : Bool → Reply
  release : Option AgentRelease → Reply
  feature_flag : Option FeatureFlag → Reply
  window : MaintenanceWindow → Reply
  settings : PlatformSettings → Reply

abbrev answer : {A B : Type 0} → (A → B) → A × AdminStore → B × AdminStore
answer f (a, s) = (f a, s)

unfoldable pub dispatch : Host → Command → AdminStore → Reply × AdminStore
unfolding Organizations.create_organization Organizations.update_organization
    Organizations.set_organization_status Users.create_user Users.update_user Users.set_user_status
    Devices.simulate_device_command Plans.create_plan Plans.update_plan Security.create_incident
    Security.update_incident_status Security.assign_incident Security.set_alert_status
    Iam.create_admin Iam.update_admin Iam.set_admin_status Iam.reset_admin_mfa Iam.remove_admin
    Iam.update_role_permissions Iam.revoke_invitation Iam.revoke_session
    Platform.toggle_agent_min_supported Platform.toggle_feature_flag
    Platform.create_maintenance_window Settings.update_settings
dispatch h (create_organization input) s =
    answer (λ o. organization (some o)) (Organizations.create_organization h input s)
dispatch h (update_organization id updates) s =
    answer organization (Organizations.update_organization h id updates s)
dispatch h (set_organization_status id status reason) s =
    answer organization (Organizations.set_organization_status h id status reason s)
dispatch h (create_user input) s = answer (λ u. user (some u)) (Users.create_user h input s)
dispatch h (update_user id updates) s = answer user (Users.update_user h id updates s)
dispatch h (set_user_status id status reason) s =
    answer user (Users.set_user_status h id status reason s)
dispatch h (simulate_device_command id command reason) s =
    answer command_result (Devices.simulate_device_command h id command reason s)
dispatch h (create_plan input) s = answer (λ p. plan (some p)) (Plans.create_plan h input s)
dispatch h (update_plan id updates) s = answer plan (Plans.update_plan h id updates s)
dispatch h (create_incident input) s =
    answer (λ i. incident (some i)) (Security.create_incident h input s)
dispatch h (update_incident_status id status notes) s =
    answer incident (Security.update_incident_status h id status notes s)
dispatch h (assign_incident id name email) s =
    answer incident (Security.assign_incident h id name email s)
dispatch h (set_alert_status id status assigned_to) s =
    answer alert (Security.set_alert_status h id status assigned_to s)
dispatch h (create_admin input) s = answer (λ a. admin (some a)) (Iam.create_admin h input s)
dispatch h (update_admin id updates) s = answer admin (Iam.update_admin h id updates s)
dispatch h (set_admin_status id status) s = answer admin (Iam.set_admin_status h id status s)
dispatch h (reset_admin_mfa id) s = answer done (Iam.reset_admin_mfa h id s)
dispatch h (remove_admin id) s = answer done (Iam.remove_admin h id s)
dispatch h (update_role_permissions id permissions) s =
    answer role (Iam.update_role_permissions h id permissions s)
dispatch h (revoke_invitation id) s = answer done (Iam.revoke_invitation h id s)
dispatch h (revoke_session id) s = answer done (Iam.revoke_session h id s)
dispatch h (toggle_agent_min_supported id) s =
    answer release (Platform.toggle_agent_min_supported h id s)
dispatch h (toggle_feature_flag id) s = answer feature_flag (Platform.toggle_feature_flag h id s)
dispatch h (create_maintenance_window input) s =
    answer window (Platform.create_maintenance_window h input s)
dispatch h (update_settings section updates) s =
    answer settings (Settings.update_settings h section updates s)

-- A method reports failure by `undefined`, by `false` or in the result of a device command.
abbrev is_given : {A : Type 0} → Option A → Bool
is_given none = false
is_given (some _) = true

unfoldable pub succeeded : Reply → Bool
succeeded (organization r) = is_given r
succeeded (user r) = is_given r
succeeded (command_result r) = r.success
succeeded (plan r) = is_given r
succeeded (incident r) = is_given r
succeeded (alert r) = is_given r
succeeded (admin r) = is_given r
succeeded (role r) = is_given r
succeeded (done b) = b
succeeded (release r) = is_given r
succeeded (feature_flag r) = is_given r
succeeded (window _) = true
succeeded (settings _) = true
