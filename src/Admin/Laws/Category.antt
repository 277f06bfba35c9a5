-- ===== src/Admin/Laws/Category.antt =====
-- The category of an audit entry (`logAction` of web/src/repositories/adminStore.ts).
use guardian_cloud.Prelude.{
  ◌≡◌, Bool, true, false, Option, none, some, List, [], ◌∷◌, arith, if◌then◌else◌,
}
use guardian_cloud.Admin.Types.Enums.{TenantStatus, UserStatus, AlertStatus, AuditCategory}
use guardian_cloud.Admin.Types.Platform.{AuditLogEntry}
use guardian_cloud.Admin.State.{Host, AdminStore, audit_entry}
use guardian_cloud.Admin.Store.Devices.{DeviceCommand}
use guardian_cloud.Admin.Store.Iam.{AdminStatusChange}
use guardian_cloud.Admin.Service.{Command, dispatch, succeeded}

-- the commands about incidents, whose actions hold the word that the category looks for
abbrev pub concerns_incident : Command → Bool
concerns_incident (Command.create_incident _) = true
concerns_incident (Command.update_incident_status _ _ _) = true
concerns_incident (Command.assign_incident _ _ _) = true
concerns_incident _ = false

abbrev pub newest_category : List AuditLogEntry → Option AuditCategory
newest_category [] = none
newest_category (e ∷ _) = some e.category

-- A command that reports success leaves an entry of the security category if it is about an
-- incident, and of the administration category if not: none is marked as an access to data.
pub dispatch-newest_category :
    (h : Host) (c : Command) (s : AdminStore)
    → succeeded (dispatch h c s).0 ≡ true
    → newest_category (dispatch h c s).1.audit_logs
      ≡ some (
          if concerns_incident c then AuditCategory.security_action else AuditCategory.admin_action)
unfolding dispatch succeeded audit_entry
dispatch-newest_category h (Command.set_organization_status _ TenantStatus.active _) s e =
    ground arith
dispatch-newest_category h (Command.set_user_status _ UserStatus.active _) s e = ground arith
dispatch-newest_category h (Command.set_alert_status _ AlertStatus.pending _) s e = ground arith
dispatch-newest_category h (Command.set_admin_status _ AdminStatusChange.active) s e = ground arith
dispatch-newest_category h (Command.simulate_device_command _ DeviceCommand.lock _) s e =
    ground arith
dispatch-newest_category h _ s e = ground arith
