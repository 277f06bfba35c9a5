-- ===== src/Admin/Laws/Trail.antt =====
-- The audit trail and the notifications of the commands (`logAction` and `notify` of
-- web/src/repositories/adminStore.ts).
use mathlib.Core.List
use guardian_cloud.Prelude.{
  suc, ◌≡◌, Bool, true, false, Option, none, some, List, [], ◌∷◌, String, arith, length,
}
use guardian_cloud.Admin.Types.Platform.{AuditLogEntry}
use guardian_cloud.Admin.State.{Host, AdminStore, audit_entry}
use guardian_cloud.Admin.Store.Organizations.{new_organization}
use guardian_cloud.Admin.Store.Users.{new_user}
use guardian_cloud.Admin.Store.Plans.{new_plan}
use guardian_cloud.Admin.Store.Security.{new_incident}
use guardian_cloud.Admin.Store.Iam.{new_admin}
use guardian_cloud.Admin.Store.Platform.{new_maintenance_window}
use guardian_cloud.Admin.Store.Settings.{section_text}
use guardian_cloud.Admin.Service.{Command, dispatch, succeeded}

-- The id of the object that a command is about: for a creation that of the new object.
abbrev pub target : Host → Command → String
target h (Command.create_organization input) = (new_organization h input).id
target h (Command.update_organization id _) = id
target h (Command.set_organization_status id _ _) = id
target h (Command.create_user input) = (new_user h input).id
target h (Command.update_user id _) = id
target h (Command.set_user_status id _ _) = id
target h (Command.simulate_device_command id _ _) = id
target h (Command.create_plan input) = (new_plan h input).id
target h (Command.update_plan id _) = id
target h (Command.create_incident input) = (new_incident h input).id
target h (Command.update_incident_status id _ _) = id
target h (Command.assign_incident id _ _) = id
target h (Command.set_alert_status id _ _) = id
target h (Command.create_admin input) = (new_admin h input).id
target h (Command.update_admin id _) = id
target h (Command.set_admin_status id _) = id
target h (Command.reset_admin_mfa id) = id
target h (Command.remove_admin id) = id
target h (Command.update_role_permissions id _) = id
target h (Command.revoke_invitation id) = id
target h (Command.revoke_session id) = id
target h (Command.toggle_agent_min_supported id) = id
target h (Command.toggle_feature_flag id) = id
target h (Command.create_maintenance_window input) = (new_maintenance_window h input).id
target h (Command.update_settings section _) = section_text section

abbrev pub older : List AuditLogEntry → List AuditLogEntry
older [] = []
older (_ ∷ es) = es

abbrev pub newest_target : List AuditLogEntry → Option String
newest_target [] = none
newest_target (e ∷ _) = some e.resource_id

-- One entry about `id` stands before the old ones, and each listener was called once more.
pub record Recorded (s s' : AdminStore) (id : String) : Type 0 where
  pub kept : older s'.audit_logs ≡ s.audit_logs
  pub one_more : length s'.audit_logs ≡ suc (length s.audit_logs)
  pub about : newest_target s'.audit_logs ≡ some id
  pub notified : s'.calls ≡ List.◌++◌ s.calls s.listeners
  pub subscribed : s'.listeners ≡ s.listeners

abbrev pub Accounted : AdminStore → String → Bool × AdminStore → Type 0
Accounted s id (true, s') = Recorded s s' id
Accounted s id (false, s') = s' ≡ s

-- A command that reports success puts exactly one entry about its target before the audit log,
-- keeps the old entries and calls every listener once; one that reports failure changes nothing.
pub dispatch-Accounted :
    (h : Host) (c : Command) (s : AdminStore)
    → let (r, s') = dispatch h c s in Accounted s (target h c) (succeeded r, s')
unfolding dispatch succeeded audit_entry
dispatch-Accounted h (Command.create_organization input) s = ground arith
dispatch-Accounted h _ s = ground arith
