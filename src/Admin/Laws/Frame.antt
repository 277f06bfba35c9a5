-- ===== src/Admin/Laws/Frame.antt =====
-- What a command leaves alone (the methods of web/src/repositories/adminStore.ts).
use guardian_cloud.Prelude.{◌≡◌, Bool, true, false, arith}
use guardian_cloud.Admin.State.{Host, AdminStore}
use guardian_cloud.Admin.Store.Devices.{DeviceCommand, devices_after}
use guardian_cloud.Admin.Service.{Command, dispatch}

-- the collections of the store
pub data Part : Type 0 where
  organizations users devices plans subscriptions security_events incidents alerts admins roles
        permissions teams invitations sessions services_health agent_releases feature_flags
        maintenance_windows settings :
      Part

-- Two stores have the same collection.
abbrev pub Same : Part → AdminStore → AdminStore → Type 0
Same Part.organizations s t = t.organizations ≡ s.organizations
Same Part.users s t = t.users ≡ s.users
Same Part.devices s t = t.devices ≡ s.devices
Same Part.plans s t = t.plans ≡ s.plans
Same Part.subscriptions s t = t.subscriptions ≡ s.subscriptions
Same Part.security_events s t = t.security_events ≡ s.security_events
Same Part.incidents s t = t.incidents ≡ s.incidents
Same Part.alerts s t = t.alerts ≡ s.alerts
Same Part.admins s t = t.admins ≡ s.admins
Same Part.roles s t = t.roles ≡ s.roles
Same Part.permissions s t = t.permissions ≡ s.permissions
Same Part.teams s t = t.teams ≡ s.teams
Same Part.invitations s t = t.invitations ≡ s.invitations
Same Part.sessions s t = t.sessions ≡ s.sessions
Same Part.services_health s t = t.services_health ≡ s.services_health
Same Part.agent_releases s t = t.agent_releases ≡ s.agent_releases
Same Part.feature_flags s t = t.feature_flags ≡ s.feature_flags
Same Part.maintenance_windows s t = t.maintenance_windows ≡ s.maintenance_windows
Same Part.settings s t = t.settings ≡ s.settings

-- The collections that a command may write to: one, or the organizations and the subscriptions
-- where an organization is created. A device command writes to the devices only if it isolates.
abbrev pub writes : Command → Part → Bool
writes (Command.create_organization _) Part.organizations = true
writes (Command.create_organization _) Part.subscriptions = true
writes (Command.update_organization _ _) Part.organizations = true
writes (Command.set_organization_status _ _ _) Part.organizations = true
writes (Command.create_user _) Part.users = true
writes (Command.update_user _ _) Part.users = true
writes (Command.set_user_status _ _ _) Part.users = true
writes (Command.simulate_device_command _ DeviceCommand.isolate _) Part.devices = true
writes (Command.create_plan _) Part.plans = true
writes (Command.update_plan _ _) Part.plans = true
writes (Command.create_incident _) Part.incidents = true
writes (Command.update_incident_status _ _ _) Part.incidents = true
writes (Command.assign_incident _ _ _) Part.incidents = true
writes (Command.set_alert_status _ _ _) Part.alerts = true
writes (Command.create_admin _) Part.admins = true
writes (Command.update_admin _ _) Part.admins = true
writes (Command.set_admin_status _ _) Part.admins = true
writes (Command.reset_admin_mfa _) Part.admins = true
writes (Command.remove_admin _) Part.admins = true
writes (Command.update_role_permissions _ _) Part.roles = true
writes (Command.revoke_invitation _) Part.invitations = true
writes (Command.revoke_session _) Part.sessions = true
writes (Command.toggle_agent_min_supported _) Part.agent_releases = true
writes (Command.toggle_feature_flag _) Part.feature_flags = true
writes (Command.create_maintenance_window _) Part.maintenance_windows = true
writes (Command.update_settings _ _) Part.settings = true
writes _ _ = false

-- A collection that a command does not write to is the same after it, whether the command
-- succeeds or fails.
pub dispatch-Same :
    (h : Host) (c : Command) (q : Part) (s : AdminStore)
    → writes c q ≡ false
    → Same q s (dispatch h c s).1
unfolding dispatch devices_after
dispatch-Same h (Command.create_organization _) Part.organizations s e = ground arith
dispatch-Same h (Command.simulate_device_command _ DeviceCommand.lock _) Part.organizations s e =
    ground arith
dispatch-Same h _ _ s e = ground arith
