-- ===== src/Admin/Laws/Ids.antt =====
-- The ids of each collection under the commands (the methods of
-- web/src/repositories/adminStore.ts).
use guardian_cloud.Prelude.{
  ◌≡◌, refl, inl, inr, true, none, List, [], map, String, arith, Bool-cases, str_eq,
}
use guardian_cloud.Prelude.Search.{map-find_and_set}
use guardian_cloud.Admin.Types.Spread.{spread_organization, spread_user, spread_plan, spread_admin}
use guardian_cloud.Admin.State.{Host, AdminStore}
use guardian_cloud.Admin.Store.Organizations.{with_tenant_status}
use guardian_cloud.Admin.Store.Users.{with_user_status}
use guardian_cloud.Admin.Store.Devices.{DeviceCommand, as_offline, devices_after}
use guardian_cloud.Admin.Store.Security.{with_incident_status, with_assignee, with_alert_status}
use guardian_cloud.Admin.Store.Iam.{
  with_admin_status, without_mfa, with_permissions, revoked_invitation, revoked_session,
}
use guardian_cloud.Admin.Store.Platform.{toggled_release, toggled_flag}
use guardian_cloud.Admin.Service.{Command, dispatch}
use guardian_cloud.Admin.Laws.Frame.{Part, Same, writes, dispatch-Same}

-- the ids of a collection, in order; the settings have none
abbrev pub ids : Part → AdminStore → List String
ids Part.organizations s = map (λ o. o.id) s.organizations
ids Part.users s = map (λ u. u.id) s.users
ids Part.devices s = map (λ d. d.id) s.devices
ids Part.plans s = map (λ p. p.id) s.plans
ids Part.subscriptions s = map (λ x. x.id) s.subscriptions
ids Part.security_events s = map (λ e. e.id) s.security_events
ids Part.incidents s = map (λ i. i.id) s.incidents
ids Part.alerts s = map (λ a. a.id) s.alerts
ids Part.admins s = map (λ a. a.id) s.admins
ids Part.roles s = map (λ r. r.id) s.roles
ids Part.permissions s = map (λ p. p.id) s.permissions
ids Part.teams s = map (λ t. t.id) s.teams
ids Part.invitations s = map (λ i. i.id) s.invitations
ids Part.sessions s = map (λ x. x.id) s.sessions
ids Part.services_health s = map (λ x. x.id) s.services_health
ids Part.agent_releases s = map (λ r. r.id) s.agent_releases
ids Part.feature_flags s = map (λ f. f.id) s.feature_flags
ids Part.maintenance_windows s = map (λ w. w.id) s.maintenance_windows
ids Part.settings s = []

pub ids-Same : (q : Part) (s t : AdminStore) → Same q s t → ids q t ≡ ids q s
ids-Same Part.organizations s t e = rw e
ids-Same _ s t e = ground arith

-- The commands that change objects in place and give no new id.
abbrev pub KeepsIds : Command → Type 0
KeepsIds (Command.create_organization _) = ⊥
KeepsIds (Command.update_organization _ updates) = updates.id ≡ none
KeepsIds (Command.create_user _) = ⊥
KeepsIds (Command.update_user _ updates) = updates.id ≡ none
KeepsIds (Command.create_plan _) = ⊥
KeepsIds (Command.update_plan _ updates) = updates.id ≡ none
KeepsIds (Command.create_incident _) = ⊥
KeepsIds (Command.create_admin _) = ⊥
KeepsIds (Command.update_admin _ updates) = updates.id ≡ none
KeepsIds (Command.remove_admin _) = ⊥
KeepsIds (Command.create_maintenance_window _) = ⊥
KeepsIds _ = Unit

dispatch-ids_written :
    (h : Host) (c : Command) (q : Part) (s : AdminStore)
    → KeepsIds c
    → writes c q ≡ true
    → ids q (dispatch h c s).1 ≡ ids q s
unfolding dispatch devices_after spread_organization spread_user spread_plan spread_admin
    with_incident_status with_assignee
dispatch-ids_written h (Command.update_organization id u) Part.organizations s k w = ground (
  arith,
  map-find_and_set (λ o. o.id) (λ o. str_eq o.id id) (λ o. spread_organization o u) s.organizations
      (λ o. ground arith),
)
dispatch-ids_written h (Command.set_organization_status id status _) Part.organizations s k w =
    ground (
      arith,
      map-find_and_set (λ o. o.id) (λ o. str_eq o.id id) (with_tenant_status status) s.organizations
          (λ o. ground arith),
    )
dispatch-ids_written h (Command.update_user id u) Part.users s k w = ground (
  arith,
  map-find_and_set (λ o. o.id) (λ o. str_eq o.id id) (λ o. spread_user o u) s.users
      (λ o. ground arith),
)
dispatch-ids_written h (Command.set_user_status id status _) Part.users s k w = ground (
  arith,
  map-find_and_set (λ o. o.id) (λ o. str_eq o.id id) (with_user_status status) s.users
      (λ o. ground arith),
)
dispatch-ids_written h (Command.simulate_device_command id DeviceCommand.isolate _) Part.devices s k
      w =
    ground (
      arith,
      map-find_and_set (λ o. o.id) (λ o. str_eq o.id id) (as_offline) s.devices (λ o. ground arith),
    )
dispatch-ids_written h (Command.update_plan id u) Part.plans s k w = ground (
  arith,
  map-find_and_set (λ o. o.id) (λ o. str_eq o.id id) (λ o. spread_plan o u) s.plans
      (λ o. ground arith),
)
dispatch-ids_written h (Command.update_incident_status id status notes) Part.incidents s k w =
    ground (
      arith,
      map-find_and_set (λ o. o.id) (λ o. str_eq o.id id) (with_incident_status h status notes)
          s.incidents (λ o. ground arith),
    )
dispatch-ids_written h (Command.assign_incident id name email) Part.incidents s k w = ground (
  arith,
  map-find_and_set (λ o. o.id) (λ o. str_eq o.id id) (with_assignee h name email) s.incidents
      (λ o. ground arith),
)
dispatch-ids_written h (Command.set_alert_status id status to) Part.alerts s k w = ground (
  arith,
  map-find_and_set (λ o. o.id) (λ o. str_eq o.id id) (with_alert_status status to) s.alerts
      (λ o. ground arith),
)
dispatch-ids_written h (Command.update_admin id u) Part.admins s k w = ground (
  arith,
  map-find_and_set (λ o. o.id) (λ o. str_eq o.id id) (λ o. spread_admin o u) s.admins
      (λ o. ground arith),
)
dispatch-ids_written h (Command.set_admin_status id status) Part.admins s k w = ground (
  arith,
  map-find_and_set (λ o. o.id) (λ o. str_eq o.id id) (with_admin_status status) s.admins
      (λ o. ground arith),
)
dispatch-ids_written h (Command.reset_admin_mfa id) Part.admins s k w = ground (
  arith,
  map-find_and_set (λ o. o.id) (λ o. str_eq o.id id) (without_mfa) s.admins (λ o. ground arith),
)
dispatch-ids_written h (Command.update_role_permissions id permissions) Part.roles s k w = ground (
  arith,
  map-find_and_set (λ o. o.id) (λ o. str_eq o.id id) (with_permissions h permissions) s.roles
      (λ o. ground arith),
)
dispatch-ids_written h (Command.revoke_invitation id) Part.invitations s k w = ground (
  arith,
  map-find_and_set (λ o. o.id) (λ o. str_eq o.id id) (revoked_invitation) s.invitations
      (λ o. ground arith),
)
dispatch-ids_written h (Command.revoke_session id) Part.sessions s k w = ground (
  arith,
  map-find_and_set (λ o. o.id) (λ o. str_eq o.id id) (revoked_session) s.sessions
      (λ o. ground arith),
)
dispatch-ids_written h (Command.toggle_agent_min_supported id) Part.agent_releases s k w = ground (
  arith,
  map-find_and_set (λ o. o.id) (λ o. str_eq o.id id) (toggled_release) s.agent_releases
      (λ o. ground arith),
)
dispatch-ids_written h (Command.toggle_feature_flag id) Part.feature_flags s k w = ground (
  arith,
  map-find_and_set (λ o. o.id) (λ o. str_eq o.id id) (toggled_flag h) s.feature_flags
      (λ o. ground arith),
)
dispatch-ids_written h (Command.update_settings _ _) Part.settings s k w = refl
dispatch-ids_written h _ _ s k w = ground arith

-- A command that gives no new id leaves the ids of every collection as they were, in order.
pub dispatch-ids :
    (h : Host) (c : Command) (q : Part) (s : AdminStore)
    → KeepsIds c
    → ids q (dispatch h c s).1 ≡ ids q s
dispatch-ids h c q s k = elim (Bool-cases (writes c q)) [
  | inl w ↦ dispatch-ids_written h c q s k w
  | inr u ↦ ids-Same q s (dispatch h c s).1 (dispatch-Same h c q s u)
]
