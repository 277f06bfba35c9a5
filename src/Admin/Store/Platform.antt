-- ===== src/Admin/Store/Platform.antt =====
-- The platform operations of `AdminStore`: `getAuditLogs` to `createMaintenanceWindow`.
use Prim.Native.String.{◌++◌}
use guardian_cloud.Prelude.{
  ◌+◌, not, Option, none, some, List, [], ◌∷◌, String, ◌otherwise◌, find_and_set, to_string,
  slice_last, str_eq,
}
use guardian_cloud.Admin.Types.Enums.{WindowStatus, ImpactLevel}
use guardian_cloud.Admin.Types.Security.{Value}
use guardian_cloud.Admin.Types.Partial.{PartialMaintenanceWindow}
use guardian_cloud.Admin.Types.Platform.{
  Detail, AuditLogEntry, ServiceHealth, AgentRelease, FeatureFlag, MaintenanceWindow,
}
use guardian_cloud.Admin.State.{Host, iso_now, AdminStore, notify, log_action, plain_text}

unfoldable pub get_audit_logs : AdminStore → List AuditLogEntry
get_audit_logs s = s.audit_logs

unfoldable pub get_services_health : AdminStore → List ServiceHealth
get_services_health s = s.services_health

unfoldable pub get_agent_releases : AdminStore → List AgentRelease
get_agent_releases s = s.agent_releases

abbrev pub toggled_release : AgentRelease → AgentRelease
toggled_release r = record r { is_min_supported = not r.is_min_supported }

unfoldable pub toggle_agent_min_supported :
    Host → String → AdminStore → Option AgentRelease × AdminStore
unfolding notify log_action
toggle_agent_min_supported h release_id s =
    elim (find_and_set (λ r. str_eq r.id release_id) toggled_release s.agent_releases) [
      | none ↦ (none, s)
      | some c ↦
          let details =
            some (("minSupported", Detail.value (Value.flag c.after.is_min_supported)) ∷ []) in
          (
            some c.after,
            notify (
                log_action h 0 "AGENT_RELEASE_MIN_SUPPORTED_TOGGLE" "AgentRelease" release_id
                  details (record s { agent_releases = c.items })),
          )
    ]

unfoldable pub get_feature_flags : AdminStore → List FeatureFlag
get_feature_flags s = s.feature_flags

abbrev pub toggled_flag : Host → FeatureFlag → FeatureFlag
toggled_flag h f = record f {
  enabled = not f.enabled;
  updated_at = iso_now h 0;
  updated_by = "Alexander Vance";
}

unfoldable pub toggle_feature_flag : Host → String → AdminStore → Option FeatureFlag × AdminStore
unfolding notify log_action
toggle_feature_flag h flag_id s =
    elim (find_and_set (λ f. str_eq f.id flag_id) (toggled_flag h) s.feature_flags) [
      | none ↦ (none, s)
      | some c ↦
          let details = some (
            ("key", plain_text c.after.key)
            ∷ ("enabled", Detail.value (Value.flag c.after.enabled))
            ∷ []) in
          (
            some c.after,
            notify (
                log_action h 1 "FEATURE_FLAG_TOGGLED" "FeatureFlag" flag_id details
                  (record s { feature_flags = c.items })),
          )
    ]

unfoldable pub get_maintenance_windows : AdminStore → List MaintenanceWindow
get_maintenance_windows s = s.maintenance_windows

-- the object that `createMaintenanceWindow` puts into the list
unfoldable pub new_maintenance_window : Host → PartialMaintenanceWindow → MaintenanceWindow
new_maintenance_window h input = record {
  id = "maint-" ++ slice_last 4 (to_string (h.now 0));
  title = input.title otherwise "Emergency Maintenance";
  status = WindowStatus.scheduled;
  start_at = input.start_at otherwise h.to_iso (h.now 1 + 86400000);
  end_at = input.end_at otherwise h.to_iso (h.now 2 + 90000000);
  affected_services = input.affected_services otherwise ("Guardian Edge API Gateway" ∷ []);
  impact_level = input.impact_level otherwise ImpactLevel.low;
  created_by = "Alexander Vance";
}

unfoldable pub create_maintenance_window :
    Host → PartialMaintenanceWindow → AdminStore → MaintenanceWindow × AdminStore
unfolding notify log_action
create_maintenance_window h input s =
    let w = new_maintenance_window h input in
    let details = some (("title", plain_text w.title) ∷ []) in
    let added = record s { maintenance_windows = w ∷ s.maintenance_windows } in
    (
      w,
      notify (log_action h 3 "MAINTENANCE_WINDOW_SCHEDULED" "MaintenanceWindow" w.id details added),
    )
