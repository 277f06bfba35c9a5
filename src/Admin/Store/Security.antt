-- ===== src/Admin/Store/Security.antt =====
-- The security operations of `AdminStore`: `getSecurityEvents` to `setAlertStatus`.
use Prim.Native.String.{◌++◌}
use guardian_cloud.Prelude.{
  Option, none, some, List, [], ◌∷◌, String, ◌otherwise◌, find, find_and_set, to_string, slice_last,
  str_eq,
}
use guardian_cloud.Admin.Types.Enums.{IncidentSeverity, IncidentStatus, AlertStatus}
use guardian_cloud.Admin.Types.Security.{SecurityEvent, SecurityIncident, SecurityAlert}
use guardian_cloud.Admin.Types.Partial.{PartialSecurityIncident}
use guardian_cloud.Admin.State.{
  Host, iso_now, AdminStore, notify, log_action, optional_text, plain_text,
}

-- the literals of the two kinds of status
abbrev pub incident_status_text : IncidentStatus → String
incident_status_text IncidentStatus.«open» = "OPEN"
incident_status_text IncidentStatus.investigating = "INVESTIGATING"
incident_status_text IncidentStatus.mitigated = "MITIGATED"
incident_status_text IncidentStatus.resolved = "RESOLVED"

abbrev pub alert_status_text : AlertStatus → String
alert_status_text AlertStatus.pending = "PENDING"
alert_status_text AlertStatus.acknowledged = "ACKNOWLEDGED"
alert_status_text AlertStatus.resolved = "RESOLVED"

unfoldable pub get_security_events : AdminStore → List SecurityEvent
get_security_events s = s.security_events

unfoldable pub get_incidents : AdminStore → List SecurityIncident
get_incidents s = s.incidents

unfoldable pub get_incident_by_id : String → AdminStore → Option SecurityIncident
get_incident_by_id id s = find (λ i. str_eq i.id id) s.incidents

-- the object that `createIncident` puts into the list; its id keeps three digits of the clock
unfoldable pub new_incident : Host → PartialSecurityIncident → SecurityIncident
new_incident h input = record {
  id = "inc-" ++ slice_last 3 (to_string (h.now 0));
  title = input.title otherwise "Suspicious Activity Detected";
  severity = input.severity otherwise IncidentSeverity.high;
  status = IncidentStatus.«open»;
  category = input.category otherwise "Anomalous Endpoint Behavior";
  tenant_id = input.tenant_id;
  tenant_name = some (input.tenant_name otherwise "Global Platform");
  device_id = input.device_id;
  device_hostname = input.device_hostname;
  user_id = none;
  user_name = none;
  risk_score = input.risk_score otherwise 85;
  created_at = iso_now h 1;
  updated_at = iso_now h 2;
  assigned_to_admin = some (input.assigned_to_admin otherwise "Unassigned");
  assigned_admin_email = some (input.assigned_admin_email otherwise "soc@guardian.security");
  summary = input.summary otherwise "Anomalous telemetry triggered investigative incident.";
  timeline =
      record {
        timestamp = iso_now h 3;
        title = "Incident Created";
        description = "Incident ticket manually generated in Super Admin portal.";
        actor = "Alexander Vance (Super Admin)";
      }
      ∷ [];
  related_event_ids = input.related_event_ids otherwise [];
}

unfoldable pub create_incident :
    Host → PartialSecurityIncident → AdminStore → SecurityIncident × AdminStore
unfolding notify log_action
create_incident h input s =
    let i = new_incident h input in
    let details = some (("title", plain_text i.title) ∷ []) in
    let added = record s { incidents = i ∷ s.incidents } in
    (i, notify (log_action h 4 "SECURITY_INCIDENT_CREATED" "SecurityIncident" i.id details added))

-- the `updated` of `updateIncidentStatus`
unfoldable pub with_incident_status :
    Host → IncidentStatus → Option String → SecurityIncident → SecurityIncident
with_incident_status h status notes i = record i {
  status = status;
  updated_at = iso_now h 0;
  timeline =
      record {
        timestamp = iso_now h 1;
        title = "Status Changed to " ++ incident_status_text status;
        description = notes otherwise ("Status modified to " ++ incident_status_text status);
        actor = "Alexander Vance";
      }
      ∷ i.timeline;
}

unfoldable pub update_incident_status :
    Host
    → String
    → IncidentStatus
    → Option String
    → AdminStore
    → Option SecurityIncident × AdminStore
unfolding notify log_action
update_incident_status h id status notes s =
    elim (find_and_set (λ i. str_eq i.id id) (with_incident_status h status notes) s.incidents) [
      | none ↦ (none, s)
      | some c ↦
          let details = some (
            ("previous", plain_text (incident_status_text c.before.status))
            ∷ ("newStatus", plain_text (incident_status_text status))
            ∷ ("notes", optional_text notes)
            ∷ []) in
          (
            some c.after,
            notify (
                log_action h 2 "SECURITY_INCIDENT_STATUS_CHANGE" "SecurityIncident" id details
                  (record s { incidents = c.items })),
          )
    ]

-- the `updated` of `assignIncident`
unfoldable pub with_assignee : Host → String → String → SecurityIncident → SecurityIncident
with_assignee h admin_name admin_email i = record i {
  assigned_to_admin = some admin_name;
  assigned_admin_email = some admin_email;
  updated_at = iso_now h 0;
  timeline =
      record {
        timestamp = iso_now h 1;
        title = "Assigned to " ++ admin_name;
        description = "Assigned by Alexander Vance";
        actor = "Alexander Vance";
      }
      ∷ i.timeline;
}

unfoldable pub assign_incident :
    Host → String → String → String → AdminStore → Option SecurityIncident × AdminStore
unfolding notify log_action
assign_incident h id admin_name admin_email s =
    elim (find_and_set (λ i. str_eq i.id id) (with_assignee h admin_name admin_email) s.incidents) [
      | none ↦ (none, s)
      | some c ↦
          let details = some (("assignedTo", plain_text admin_name) ∷ []) in
          (
            some c.after,
            notify (
                log_action h 2 "SECURITY_INCIDENT_ASSIGNED" "SecurityIncident" id details
                  (record s { incidents = c.items })),
          )
    ]

unfoldable pub get_alerts : AdminStore → List SecurityAlert
get_alerts s = s.alerts

-- `assignedTo ?? alert.assignedTo`
abbrev kept_assignee : Option String → Option String → Option String
kept_assignee none old = old
kept_assignee (some name) _ = some name

abbrev pub with_alert_status : AlertStatus → Option String → SecurityAlert → SecurityAlert
with_alert_status status assigned_to a = record a {
  status = status;
  assigned_to = kept_assignee assigned_to a.assigned_to;
}

unfoldable pub set_alert_status :
    Host → String → AlertStatus → Option String → AdminStore → Option SecurityAlert × AdminStore
unfolding notify log_action
set_alert_status h id status assigned_to s =
    elim (find_and_set (λ a. str_eq a.id id) (with_alert_status status assigned_to) s.alerts) [
      | none ↦ (none, s)
      | some c ↦
          let details = some (
            ("status", plain_text (alert_status_text status))
            ∷ ("assignedTo", optional_text assigned_to)
            ∷ []) in
          (
            some c.after,
            notify (
                log_action h 0 ("ALERT_" ++ alert_status_text status) "SecurityAlert" id details
                  (record s { alerts = c.items })),
          )
    ]
