-- ===== src/Admin/Seed/Audit.antt =====
-- The audit part of web/src/mock/adminMockData.ts, the data that the store begins with.
use guardian_cloud.Prelude.{true, false, some, List, [], ◌∷◌}
use guardian_cloud.Admin.Types.Enums.{AuditResult, AuditCategory}
use guardian_cloud.Admin.Types.Security.{Value}
use guardian_cloud.Admin.Types.Platform.{Detail, AuditLogEntry}

abbrev pub initial_audit_logs : List AuditLogEntry
initial_audit_logs =
    record {
      id = "aud-701";
      timestamp = "2026-09-06T14:50:12Z";
      actor_name = "Alexander Vance";
      actor_email = "alexander.vance@guardian.internal";
      actor_role = "Guardian Super Admin";
      action = "TENANT_SUSPEND_MODIFIED";
      resource = "Tenant";
      resource_id = "org-106";
      result = AuditResult.success;
      ip_address = "198.51.100.12";
      request_id = "req-99f2-8812";
      category = AuditCategory.admin_action;
      is_sensitive_data_access = some false;
      details = some (
          (
            "reason",
            Detail.value
                (Value.text "Severe policy violation; ransomware beacon quarantine pending"),
          )
          ∷ ("previousStatus", Detail.value (Value.text "ACTIVE"))
          ∷ ("newStatus", Detail.value (Value.text "SUSPENDED"))
          ∷ []);
    }
    ∷ record {
      id = "aud-702";
      timestamp = "2026-09-06T14:42:00Z";
      actor_name = "Devon Vance";
      actor_email = "devon.vance@guardian.internal";
      actor_role = "Guardian Security Admin";
      action = "INCIDENT_TRIAGE_ESCALATE";
      resource = "SecurityIncident";
      resource_id = "inc-901";
      result = AuditResult.success;
      ip_address = "203.0.113.45";
      request_id = "req-33c1-0198";
      category = AuditCategory.security_action;
      is_sensitive_data_access = some false;
      details = some (
          ("severity", Detail.value (Value.text "CRITICAL"))
          ∷ ("assignedTo", Detail.value (Value.text "SOC War Room"))
          ∷ ("targetHost", Detail.value (Value.text "CYBERDYNE-WKSTN-08"))
          ∷ []);
    }
    ∷ record {
      id = "aud-703";
      timestamp = "2026-09-06T14:30:19Z";
      actor_name = "Chloe Lin";
      actor_email = "chloe.lin@guardian.internal";
      actor_role = "Guardian Support Admin";
      action = "DECRYPTED_FORENSIC_TELEMETRY_VIEWED";
      resource = "EvidenceMetadata";
      resource_id = "evid-99823";
      result = AuditResult.success;
      ip_address = "198.51.100.99";
      request_id = "req-44a8-7712";
      category = AuditCategory.data_access;
      is_sensitive_data_access = some true;
      details = some (
          (
            "justification",
            Detail.value (
                Value.text
                  "Tenant support ticket #TK-88190: investigative inspection of eBPF dump"),
          )
          ∷ []);
    }
    ∷ record {
      id = "aud-704";
      timestamp = "2026-09-06T14:15:33Z";
      actor_name = "Alexander Vance";
      actor_email = "alexander.vance@guardian.internal";
      actor_role = "Guardian Super Admin";
      action = "FEATURE_FLAG_TOGGLE";
      resource = "FeatureFlag";
      resource_id = "ff-03";
      result = AuditResult.success;
      ip_address = "198.51.100.12";
      request_id = "req-11b2-6543";
      category = AuditCategory.admin_action;
      is_sensitive_data_access = some false;
      details = some (
          ("flagKey", Detail.value (Value.text "enable-ebpf-active-quarantine"))
          ∷ ("enabled", Detail.value (Value.flag true))
          ∷ []);
    }
    ∷ record {
      id = "aud-705";
      timestamp = "2026-09-06T13:58:00Z";
      actor_name = "Marcus Brody";
      actor_email = "marcus.brody@guardian.internal";
      actor_role = "Guardian Billing Admin";
      action = "SUBSCRIPTION_LIMIT_OVERRIDE";
      resource = "Subscription";
      resource_id = "sub-303";
      result = AuditResult.success;
      ip_address = "192.0.2.14";
      request_id = "req-77f9-2211";
      category = AuditCategory.admin_action;
      is_sensitive_data_access = some false;
      details = some (
          ("tenant", Detail.value (Value.text "Stark Industries"))
          ∷ ("addedSeats", Detail.value (Value.num 500))
          ∷ ("addedDevices", Detail.value (Value.num 1000))
          ∷ []);
    }
    ∷ []
