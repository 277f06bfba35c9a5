-- ===== src/Admin/Seed/Incidents.antt =====
-- The incidents part of web/src/mock/adminMockData.ts, the data that the store begins with.
use guardian_cloud.Prelude.{none, some, List, [], ◌∷◌}
use guardian_cloud.Admin.Types.Enums.{RiskLevel, IncidentSeverity, IncidentStatus, AlertStatus}
use guardian_cloud.Admin.Types.Security.{SecurityIncident, SecurityAlert}

abbrev pub initial_incidents : List SecurityIncident
initial_incidents =
    record {
      id = "inc-901";
      title = "CobaltStrike C2 Beaconing on Cyberdyne Systems Workstation";
      severity = IncidentSeverity.critical;
      status = IncidentStatus.«open»;
      category = "Advanced Persistent Threat (APT)";
      tenant_id = some "org-102";
      tenant_name = some "Cyberdyne Systems Corp";
      device_id = some "dev-502";
      device_hostname = some "CYBERDYNE-WKSTN-08";
      user_id = none;
      user_name = none;
      risk_score = 94;
      created_at = "2026-09-06T14:15:00Z";
      updated_at = "2026-09-06T14:52:00Z";
      assigned_to_admin = some "Guardian Security Operations (SOC)";
      assigned_admin_email = some "soc@guardian.security";
      summary =
          "Endpoint eBPF filter intercepted outbound HTTPS beacons conforming to known Cobalt Strike sleep mask profiles targeting 194.26.29.114.";
      timeline =
          record {
            timestamp = "2026-09-06T14:15:00Z";
            title = "Initial Beacon Detected";
            description = "eBPF probe identified anomalous socket connection to untrusted IP.";
            actor = "Guardian Sensor";
          }
          ∷ record {
            timestamp = "2026-09-06T14:16:30Z";
            title = "Automated Micro-Isolation";
            description = "Guardian agent severed outbound connections to foreign ASN.";
            actor = "Autonomous Response";
          }
          ∷ record {
            timestamp = "2026-09-06T14:20:00Z";
            title = "SOC Escalation";
            description = "Assigned to Tier-2 Security Admin for artifact extraction.";
            actor = "Devon Vance (Security Admin)";
          }
          ∷ [];
      related_event_ids = "evt-801" ∷ [];
    }
    ∷ record {
      id = "inc-902";
      title = "LSASS Memory Extraction Incident on Suspended Tenant Rig";
      severity = IncidentSeverity.critical;
      status = IncidentStatus.investigating;
      category = "Credential Access";
      tenant_id = some "org-106";
      tenant_name = some "Vanguard Quantum Labs";
      device_id = some "dev-506";
      device_hostname = some "VANGUARD-CORP-DESK";
      user_id = none;
      user_name = none;
      risk_score = 98;
      created_at = "2026-09-06T13:40:00Z";
      updated_at = "2026-09-06T14:10:00Z";
      assigned_to_admin = some "Devon Vance";
      assigned_admin_email = some "devon.vance@guardian.internal";
      summary =
          "Mimikatz pattern memory access targeted Local Security Authority Subsystem Service on suspended tenant hardware.";
      timeline =
          record {
            timestamp = "2026-09-06T13:40:00Z";
            title = "LSASS Injection Blocked";
            description =
                "Kernel driver blocked handle acquisition with PROCESS_VM_READ permissions.";
            actor = "Guardian Endpoint Shield";
          }
          ∷ [];
      related_event_ids = "evt-805" ∷ [];
    }
    ∷ record {
      id = "inc-903";
      title = "Sustained DNS Tunneling Anomaly in Nexus Health";
      severity = IncidentSeverity.medium;
      status = IncidentStatus.mitigated;
      category = "Data Exfiltration";
      tenant_id = some "org-104";
      tenant_name = some "Nexus Health Systems";
      device_id = some "dev-505";
      device_hostname = some "NEXUS-CLINIC-T480";
      user_id = none;
      user_name = none;
      risk_score = 65;
      created_at = "2026-09-06T12:00:00Z";
      updated_at = "2026-09-06T14:00:00Z";
      assigned_to_admin = some "Priya Sharma";
      assigned_admin_email = some "priya.sharma@guardian.internal";
      summary =
          "High-frequency Base32 encoded TXT query bursts routed to an unregistered dynamic authoritative nameserver.";
      timeline =
          record {
            timestamp = "2026-09-06T12:00:00Z";
            title = "Anomaly Triggered";
            description = "DNS queries exceeded 300 req/min threshold for suspicious TLD.";
            actor = "DNS Anomaly Engine";
          }
          ∷ record {
            timestamp = "2026-09-06T12:05:00Z";
            title = "Domain Sinkholed";
            description = "Resolver returned 0.0.0.0; DNS tunneling path disabled.";
            actor = "Gateway Policy";
          }
          ∷ [];
      related_event_ids = "evt-803" ∷ [];
    }
    ∷ []

abbrev pub initial_alerts : List SecurityAlert
initial_alerts =
    record {
      id = "alt-401";
      title = "Multiple Failed MFA Challenges on Enterprise Admin";
      severity = RiskLevel.high;
      category = "IDENTITY";
      tenant_name = "Cyberdyne Systems Corp";
      device_name = none;
      timestamp = "2026-09-06T14:48:00Z";
      status = AlertStatus.pending;
      assigned_to = none;
      description =
          "14 consecutive TOTP failures recorded from IP in unfamiliar geo-location (AS14061).";
    }
    ∷ record {
      id = "alt-402";
      title = "Kernel Driver Certificate Signature Revoked";
      severity = RiskLevel.critical;
      category = "ENDPOINT";
      tenant_name = "Acme Defense Technologies";
      device_name = some "ACME-ENG-MBP16-042";
      timestamp = "2026-09-06T14:35:00Z";
      status = AlertStatus.acknowledged;
      assigned_to = some "Devon Vance";
      description =
          "System extension attempted loading unsigned binary with expired Apple Developer certificate.";
    }
    ∷ record {
      id = "alt-403";
      title = "Agent Telemetry Heartbeat Missed > 24 Hours";
      severity = RiskLevel.medium;
      category = "AGENT";
      tenant_name = "Nexus Health Systems";
      device_name = some "NEXUS-CLINIC-T480";
      timestamp = "2026-09-06T13:10:00Z";
      status = AlertStatus.pending;
      assigned_to = none;
      description = "Endpoint has ceased transmitting telemetry frames to regional Gateway.";
    }
    ∷ record {
      id = "alt-404";
      title = "Anomalous Cloud Storage Egress Detected";
      severity = RiskLevel.low;
      category = "NETWORK";
      tenant_name = "Stark Industries";
      device_name = some "STARK-QUANTUM-NODE-1";
      timestamp = "2026-09-06T11:20:00Z";
      status = AlertStatus.resolved;
      assigned_to = some "Priya Sharma";
      description =
          "Nightly encrypted tarball transfer to verified AWS backup bucket concluded within SLA.";
    }
    ∷ []
