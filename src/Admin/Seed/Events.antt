-- ===== src/Admin/Seed/Events.antt =====
-- The events part of web/src/mock/adminMockData.ts, the data that the store begins with.
use guardian_cloud.Prelude.{none, some, List, [], ◌∷◌}
use guardian_cloud.Admin.Types.Enums.{RiskLevel, EventCategory, EventStatus}
use guardian_cloud.Admin.Types.Security.{Value, SecurityEvent}

abbrev pub initial_security_events : List SecurityEvent
initial_security_events =
    record {
      id = "evt-801";
      timestamp = "2026-09-06T14:51:20Z";
      severity = RiskLevel.critical;
      event_type = "MALWARE_BEACON_DETECTED";
      category = EventCategory.malware;
      tenant_id = some "org-102";
      tenant_name = some "Cyberdyne Systems Corp";
      user_id = none;
      user_name = none;
      device_id = some "dev-502";
      device_hostname = some "CYBERDYNE-WKSTN-08";
      source = "Guardian Agent v2.3.9 eBPF Probe";
      action_taken = "SOCKET_TERMINATED_QUARANTINE_STAGED";
      status = EventStatus.quarantined;
      raw_payload = some (
          ("processName", Value.text "svchost_updater.exe")
          ∷ ("destinationIp", Value.text "194.26.29.114")
          ∷ ("destinationPort", Value.num 4443)
          ∷ ("proto", Value.text "TCP/TLS")
          ∷ (
            "hashSha256",
            Value.text "9f86d081884c7d659a2feaa0c55ad015a3bf4f1b2b0b822cd15d6c15b0f00a08",
          )
          ∷ []);
    }
    ∷ record {
      id = "evt-802";
      timestamp = "2026-09-06T14:45:00Z";
      severity = RiskLevel.high;
      event_type = "UNAUTHORIZED_USB_MASS_STORAGE";
      category = EventCategory.policy;
      tenant_id = some "org-101";
      tenant_name = some "Acme Defense Technologies";
      user_id = none;
      user_name = none;
      device_id = some "dev-501";
      device_hostname = some "ACME-ENG-MBP16-042";
      source = "Guardian macOS Endpoint Security Framework";
      action_taken = "MOUNT_BLOCKED";
      status = EventStatus.blocked;
      raw_payload = some (
          ("vendorId", Value.text "0x0781")
          ∷ ("productId", Value.text "0x5583")
          ∷ ("deviceSerial", Value.text "AA0104239841")
          ∷ ("policyRule", Value.text "POL-DEF-REMOVABLE-MEDIA-DENY")
          ∷ []);
    }
    ∷ record {
      id = "evt-803";
      timestamp = "2026-09-06T14:38:15Z";
      severity = RiskLevel.medium;
      event_type = "EXCESSIVE_DNS_TUNNELING_ATTEMPTS";
      category = EventCategory.network;
      tenant_id = some "org-104";
      tenant_name = some "Nexus Health Systems";
      user_id = none;
      user_name = none;
      device_id = some "dev-505";
      device_hostname = some "NEXUS-CLINIC-T480";
      source = "Guardian DNS Sentinel";
      action_taken = "DNS_RESPONSE_SINKHOLED";
      status = EventStatus.flagged;
      raw_payload = some (
          ("query", Value.text "a89f310cd2981.ns1.malicious-tunnel.xyz")
          ∷ ("qtype", Value.text "TXT")
          ∷ ("frequencyPerMinute", Value.num 340)
          ∷ []);
    }
    ∷ record {
      id = "evt-804";
      timestamp = "2026-09-06T14:22:04Z";
      severity = RiskLevel.low;
      event_type = "SSH_SESSION_ESTABLISHED";
      category = EventCategory.identity;
      tenant_id = some "org-103";
      tenant_name = some "Stark Industries";
      user_id = none;
      user_name = none;
      device_id = some "dev-503";
      device_hostname = some "STARK-QUANTUM-NODE-1";
      source = "PAM Audit Plugin";
      action_taken = "SESSION_LOGGED";
      status = EventStatus.allowed;
      raw_payload = some (
          ("user", Value.text "pepper.potts")
          ∷ ("authMethod", Value.text "ED25519_KEY")
          ∷ ("sourceIP", Value.text "10.240.0.12")
          ∷ []);
    }
    ∷ record {
      id = "evt-805";
      timestamp = "2026-09-06T14:10:00Z";
      severity = RiskLevel.critical;
      event_type = "CREDENTIAL_DUMPING_ATTEMPT";
      category = EventCategory.endpoint;
      tenant_id = some "org-106";
      tenant_name = some "Vanguard Quantum Labs";
      user_id = none;
      user_name = none;
      device_id = some "dev-506";
      device_hostname = some "VANGUARD-CORP-DESK";
      source = "Guardian Windows Kernel Hook";
      action_taken = "PROCESS_KILLED";
      status = EventStatus.blocked;
      raw_payload = some (
          ("targetProcess", Value.text "lsass.exe")
          ∷ ("callerProcess", Value.text "mimikatz_dump.exe")
          ∷ ("callerPid", Value.num 8492)
          ∷ []);
    }
    ∷ []
