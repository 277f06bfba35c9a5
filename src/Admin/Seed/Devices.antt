-- ===== src/Admin/Seed/Devices.antt =====
-- The devices part of web/src/mock/adminMockData.ts, the data that the store begins with.
use guardian_cloud.Prelude.{true, false, some, List, [], ◌∷◌}
use guardian_cloud.Admin.Types.Enums.{
  TenantType, RiskLevel, DevicePlatform, DeviceStatus, EncryptionStatus,
}
use guardian_cloud.Admin.Types.Tenant.{ManagedDevice}

abbrev pub initial_devices : List ManagedDevice
initial_devices =
    record {
      id = "dev-501";
      hostname = "ACME-ENG-MBP16-042";
      display_name = "Sarah's MacBook Pro M3 Max";
      assigned_user_id = some "usr-101";
      assigned_user_name = some "Sarah Jenkins";
      tenant_id = "org-101";
      tenant_name = "Acme Defense Technologies";
      tenant_type = TenantType.organization;
      platform = DevicePlatform.macos;
      os_version = "macOS Sonoma 14.6.1";
      agent_version = "v2.4.1";
      status = DeviceStatus.online;
      risk_score = 12;
      risk_level = RiskLevel.low;
      ip_address = "198.51.100.44";
      mac_address = "F4:D4:88:9C:21:0E";
      serial_number = "C02G80P8MD6R";
      encryption_status = EncryptionStatus.encrypted;
      firewall_enabled = true;
      last_seen_at = "2026-09-06T14:52:10Z";
      registered_at = "2025-01-16T10:00:00Z";
    }
    ∷ record {
      id = "dev-502";
      hostname = "CYBERDYNE-WKSTN-08";
      display_name = "Autonomous Lab Workstation 08";
      assigned_user_id = some "usr-102";
      assigned_user_name = some "Miles Dyson";
      tenant_id = "org-102";
      tenant_name = "Cyberdyne Systems Corp";
      tenant_type = TenantType.organization;
      platform = DevicePlatform.windows;
      os_version = "Windows 11 Pro Enterprise 23H2";
      agent_version = "v2.3.9";
      status = DeviceStatus.at_risk;
      risk_score = 84;
      risk_level = RiskLevel.high;
      ip_address = "203.0.113.88";
      mac_address = "00:1A:2B:3C:4D:5E";
      serial_number = "W11-CYB-88029";
      encryption_status = EncryptionStatus.encrypted;
      firewall_enabled = false;
      last_seen_at = "2026-09-06T14:49:33Z";
      registered_at = "2024-11-15T14:00:00Z";
    }
    ∷ record {
      id = "dev-503";
      hostname = "STARK-QUANTUM-NODE-1";
      display_name = "Avenger Protocol Ubuntu Rig";
      assigned_user_id = some "usr-103";
      assigned_user_name = some "Pepper Potts";
      tenant_id = "org-103";
      tenant_name = "Stark Industries";
      tenant_type = TenantType.organization;
      platform = DevicePlatform.linux;
      os_version = "Ubuntu 24.04 LTS";
      agent_version = "v2.4.1";
      status = DeviceStatus.online;
      risk_score = 8;
      risk_level = RiskLevel.low;
      ip_address = "192.0.2.140";
      mac_address = "52:54:00:12:34:56";
      serial_number = "STRK-LX-9941";
      encryption_status = EncryptionStatus.encrypted;
      firewall_enabled = true;
      last_seen_at = "2026-09-06T14:55:00Z";
      registered_at = "2024-07-01T09:00:00Z";
    }
    ∷ record {
      id = "dev-504";
      hostname = "ELENA-IPHONE-16";
      display_name = "Elena Personal iPhone 16 Pro";
      assigned_user_id = some "usr-201";
      assigned_user_name = some "Elena Rostova";
      tenant_id = "usr-201";
      tenant_name = "Elena Rostova (Personal)";
      tenant_type = TenantType.personal;
      platform = DevicePlatform.ios;
      os_version = "iOS 18.1";
      agent_version = "v2.4.0";
      status = DeviceStatus.online;
      risk_score = 16;
      risk_level = RiskLevel.low;
      ip_address = "172.56.21.90";
      mac_address = "A0:B1:C2:D3:E4:F5";
      serial_number = "F2LLM9P0R7";
      encryption_status = EncryptionStatus.encrypted;
      firewall_enabled = true;
      last_seen_at = "2026-09-06T14:38:00Z";
      registered_at = "2025-02-12T12:00:00Z";
    }
    ∷ record {
      id = "dev-505";
      hostname = "NEXUS-CLINIC-T480";
      display_name = "ICU Laptop Station 03";
      assigned_user_id = some "usr-104";
      assigned_user_name = some "Dr. Evelyn Vance";
      tenant_id = "org-104";
      tenant_name = "Nexus Health Systems";
      tenant_type = TenantType.organization;
      platform = DevicePlatform.windows;
      os_version = "Windows 10 Enterprise LTSC";
      agent_version = "v2.2.8";
      status = DeviceStatus.offline;
      risk_score = 62;
      risk_level = RiskLevel.medium;
      ip_address = "198.51.100.201";
      mac_address = "D8:BB:C1:23:45:67";
      serial_number = "LNV-TP-48821";
      encryption_status = EncryptionStatus.encrypted;
      firewall_enabled = true;
      last_seen_at = "2026-09-05T20:10:00Z";
      registered_at = "2025-03-10T11:00:00Z";
    }
    ∷ record {
      id = "dev-506";
      hostname = "VANGUARD-CORP-DESK";
      display_name = "Compromised Rig 01";
      assigned_user_id = some "usr-106";
      assigned_user_name = some "Dr. Aris Thorne";
      tenant_id = "org-106";
      tenant_name = "Vanguard Quantum Labs";
      tenant_type = TenantType.organization;
      platform = DevicePlatform.windows;
      os_version = "Windows 11 Enterprise";
      agent_version = "v2.1.0";
      status = DeviceStatus.at_risk;
      risk_score = 98;
      risk_level = RiskLevel.critical;
      ip_address = "203.0.113.111";
      mac_address = "70:85:C2:88:99:AA";
      serial_number = "VNG-CR-001";
      encryption_status = EncryptionStatus.unencrypted;
      firewall_enabled = false;
      last_seen_at = "2026-09-06T12:00:00Z";
      registered_at = "2025-06-01T08:00:00Z";
    }
    ∷ []
