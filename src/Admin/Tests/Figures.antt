-- ===== src/Admin/Tests/Figures.antt =====
-- The figures at concrete inputs.
use guardian_cloud.Prelude.{◌+◌, ◌≤◌, ◌≡◌, true, none, [], ◌∷◌, length, count}
use guardian_cloud.Admin.Types.Enums.{
  TenantType, RiskLevel, DevicePlatform, DeviceStatus, EncryptionStatus,
}
use guardian_cloud.Admin.Types.Tenant.{ManagedDevice}
use guardian_cloud.Admin.State.{AdminStore}
use guardian_cloud.Admin.Store.Metrics.{get_metrics, is_critical}
use guardian_cloud.Admin.Seed.Initial.{initial_store}
use guardian_cloud.Admin.Laws.Figures.{active_mrr, get_metrics_consistent}

get_metrics_consistent_example :
    let m = get_metrics initial_store in
    (m.risk_breakdown.healthy + m.risk_breakdown.warning + m.risk_breakdown.high_risk
        + m.risk_breakdown.critical
      ≡ m.total_organizations)
    × (m.risk_breakdown.critical
        ≡ count (λ o. is_critical o.risk_level) initial_store.organizations)
    × (m.mrr ≡ active_mrr initial_store.subscriptions)
    × (m.active_organizations ≤ m.total_organizations)
    × (m.active_agents ≤ m.managed_devices)
    × (m.active_subscriptions ≤ length initial_store.subscriptions)
    × (m.open_incidents ≤ length initial_store.incidents)
    × (m.critical_alerts ≤ length initial_store.alerts)
get_metrics_consistent_example = get_metrics_consistent initial_store

-- an online device, and a store that holds nothing else of its kind
abbrev laptop : ManagedDevice
laptop = record {
  id = "dev-1";
  hostname = "LAPTOP-1";
  display_name = "Laptop";
  assigned_user_id = none;
  assigned_user_name = none;
  tenant_id = "org-101";
  tenant_name = "Acme";
  tenant_type = TenantType.organization;
  platform = DevicePlatform.linux;
  os_version = "6.1";
  agent_version = "v2.4.1";
  status = DeviceStatus.online;
  risk_score = 1;
  risk_level = RiskLevel.low;
  ip_address = "198.51.100.1";
  mac_address = "F4:D4:88:9C:21:0E";
  serial_number = "S1";
  encryption_status = EncryptionStatus.encrypted;
  firewall_enabled = true;
  last_seen_at = "2026-09-06";
  registered_at = "2025-01-16";
}

abbrev one_device : AdminStore
one_device = record initial_store { devices = laptop ∷ [] }
