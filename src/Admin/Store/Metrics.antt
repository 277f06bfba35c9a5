-- ===== src/Admin/Store/Metrics.antt =====
-- `AdminStore.getMetrics`, and the pub/sub that the views read it through.
use guardian_cloud.Prelude.{
  ℕ, ◌+◌, Bool, true, false, ◌&&◌, List, [], ◌∷◌, length, count, if◌then◌else◌,
}
use guardian_cloud.Admin.Types.Enums.{
  TenantStatus, RiskLevel, DeviceStatus, SubscriptionStatus, IncidentStatus, AlertStatus,
}
use guardian_cloud.Admin.Types.Tenant.{Organization, Subscription}
use guardian_cloud.Admin.Types.Platform.{RiskBreakdown, PlatformMetrics}
use guardian_cloud.Admin.State.{AdminStore}

-- the tests of the filters
abbrev pub is_active_tenant : TenantStatus → Bool
is_active_tenant TenantStatus.active = true
is_active_tenant _ = false

abbrev pub is_online : DeviceStatus → Bool
is_online DeviceStatus.online = true
is_online _ = false

abbrev pub is_active_subscription : SubscriptionStatus → Bool
is_active_subscription SubscriptionStatus.active = true
is_active_subscription _ = false

abbrev pub is_unresolved : IncidentStatus → Bool
is_unresolved IncidentStatus.«open» = true
is_unresolved IncidentStatus.investigating = true
is_unresolved _ = false

abbrev pub is_critical : RiskLevel → Bool
is_critical RiskLevel.critical = true
is_critical _ = false

abbrev pub is_pending : AlertStatus → Bool
is_pending AlertStatus.pending = true
is_pending _ = false

-- the `reduce` over the subscriptions; in hundredths the sum is exact
unfoldable pub mrr_from : ℕ → List Subscription → ℕ
mrr_from acc [] = acc
mrr_from acc (x ∷ xs) = mrr_from (acc + (if is_active_subscription x.status then x.mrr else 0)) xs

abbrev pub no_risk : RiskBreakdown
no_risk = record { healthy = 0; warning = 0; high_risk = 0; critical = 0 }

-- one round of the `forEach` over the organizations
unfoldable pub tally : RiskLevel → RiskBreakdown → RiskBreakdown
tally RiskLevel.low b = record b { healthy = b.healthy + 1 }
tally RiskLevel.medium b = record b { warning = b.warning + 1 }
tally RiskLevel.high b = record b { high_risk = b.high_risk + 1 }
tally RiskLevel.critical b = record b { critical = b.critical + 1 }

unfoldable pub breakdown_from : RiskBreakdown → List Organization → RiskBreakdown
breakdown_from b [] = b
breakdown_from b (o ∷ os) = breakdown_from (tally o.risk_level b) os

unfoldable pub get_metrics : AdminStore → PlatformMetrics
get_metrics s = record {
  total_organizations = length s.organizations;
  active_organizations = count (λ o. is_active_tenant o.status) s.organizations;
  total_users = length s.users;
  managed_devices = length s.devices;
  active_agents = count (λ d. is_online d.status) s.devices;
  active_subscriptions = count (λ x. is_active_subscription x.status) s.subscriptions;
  mrr = mrr_from 0 s.subscriptions;
  open_incidents = count (λ i. is_unresolved i.status) s.incidents;
  critical_alerts = count (λ a. is_critical a.severity && is_pending a.status) s.alerts;
  risk_breakdown = breakdown_from no_risk s.organizations;
}
