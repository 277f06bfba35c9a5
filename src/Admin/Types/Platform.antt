-- ===== src/Admin/Types/Platform.antt =====
-- The audit trail and the platform itself (web/src/types/admin.ts).
use guardian_cloud.Prelude.{ℕ, Bool, Option, List, String}
use guardian_cloud.Admin.Types.Enums.{
  DevicePlatform, AuditResult, AuditCategory, ServiceStatus, ReleaseStatus, FlagEnvironment,
  WindowStatus, ImpactLevel,
}
use guardian_cloud.Admin.Types.Security.{Value}
use guardian_cloud.Admin.Types.Partial.{
  PartialOrganization, PartialIndividualUser, PartialPlan, PartialGuardianAdminUser,
}

-- A member of the `details` of an audit entry: a scalar, or the `updates` object of a call.
pub data Detail : Type 0 where
  value : Value → Detail
  organization_updates : PartialOrganization → Detail
  user_updates : PartialIndividualUser → Detail
  plan_updates : PartialPlan → Detail
  admin_updates : PartialGuardianAdminUser → Detail
  section_updates : List (String × Value) → Detail

pub record AuditLogEntry : Type 0 where
  pub id : String
  pub timestamp : String
  pub actor_name : String
  pub actor_email : String
  pub actor_role : String
  pub action : String
  pub resource : String
  pub resource_id : String
  pub result : AuditResult
  pub ip_address : String
  pub request_id : String
  pub category : AuditCategory
  pub is_sensitive_data_access : Option Bool
  pub details : Option (List (String × Detail))

pub record ServiceHealth : Type 0 where
  pub id : String
  pub name : String
  pub category : String
  pub status : ServiceStatus
  pub latency_ms : ℕ
  pub uptime_percent : ℕ  -- in hundredths
  pub last_checked_at : String
  pub region : String
  pub notes : Option String

pub record AgentRelease : Type 0 where
  pub id : String
  pub version : String
  pub platform : DevicePlatform
  pub release_date : String
  pub status : ReleaseStatus
  pub adoption_rate : ℕ  -- in hundredths
  pub is_min_supported : Bool
  pub checksum_sha256 : String
  pub release_notes : String

pub record FeatureFlag : Type 0 where
  pub id : String
  pub key : String
  pub name : String
  pub description : String
  pub environment : FlagEnvironment
  pub enabled : Bool
  pub rollout_percentage : ℕ
  pub updated_at : String
  pub updated_by : String

pub record MaintenanceWindow : Type 0 where
  pub id : String
  pub title : String
  pub status : WindowStatus
  pub start_at : String
  pub end_at : String
  pub affected_services : List String
  pub impact_level : ImpactLevel
  pub created_by : String

-- The settings, one object for each section. The store reads and merges the sections by key, so
-- each is kept as the object that it is: its members in order.
pub record PlatformSettings : Type 0 where
  pub general : List (String × Value)
  pub security : List (String × Value)
  pub authentication : List (String × Value)
  pub notifications : List (String × Value)
  pub storage : List (String × Value)
  pub retention : List (String × Value)
  pub integrations : List (String × Value)
  pub defaults : List (String × Value)

-- `riskBreakdown` of the metrics.
pub record RiskBreakdown : Type 0 where
  pub healthy : ℕ
  pub warning : ℕ
  pub high_risk : ℕ
  pub critical : ℕ

pub record PlatformMetrics : Type 0 where
  pub total_organizations : ℕ
  pub active_organizations : ℕ
  pub total_users : ℕ
  pub managed_devices : ℕ
  pub active_agents : ℕ
  pub active_subscriptions : ℕ
  pub mrr : ℕ
  pub open_incidents : ℕ
  pub critical_alerts : ℕ
  pub risk_breakdown : RiskBreakdown
