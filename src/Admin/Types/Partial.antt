-- ===== src/Admin/Types/Partial.antt =====
-- `Partial<T>` for the objects that the store merges: a field is absent, or it is given.
use guardian_cloud.Prelude.{ℕ, Bool, Option, List, String}
use guardian_cloud.Admin.Types.Enums.{
  TenantType, TenantStatus, RiskLevel, IncidentSeverity, IncidentStatus, PlanTier,
  SubscriptionStatus, AdminRoleType, UserStatus, PlanStatus, AdminStatus, WindowStatus, ImpactLevel,
}
use guardian_cloud.Admin.Types.Security.{TimelineEntry}

pub record PartialOrganization : Type 0 where
  pub id : Option String
  pub name : Option String
  pub slug : Option String
  pub domain : Option String
  pub plan_id : Option String
  pub plan_name : Option String
  pub plan_tier : Option PlanTier
  pub status : Option TenantStatus
  pub risk_score : Option ℕ
  pub risk_level : Option RiskLevel
  pub employee_count : Option ℕ
  pub device_count : Option ℕ
  pub healthy_device_count : Option ℕ
  pub open_incidents_count : Option ℕ
  pub policy_violations_count : Option ℕ
  pub mrr : Option ℕ
  pub subscription_status : Option SubscriptionStatus
  pub owner_name : Option String
  pub owner_email : Option String
  pub created_at : Option String
  pub last_active_at : Option String
  pub logo_url : Option String
  pub industry : Option String
  pub region : Option String

pub record PartialIndividualUser : Type 0 where
  pub id : Option String
  pub name : Option String
  pub email : Option String
  pub avatar_url : Option String
  pub status : Option UserStatus
  pub risk_score : Option ℕ
  pub risk_level : Option RiskLevel
  pub security_score : Option ℕ
  pub plan_tier : Option PlanTier
  pub plan_name : Option String
  pub device_count : Option ℕ
  pub subscription_status : Option SubscriptionStatus
  pub mfa_enabled : Option Bool
  pub mfa_method : Option String
  pub last_active_at : Option String
  pub created_at : Option String

pub record PartialPlan : Type 0 where
  pub id : Option String
  pub name : Option String
  pub tier : Option PlanTier
  pub target_type : Option TenantType
  pub price_monthly : Option ℕ
  pub price_annual : Option ℕ
  pub device_limit : Option ℕ
  pub employee_limit : Option ℕ
  pub status : Option PlanStatus
  pub subscriber_count : Option ℕ
  pub features : Option (List String)
  pub description : Option String

pub record PartialSecurityIncident : Type 0 where
  pub id : Option String
  pub title : Option String
  pub severity : Option IncidentSeverity
  pub status : Option IncidentStatus
  pub category : Option String
  pub tenant_id : Option String
  pub tenant_name : Option String
  pub device_id : Option String
  pub device_hostname : Option String
  pub user_id : Option String
  pub user_name : Option String
  pub risk_score : Option ℕ
  pub created_at : Option String
  pub updated_at : Option String
  pub assigned_to_admin : Option String
  pub assigned_admin_email : Option String
  pub summary : Option String
  pub timeline : Option (List TimelineEntry)
  pub related_event_ids : Option (List String)

pub record PartialGuardianAdminUser : Type 0 where
  pub id : Option String
  pub name : Option String
  pub email : Option String
  pub avatar_url : Option String
  pub role : Option AdminRoleType
  pub role_title : Option String
  pub team : Option String
  pub status : Option AdminStatus
  pub mfa_enabled : Option Bool
  pub last_login_at : Option String
  pub created_at : Option String
  pub assigned_permissions : Option (List String)

pub record PartialMaintenanceWindow : Type 0 where
  pub id : Option String
  pub title : Option String
  pub status : Option WindowStatus
  pub start_at : Option String
  pub end_at : Option String
  pub affected_services : Option (List String)
  pub impact_level : Option ImpactLevel
  pub created_by : Option String
