-- ===== src/Admin/Types/Tenant.antt =====
-- The tenants and what they own: organizations, users, devices, plans and subscriptions
-- (web/src/types/admin.ts). A `number` that the source writes with decimals is kept in hundredths.
use guardian_cloud.Prelude.{ℕ, Bool, Option, List, String}
use guardian_cloud.Admin.Types.Enums.{
  TenantType, TenantStatus, RiskLevel, DevicePlatform, DeviceStatus, PlanTier, PlanInterval,
  SubscriptionStatus, UserStatus, EncryptionStatus, PlanStatus,
}

pub record Organization : Type 0 where
  pub id : String
  pub name : String
  pub slug : String
  pub domain : String
  pub plan_id : String
  pub plan_name : String
  pub plan_tier : PlanTier
  pub status : TenantStatus
  pub risk_score : ℕ
  pub risk_level : RiskLevel
  pub employee_count : ℕ
  pub device_count : ℕ
  pub healthy_device_count : ℕ
  pub open_incidents_count : ℕ
  pub policy_violations_count : ℕ
  pub mrr : ℕ  -- in hundredths
  pub subscription_status : SubscriptionStatus
  pub owner_name : String
  pub owner_email : String
  pub created_at : String
  pub last_active_at : String
  pub logo_url : Option String
  pub industry : Option String
  pub region : Option String

pub record IndividualUser : Type 0 where
  pub id : String
  pub name : String
  pub email : String
  pub avatar_url : Option String
  pub status : UserStatus
  pub risk_score : ℕ
  pub risk_level : RiskLevel
  pub security_score : ℕ
  pub plan_tier : PlanTier
  pub plan_name : String
  pub device_count : ℕ
  pub subscription_status : SubscriptionStatus
  pub mfa_enabled : Bool
  pub mfa_method : Option String
  pub last_active_at : String
  pub created_at : String

pub record ManagedDevice : Type 0 where
  pub id : String
  pub hostname : String
  pub display_name : String
  pub assigned_user_id : Option String
  pub assigned_user_name : Option String
  pub tenant_id : String
  pub tenant_name : String
  pub tenant_type : TenantType
  pub platform : DevicePlatform
  pub os_version : String
  pub agent_version : String
  pub status : DeviceStatus
  pub risk_score : ℕ
  pub risk_level : RiskLevel
  pub ip_address : String
  pub mac_address : String
  pub serial_number : String
  pub encryption_status : EncryptionStatus
  pub firewall_enabled : Bool
  pub last_seen_at : String
  pub registered_at : String

pub record Subscription : Type 0 where
  pub id : String
  pub tenant_id : String
  pub customer_name : String
  pub customer_email : String
  pub customer_type : TenantType
  pub plan_id : String
  pub plan_name : String
  pub plan_tier : PlanTier
  pub status : SubscriptionStatus
  pub seats_allocated : ℕ
  pub seats_used : ℕ
  pub devices_allocated : ℕ
  pub devices_used : ℕ
  pub mrr : ℕ  -- in hundredths
  pub billing_interval : PlanInterval
  pub started_at : String
  pub renews_at : String

pub record Plan : Type 0 where
  pub id : String
  pub name : String
  pub tier : PlanTier
  pub target_type : TenantType
  pub price_monthly : ℕ  -- in hundredths
  pub price_annual : ℕ  -- in hundredths
  pub device_limit : ℕ
  pub employee_limit : ℕ
  pub status : PlanStatus
  pub subscriber_count : ℕ
  pub features : List String
  pub description : String
