-- ===== src/Admin/Types/Enums.antt =====
-- The string unions of web/src/types/admin.ts: a constructor for each literal, in lower case.

pub data TenantType : Type 0 where
  personal organization : TenantType

pub data TenantStatus : Type 0 where
  active suspended trial archived onboarding : TenantStatus

pub data RiskLevel : Type 0 where
  low medium high critical : RiskLevel

pub data DevicePlatform : Type 0 where
  macos windows linux ios android : DevicePlatform

pub data DeviceStatus : Type 0 where
  online offline at_risk enrolling revoked : DeviceStatus

pub data IncidentSeverity : Type 0 where
  low medium high critical : IncidentSeverity

pub data IncidentStatus : Type 0 where
  «open» investigating mitigated resolved : IncidentStatus

pub data AlertStatus : Type 0 where
  pending acknowledged resolved : AlertStatus

pub data PlanTier : Type 0 where
  free personal business business_plus enterprise : PlanTier

pub data PlanInterval : Type 0 where
  monthly annual : PlanInterval

pub data SubscriptionStatus : Type 0 where
  active trialing past_due canceled unpaid : SubscriptionStatus

pub data AdminRoleType : Type 0 where
  super_admin operations_admin security_admin support_admin billing_admin read_only_admin :
      AdminRoleType

pub data UserStatus : Type 0 where
  active suspended trial archived : UserStatus

pub data EncryptionStatus : Type 0 where
  encrypted unencrypted pending : EncryptionStatus

pub data EventCategory : Type 0 where
  endpoint network identity policy malware : EventCategory

pub data EventStatus : Type 0 where
  blocked flagged allowed quarantined : EventStatus

pub data PlanStatus : Type 0 where
  active inactive archived : PlanStatus

pub data AdminStatus : Type 0 where
  active suspended invited : AdminStatus

pub data InvitationStatus : Type 0 where
  pending accepted expired revoked : InvitationStatus

pub data SessionStatus : Type 0 where
  active revoked : SessionStatus

pub data AuditResult : Type 0 where
  success failure denied : AuditResult

pub data AuditCategory : Type 0 where
  admin_action security_action data_access : AuditCategory

pub data ServiceStatus : Type 0 where
  healthy degraded outage maintenance : ServiceStatus

pub data ReleaseStatus : Type 0 where
  active rolling_out deprecated : ReleaseStatus

pub data FlagEnvironment : Type 0 where
  production staging all : FlagEnvironment

pub data WindowStatus : Type 0 where
  scheduled in_progress completed : WindowStatus

pub data ImpactLevel : Type 0 where
  none low moderate critical : ImpactLevel
