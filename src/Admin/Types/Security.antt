-- ===== src/Admin/Types/Security.antt =====
-- Security events, incidents and alerts (web/src/types/admin.ts).
use guardian_cloud.Prelude.{ℕ, Bool, Option, List, String}
use guardian_cloud.Admin.Types.Enums.{
  RiskLevel, IncidentSeverity, IncidentStatus, AlertStatus, EventCategory, EventStatus,
}

-- A scalar of a JavaScript object: `unknown` is one of these wherever the program fills it in.
pub data Value : Type 0 where
  undefined : Value
  flag : Bool → Value
  num : ℕ → Value
  text : String → Value

pub record SecurityEvent : Type 0 where
  pub id : String
  pub timestamp : String
  pub severity : RiskLevel
  pub event_type : String
  pub category : EventCategory
  pub tenant_id : Option String
  pub tenant_name : Option String
  pub user_id : Option String
  pub user_name : Option String
  pub device_id : Option String
  pub device_hostname : Option String
  pub source : String
  pub action_taken : String
  pub status : EventStatus
  pub raw_payload : Option (List (String × Value))

pub record TimelineEntry : Type 0 where
  pub timestamp : String
  pub title : String
  pub description : String
  pub actor : String

pub record SecurityIncident : Type 0 where
  pub id : String
  pub title : String
  pub severity : IncidentSeverity
  pub status : IncidentStatus
  pub category : String
  pub tenant_id : Option String
  pub tenant_name : Option String
  pub device_id : Option String
  pub device_hostname : Option String
  pub user_id : Option String
  pub user_name : Option String
  pub risk_score : ℕ
  pub created_at : String
  pub updated_at : String
  pub assigned_to_admin : Option String
  pub assigned_admin_email : Option String
  pub summary : String
  pub timeline : List TimelineEntry
  pub related_event_ids : List String

pub record SecurityAlert : Type 0 where
  pub id : String
  pub title : String
  pub severity : RiskLevel
  pub category : String
  pub tenant_name : String
  pub device_name : Option String
  pub timestamp : String
  pub status : AlertStatus
  pub assigned_to : Option String
  pub description : String
