-- ===== src/Admin/State.antt =====
-- The state of the class `AdminStore` (web/src/repositories/adminStore.ts), what the host gives
-- it, and the two private methods that every change ends with: `logAction` and `notify`.
use Prim.Native.String.{◌++◌}
use mathlib.Core.List
use guardian_cloud.Prelude.{
  ℕ, ◌+◌, Bool, true, false, not, Option, none, some, List, [], ◌∷◌, String, ◌==◌, if◌then◌else◌,
  filter, to_string, substring, includes,
}
use guardian_cloud.Admin.Types.Enums.{AuditResult, AuditCategory}
use guardian_cloud.Admin.Types.Tenant.{
  Organization, IndividualUser, ManagedDevice, Subscription, Plan,
}
use guardian_cloud.Admin.Types.Security.{Value, SecurityEvent, SecurityIncident, SecurityAlert}
use guardian_cloud.Admin.Types.Iam.{
  GuardianAdminUser, GuardianRole, PermissionDefinition, GuardianTeam, AdminInvitation,
  AdminSession,
}
use guardian_cloud.Admin.Types.Platform.{
  Detail, AuditLogEntry, ServiceHealth, AgentRelease, FeatureFlag, MaintenanceWindow,
  PlatformSettings,
}

-- What a call reads from JavaScript's runtime. The readings of the clock, in milliseconds, and
-- of the random source are numbered by the place of the call that makes them.
pub record Host : Type 0 where
  pub now : ℕ → ℕ  -- `Date.now()`, and the time that `new Date()` takes
  pub to_iso : ℕ → String  -- `new Date(t).toISOString()`
  pub random : ℕ → String  -- `Math.random().toString(36)`

-- `new Date().toISOString()`
abbrev pub iso_now : Host → ℕ → String
iso_now h k = h.to_iso (h.now k)

-- A listener is a callback of the views: the store only calls it, so it is a name. `calls` is the
-- trace of those calls, the oldest first.
pub record AdminStore : Type 0 where
  pub listeners : List ℕ
  pub calls : List ℕ
  pub organizations : List Organization
  pub users : List IndividualUser
  pub devices : List ManagedDevice
  pub plans : List Plan
  pub subscriptions : List Subscription
  pub security_events : List SecurityEvent
  pub incidents : List SecurityIncident
  pub alerts : List SecurityAlert
  pub admins : List GuardianAdminUser
  pub roles : List GuardianRole
  pub permissions : List PermissionDefinition
  pub teams : List GuardianTeam
  pub invitations : List AdminInvitation
  pub sessions : List AdminSession
  pub audit_logs : List AuditLogEntry
  pub services_health : List ServiceHealth
  pub agent_releases : List AgentRelease
  pub feature_flags : List FeatureFlag
  pub maintenance_windows : List MaintenanceWindow
  pub settings : PlatformSettings

unfoldable pub mem : ℕ → List ℕ → Bool
mem l [] = false
mem l (x ∷ xs) = if x == l then true else mem l xs

-- `listeners` is a `Set`: a listener that is in it already keeps its place.
unfoldable pub subscribe : ℕ → AdminStore → AdminStore
unfolding mem
subscribe l s =
    if mem l s.listeners then s else record s { listeners = List.◌++◌ s.listeners (l ∷ []) }

-- the function that `subscribe` returns
unfoldable pub unsubscribe : ℕ → AdminStore → AdminStore
unfolding filter
unsubscribe l s = record s { listeners = filter (λ x. not (x == l)) s.listeners }

unfoldable pub notify : AdminStore → AdminStore
notify s = record s { calls = List.◌++◌ s.calls s.listeners }

abbrev category_of : Bool → String → AuditCategory
category_of is_sensitive action =
    if is_sensitive
    then AuditCategory.data_access
    else if includes action "SECURITY"
    then AuditCategory.security_action
    else AuditCategory.admin_action

-- The entry of one call of `logAction`, which reads the clock at `k` and at `k + 1`.
unfoldable pub audit_entry :
    Host → ℕ → String → String → String → Option (List (String × Detail)) → Bool → AuditLogEntry
unfolding includes to_string substring
audit_entry h k action resource resource_id details is_sensitive = record {
  id = "aud-" ++ to_string (h.now k) ++ "-" ++ substring 2 6 (h.random 0);
  timestamp = iso_now h (k + 1);
  actor_name = "Alexander Vance";
  actor_email = "alexander.vance@guardian.internal";
  actor_role = "Guardian Super Admin";
  action = action;
  resource = resource;
  resource_id = resource_id;
  result = AuditResult.success;
  ip_address = "198.51.100.12";
  request_id = "req-" ++ substring 2 8 (h.random 1);
  category = category_of is_sensitive action;
  is_sensitive_data_access = some is_sensitive;
  details = details;
}

-- `logAction` with the default `isSensitive = false`, which every call in the class leaves.
unfoldable pub log_action :
    Host → ℕ → String → String → String → Option (List (String × Detail)) → AdminStore → AdminStore
log_action h k action resource resource_id details s = record s {
  audit_logs = audit_entry h k action resource resource_id details false ∷ s.audit_logs;
}

-- `text` where a string is given, `undefined` where the argument is left out
abbrev pub optional_text : Option String → Detail
optional_text none = Detail.value Value.undefined
optional_text (some t) = Detail.value (Value.text t)

abbrev pub plain_text : String → Detail
plain_text t = Detail.value (Value.text t)
