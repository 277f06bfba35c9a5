-- ===== src/Admin/Store/Organizations.antt =====
-- The organizations of `AdminStore`: `getOrganizations` to `setOrganizationStatus`.
use Prim.Native.String.{◌++◌}
use guardian_cloud.Prelude.{
  ◌+◌, ◌*◌, max, Option, none, some, List, [], ◌∷◌, String, ◌otherwise◌, find, find_and_set,
  to_string, slice_last, str_eq,
}
use guardian_cloud.Admin.Types.Enums.{
  TenantType, TenantStatus, RiskLevel, PlanTier, PlanInterval, SubscriptionStatus,
}
use guardian_cloud.Admin.Types.Tenant.{Organization, Subscription}
use guardian_cloud.Admin.Types.Partial.{PartialOrganization}
use guardian_cloud.Admin.Types.Platform.{Detail}
use guardian_cloud.Admin.Types.Spread.{spread_organization}
use guardian_cloud.Admin.State.{
  Host, iso_now, AdminStore, notify, log_action, optional_text, plain_text,
}

-- the literal of a status
abbrev pub tenant_status_text : TenantStatus → String
tenant_status_text TenantStatus.active = "ACTIVE"
tenant_status_text TenantStatus.suspended = "SUSPENDED"
tenant_status_text TenantStatus.trial = "TRIAL"
tenant_status_text TenantStatus.archived = "ARCHIVED"
tenant_status_text TenantStatus.onboarding = "ONBOARDING"

unfoldable pub get_organizations : AdminStore → List Organization
get_organizations s = s.organizations

unfoldable pub get_organization_by_id : String → AdminStore → Option Organization
get_organization_by_id id s = find (λ o. str_eq o.id id) s.organizations

-- the object that `createOrganization` puts into the list
unfoldable pub new_organization : Host → PartialOrganization → Organization
new_organization h input = record {
  id = "org-" ++ slice_last 4 (to_string (h.now 0));
  name = input.name otherwise "Untitled Organization";
  slug = input.slug otherwise "untitled";
  domain = input.domain otherwise "example.com";
  plan_id = input.plan_id otherwise "plan-bus";
  plan_name = input.plan_name otherwise "Guardian Business";
  plan_tier = input.plan_tier otherwise PlanTier.business;
  status = TenantStatus.active;
  risk_score = 20;
  risk_level = RiskLevel.low;
  employee_count = input.employee_count otherwise 1;
  device_count = input.device_count otherwise 1;
  healthy_device_count = input.device_count otherwise 1;
  open_incidents_count = 0;
  policy_violations_count = 0;
  mrr = input.mrr otherwise 18000;
  subscription_status = SubscriptionStatus.active;
  owner_name = input.owner_name otherwise "Primary Admin";
  owner_email = input.owner_email otherwise "admin@domain.com";
  created_at = iso_now h 1;
  last_active_at = iso_now h 2;
  logo_url = none;
  industry = some (input.industry otherwise "Technology");
  region = some (input.region otherwise "us-east-1");
}

-- its subscription, which renews after a year of 365 days
unfoldable pub new_subscription : Host → Organization → Subscription
new_subscription h o = record {
  id = "sub-" ++ slice_last 4 (to_string (h.now 3));
  tenant_id = o.id;
  customer_name = o.name;
  customer_email = o.owner_email;
  customer_type = TenantType.organization;
  plan_id = o.plan_id;
  plan_name = o.plan_name;
  plan_tier = o.plan_tier;
  status = SubscriptionStatus.active;
  seats_allocated = max o.employee_count 25;
  seats_used = o.employee_count;
  devices_allocated = max o.device_count 50;
  devices_used = o.device_count;
  mrr = o.mrr;
  billing_interval = PlanInterval.annual;
  started_at = iso_now h 4;
  renews_at = h.to_iso (h.now 5 + 365 * 24 * 3600 * 1000);
}

unfoldable pub create_organization :
    Host → PartialOrganization → AdminStore → Organization × AdminStore
unfolding notify log_action
create_organization h input s =
    let new_org = new_organization h input in
    let added = record s {
      organizations = new_org ∷ s.organizations;
      subscriptions = new_subscription h new_org ∷ s.subscriptions;
    } in
    let details =
      some (("name", plain_text new_org.name) ∷ ("domain", plain_text new_org.domain) ∷ []) in
    (new_org, notify (log_action h 6 "TENANT_CREATED" "Organization" new_org.id details added))

unfoldable pub update_organization :
    Host → String → PartialOrganization → AdminStore → Option Organization × AdminStore
unfolding notify log_action
update_organization h id updates s =
    elim (find_and_set (λ o. str_eq o.id id) (λ o. spread_organization o updates) s.organizations) [
      | none ↦ (none, s)
      | some c ↦
          let details = some (("updates", Detail.organization_updates updates) ∷ []) in
          (
            some c.after,
            notify (
                log_action h 0 "TENANT_UPDATED" "Organization" id details
                  (record s { organizations = c.items })),
          )
    ]

abbrev pub with_tenant_status : TenantStatus → Organization → Organization
with_tenant_status status o = record o { status = status }

unfoldable pub set_organization_status :
    Host → String → TenantStatus → Option String → AdminStore → Option Organization × AdminStore
unfolding notify log_action
set_organization_status h id status reason s =
    elim (find_and_set (λ o. str_eq o.id id) (with_tenant_status status) s.organizations) [
      | none ↦ (none, s)
      | some c ↦
          let details = some (
            ("previousStatus", plain_text (tenant_status_text c.before.status))
            ∷ ("newStatus", plain_text (tenant_status_text status))
            ∷ ("reason", optional_text reason)
            ∷ []) in
          (
            some c.after,
            notify (
                log_action h 0 ("TENANT_" ++ tenant_status_text status) "Organization" id details
                  (record s { organizations = c.items })),
          )
    ]
