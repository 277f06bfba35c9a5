-- ===== src/Admin/Tests/Inputs.antt =====
-- The inputs of the tests.
use guardian_cloud.Prelude.{ℕ, ◌+◌, none, some}
use guardian_cloud.Admin.Types.Tenant.{Organization}
use guardian_cloud.Admin.Types.Partial.{
  PartialOrganization, PartialIndividualUser, PartialPlan, PartialSecurityIncident,
}
use guardian_cloud.Admin.State.{Host, AdminStore}
use guardian_cloud.Admin.Store.Organizations
use guardian_cloud.Admin.Store.Security
use guardian_cloud.Admin.Seed.Initial.{initial_store}

abbrev pub host_at : ℕ → Host
host_at t = record { now = λ k. t + k; to_iso = λ _. "2026-09-06"; random = λ _. "0.k3j9x2ab" }

abbrev pub host : Host
host = host_at 1757170812345

-- ten seconds later
abbrev pub later_host : Host
later_host = host_at 1757170822345

abbrev pub no_organization : PartialOrganization
no_organization = record {
  id = none;
  name = none;
  slug = none;
  domain = none;
  plan_id = none;
  plan_name = none;
  plan_tier = none;
  status = none;
  risk_score = none;
  risk_level = none;
  employee_count = none;
  device_count = none;
  healthy_device_count = none;
  open_incidents_count = none;
  policy_violations_count = none;
  mrr = none;
  subscription_status = none;
  owner_name = none;
  owner_email = none;
  created_at = none;
  last_active_at = none;
  logo_url = none;
  industry = none;
  region = none;
}

abbrev pub no_user : PartialIndividualUser
no_user = record {
  id = none;
  name = none;
  email = none;
  avatar_url = none;
  status = none;
  risk_score = none;
  risk_level = none;
  security_score = none;
  plan_tier = none;
  plan_name = none;
  device_count = none;
  subscription_status = none;
  mfa_enabled = none;
  mfa_method = none;
  last_active_at = none;
  created_at = none;
}

abbrev pub no_plan : PartialPlan
no_plan = record {
  id = none;
  name = none;
  tier = none;
  target_type = none;
  price_monthly = none;
  price_annual = none;
  device_limit = none;
  employee_limit = none;
  status = none;
  subscriber_count = none;
  features = none;
  description = none;
}

abbrev pub no_incident : PartialSecurityIncident
no_incident = record {
  id = none;
  title = none;
  severity = none;
  status = none;
  category = none;
  tenant_id = none;
  tenant_name = none;
  device_id = none;
  device_hostname = none;
  user_id = none;
  user_name = none;
  risk_score = none;
  created_at = none;
  updated_at = none;
  assigned_to_admin = none;
  assigned_admin_email = none;
  summary = none;
  timeline = none;
  related_event_ids = none;
}

abbrev pub renamed : PartialOrganization
renamed = record no_organization { name = some "Acme" }

-- the initial store with one more organization and one more incident
abbrev pub store : AdminStore
store =
    (Security.create_incident host no_incident
      (Organizations.create_organization host no_organization initial_store).1).1

abbrev pub created : Organization
created = Organizations.new_organization host no_organization
