-- ===== src/Admin/Types/Spread.antt =====
-- Merging a partial object into an object: each given field replaces the old one.
use guardian_cloud.Prelude.{◌otherwise◌, overwrite}
use guardian_cloud.Admin.Types.Tenant.{Organization, IndividualUser, Plan}
use guardian_cloud.Admin.Types.Iam.{GuardianAdminUser}
use guardian_cloud.Admin.Types.Partial.{
  PartialOrganization, PartialIndividualUser, PartialPlan, PartialGuardianAdminUser,
}

-- `{ ...organization, ...updates }`
unfoldable pub spread_organization : Organization → PartialOrganization → Organization
spread_organization o updates = record {
  id = updates.id otherwise o.id;
  name = updates.name otherwise o.name;
  slug = updates.slug otherwise o.slug;
  domain = updates.domain otherwise o.domain;
  plan_id = updates.plan_id otherwise o.plan_id;
  plan_name = updates.plan_name otherwise o.plan_name;
  plan_tier = updates.plan_tier otherwise o.plan_tier;
  status = updates.status otherwise o.status;
  risk_score = updates.risk_score otherwise o.risk_score;
  risk_level = updates.risk_level otherwise o.risk_level;
  employee_count = updates.employee_count otherwise o.employee_count;
  device_count = updates.device_count otherwise o.device_count;
  healthy_device_count = updates.healthy_device_count otherwise o.healthy_device_count;
  open_incidents_count = updates.open_incidents_count otherwise o.open_incidents_count;
  policy_violations_count = updates.policy_violations_count otherwise o.policy_violations_count;
  mrr = updates.mrr otherwise o.mrr;
  subscription_status = updates.subscription_status otherwise o.subscription_status;
  owner_name = updates.owner_name otherwise o.owner_name;
  owner_email = updates.owner_email otherwise o.owner_email;
  created_at = updates.created_at otherwise o.created_at;
  last_active_at = updates.last_active_at otherwise o.last_active_at;
  logo_url = overwrite updates.logo_url o.logo_url;
  industry = overwrite updates.industry o.industry;
  region = overwrite updates.region o.region;
}

-- `{ ...user, ...updates }`
unfoldable pub spread_user : IndividualUser → PartialIndividualUser → IndividualUser
spread_user u updates = record {
  id = updates.id otherwise u.id;
  name = updates.name otherwise u.name;
  email = updates.email otherwise u.email;
  avatar_url = overwrite updates.avatar_url u.avatar_url;
  status = updates.status otherwise u.status;
  risk_score = updates.risk_score otherwise u.risk_score;
  risk_level = updates.risk_level otherwise u.risk_level;
  security_score = updates.security_score otherwise u.security_score;
  plan_tier = updates.plan_tier otherwise u.plan_tier;
  plan_name = updates.plan_name otherwise u.plan_name;
  device_count = updates.device_count otherwise u.device_count;
  subscription_status = updates.subscription_status otherwise u.subscription_status;
  mfa_enabled = updates.mfa_enabled otherwise u.mfa_enabled;
  mfa_method = overwrite updates.mfa_method u.mfa_method;
  last_active_at = updates.last_active_at otherwise u.last_active_at;
  created_at = updates.created_at otherwise u.created_at;
}

-- `{ ...plan, ...updates }`
unfoldable pub spread_plan : Plan → PartialPlan → Plan
spread_plan p updates = record {
  id = updates.id otherwise p.id;
  name = updates.name otherwise p.name;
  tier = updates.tier otherwise p.tier;
  target_type = updates.target_type otherwise p.target_type;
  price_monthly = updates.price_monthly otherwise p.price_monthly;
  price_annual = updates.price_annual otherwise p.price_annual;
  device_limit = updates.device_limit otherwise p.device_limit;
  employee_limit = updates.employee_limit otherwise p.employee_limit;
  status = updates.status otherwise p.status;
  subscriber_count = updates.subscriber_count otherwise p.subscriber_count;
  features = updates.features otherwise p.features;
  description = updates.description otherwise p.description;
}

-- `{ ...admin, ...updates }`
unfoldable pub spread_admin : GuardianAdminUser → PartialGuardianAdminUser → GuardianAdminUser
spread_admin a updates = record {
  id = updates.id otherwise a.id;
  name = updates.name otherwise a.name;
  email = updates.email otherwise a.email;
  avatar_url = overwrite updates.avatar_url a.avatar_url;
  role = updates.role otherwise a.role;
  role_title = updates.role_title otherwise a.role_title;
  team = updates.team otherwise a.team;
  status = updates.status otherwise a.status;
  mfa_enabled = updates.mfa_enabled otherwise a.mfa_enabled;
  last_login_at = updates.last_login_at otherwise a.last_login_at;
  created_at = updates.created_at otherwise a.created_at;
  assigned_permissions = updates.assigned_permissions otherwise a.assigned_permissions;
}
