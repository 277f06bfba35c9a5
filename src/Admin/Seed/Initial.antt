-- ===== src/Admin/Seed/Initial.antt =====
-- The store as its class makes it: the fields' initial values in
-- web/src/repositories/adminStore.ts.
use guardian_cloud.Prelude.{[]}
use guardian_cloud.Admin.State.{AdminStore}
use guardian_cloud.Admin.Seed.Organizations.{initial_organizations}
use guardian_cloud.Admin.Seed.Users.{initial_users, initial_subscriptions}
use guardian_cloud.Admin.Seed.Devices.{initial_devices}
use guardian_cloud.Admin.Seed.Plans.{initial_plans}
use guardian_cloud.Admin.Seed.Events.{initial_security_events}
use guardian_cloud.Admin.Seed.Incidents.{initial_incidents, initial_alerts}
use guardian_cloud.Admin.Seed.Iam.{initial_admins, initial_roles}
use guardian_cloud.Admin.Seed.Permissions.{permission_definitions}
use guardian_cloud.Admin.Seed.Access.{initial_teams, initial_invitations, initial_sessions}
use guardian_cloud.Admin.Seed.Audit.{initial_audit_logs}
use guardian_cloud.Admin.Seed.Platform.{
  initial_services_health, initial_agent_releases, initial_feature_flags,
  initial_maintenance_windows,
}
use guardian_cloud.Admin.Seed.Settings.{initial_platform_settings}

unfoldable pub initial_store : AdminStore
initial_store = record {
  listeners = [];
  calls = [];
  organizations = initial_organizations;
  users = initial_users;
  devices = initial_devices;
  plans = initial_plans;
  subscriptions = initial_subscriptions;
  security_events = initial_security_events;
  incidents = initial_incidents;
  alerts = initial_alerts;
  admins = initial_admins;
  roles = initial_roles;
  permissions = permission_definitions;
  teams = initial_teams;
  invitations = initial_invitations;
  sessions = initial_sessions;
  audit_logs = initial_audit_logs;
  services_health = initial_services_health;
  agent_releases = initial_agent_releases;
  feature_flags = initial_feature_flags;
  maintenance_windows = initial_maintenance_windows;
  settings = initial_platform_settings;
}
