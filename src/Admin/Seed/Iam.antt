-- ===== src/Admin/Seed/Iam.antt =====
-- The iam part of web/src/mock/adminMockData.ts, the data that the store begins with.
use guardian_cloud.Prelude.{true, false, none, List, [], ◌∷◌}
use guardian_cloud.Admin.Types.Enums.{AdminRoleType, AdminStatus}
use guardian_cloud.Admin.Types.Iam.{GuardianAdminUser, GuardianRole}

abbrev pub initial_admins : List GuardianAdminUser
initial_admins =
    record {
      id = "adm-001";
      name = "Alexander Vance";
      email = "alexander.vance@guardian.internal";
      avatar_url = none;
      role = AdminRoleType.super_admin;
      role_title = "Guardian Super Admin";
      team = "Platform";
      status = AdminStatus.active;
      mfa_enabled = true;
      last_login_at = "2026-09-06T14:50:00Z";
      created_at = "2024-01-01T00:00:00Z";
      assigned_permissions = "*" ∷ [];
    }
    ∷ record {
      id = "adm-002";
      name = "Devon Vance";
      email = "devon.vance@guardian.internal";
      avatar_url = none;
      role = AdminRoleType.security_admin;
      role_title = "Guardian Security Admin";
      team = "Security";
      status = AdminStatus.active;
      mfa_enabled = true;
      last_login_at = "2026-09-06T14:32:00Z";
      created_at = "2024-03-15T09:00:00Z";
      assigned_permissions = "security.*" ∷ "incidents.*" ∷ "devices.read" ∷ "audit.read" ∷ [];
    }
    ∷ record {
      id = "adm-003";
      name = "Priya Sharma";
      email = "priya.sharma@guardian.internal";
      avatar_url = none;
      role = AdminRoleType.operations_admin;
      role_title = "Guardian Operations Admin";
      team = "Operations";
      status = AdminStatus.active;
      mfa_enabled = true;
      last_login_at = "2026-09-06T14:15:00Z";
      created_at = "2024-04-10T11:00:00Z";
      assigned_permissions = "platform.*" ∷ "devices.*" ∷ "organizations.read" ∷ [];
    }
    ∷ record {
      id = "adm-004";
      name = "Marcus Brody";
      email = "marcus.brody@guardian.internal";
      avatar_url = none;
      role = AdminRoleType.billing_admin;
      role_title = "Guardian Billing Admin";
      team = "Billing";
      status = AdminStatus.active;
      mfa_enabled = true;
      last_login_at = "2026-09-06T10:00:00Z";
      created_at = "2024-08-01T10:00:00Z";
      assigned_permissions = "subscriptions.*" ∷ "plans.*" ∷ "organizations.read" ∷ [];
    }
    ∷ record {
      id = "adm-005";
      name = "Chloe Lin";
      email = "chloe.lin@guardian.internal";
      avatar_url = none;
      role = AdminRoleType.support_admin;
      role_title = "Guardian Support Admin";
      team = "Support";
      status = AdminStatus.active;
      mfa_enabled = true;
      last_login_at = "2026-09-06T13:45:00Z";
      created_at = "2025-01-12T08:30:00Z";
      assigned_permissions =
          "organizations.read" ∷ "users.read" ∷ "devices.read" ∷ "security.read" ∷ [];
    }
    ∷ record {
      id = "adm-006";
      name = "Jordan Reed";
      email = "jordan.reed@guardian.internal";
      avatar_url = none;
      role = AdminRoleType.read_only_admin;
      role_title = "Guardian Read Only Admin";
      team = "Security";
      status = AdminStatus.suspended;
      mfa_enabled = false;
      last_login_at = "2026-08-15T11:20:00Z";
      created_at = "2025-02-20T14:00:00Z";
      assigned_permissions = "*.read" ∷ [];
    }
    ∷ []

abbrev pub initial_roles : List GuardianRole
initial_roles =
    record {
      id = "rol-1";
      key = AdminRoleType.super_admin;
      name = "Guardian Super Admin";
      description =
          "Full root access to all platform tenants, billing systems, IAM configurations, and security overrides.";
      admin_count = 1;
      is_system_role = true;
      permissions = "*" ∷ [];
      updated_at = "2024-01-01T00:00:00Z";
    }
    ∷ record {
      id = "rol-2";
      key = AdminRoleType.operations_admin;
      name = "Guardian Operations Admin";
      description =
          "Manages platform microservices, cluster health, agent release rings, and system maintenance windows.";
      admin_count = 1;
      is_system_role = true;
      permissions = "platform.*" ∷ "devices.read" ∷ "organizations.read" ∷ "audit.read" ∷ [];
      updated_at = "2024-03-15T00:00:00Z";
    }
    ∷ record {
      id = "rol-3";
      key = AdminRoleType.security_admin;
      name = "Guardian Security Admin";
      description =
          "Lead SOC investigator authorized to triage incidents, manage platform alert rules, and inspect security telemetry.";
      admin_count = 1;
      is_system_role = true;
      permissions =
          "security.*" ∷ "incidents.*" ∷ "devices.read" ∷ "organizations.read" ∷ "audit.read" ∷ [];
      updated_at = "2024-03-15T00:00:00Z";
    }
    ∷ record {
      id = "rol-4";
      key = AdminRoleType.support_admin;
      name = "Guardian Support Admin";
      description =
          "Tier-2 customer success staff assisting tenant onboarding, policy configuration, and user troubleshooting.";
      admin_count = 1;
      is_system_role = true;
      permissions = "organizations.read" ∷ "users.read" ∷ "devices.read" ∷ "security.read" ∷ [];
      updated_at = "2025-01-12T00:00:00Z";
    }
    ∷ record {
      id = "rol-5";
      key = AdminRoleType.billing_admin;
      name = "Guardian Billing Admin";
      description =
          "Finance and rev-ops manager controlling plan catalogs, invoice lifecycles, and subscription tiers.";
      admin_count = 1;
      is_system_role = true;
      permissions = "subscriptions.*" ∷ "plans.*" ∷ "organizations.read" ∷ [];
      updated_at = "2024-08-01T00:00:00Z";
    }
    ∷ record {
      id = "rol-6";
      key = AdminRoleType.read_only_admin;
      name = "Guardian Read Only Admin";
      description =
          "Auditor and executive viewing role with strictly non-destructive read permissions across all domains.";
      admin_count = 1;
      is_system_role = true;
      permissions = "*.read" ∷ [];
      updated_at = "2025-02-20T00:00:00Z";
    }
    ∷ []
