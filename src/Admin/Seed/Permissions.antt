-- ===== src/Admin/Seed/Permissions.antt =====
-- The permissions part of web/src/mock/adminMockData.ts, the data that the store begins with.
use guardian_cloud.Prelude.{List, [], ◌∷◌}
use guardian_cloud.Admin.Types.Iam.{PermissionDefinition}

abbrev pub permission_definitions : List PermissionDefinition
permission_definitions =
    record {
      id = "perm-1";
      resource = "organizations";
      action = "read";
      key = "organizations.read";
      description = "View organization profiles and metrics";
      category = "Tenancy";
    }
    ∷ record {
      id = "perm-2";
      resource = "organizations";
      action = "create";
      key = "organizations.create";
      description = "Provision new customer organizations";
      category = "Tenancy";
    }
    ∷ record {
      id = "perm-3";
      resource = "organizations";
      action = "update";
      key = "organizations.update";
      description = "Modify organization settings and tiers";
      category = "Tenancy";
    }
    ∷ record {
      id = "perm-4";
      resource = "organizations";
      action = "suspend";
      key = "organizations.suspend";
      description = "Suspend or archive customer organizations";
      category = "Tenancy";
    }
    ∷ record {
      id = "perm-5";
      resource = "users";
      action = "read";
      key = "users.read";
      description = "View individual user identities and scores";
      category = "Identity";
    }
    ∷ record {
      id = "perm-6";
      resource = "users";
      action = "update";
      key = "users.update";
      description = "Update user profiles and subscription status";
      category = "Identity";
    }
    ∷ record {
      id = "perm-7";
      resource = "users";
      action = "suspend";
      key = "users.suspend";
      description = "Suspend personal accounts";
      category = "Identity";
    }
    ∷ record {
      id = "perm-8";
      resource = "devices";
      action = "read";
      key = "devices.read";
      description = "View platform fleet inventory and telemetry";
      category = "Devices";
    }
    ∷ record {
      id = "perm-9";
      resource = "devices";
      action = "manage";
      key = "devices.manage";
      description = "Trigger remote lock/wipe/isolate commands";
      category = "Devices";
    }
    ∷ record {
      id = "perm-10";
      resource = "subscriptions";
      action = "read";
      key = "subscriptions.read";
      description = "Inspect MRR, licenses, and seat limits";
      category = "Billing";
    }
    ∷ record {
      id = "perm-11";
      resource = "subscriptions";
      action = "manage";
      key = "subscriptions.manage";
      description = "Adjust billing tiers, quotas, and invoices";
      category = "Billing";
    }
    ∷ record {
      id = "perm-12";
      resource = "security";
      action = "read";
      key = "security.read";
      description = "View security events, alerts, and risk trends";
      category = "Security";
    }
    ∷ record {
      id = "perm-13";
      resource = "incidents";
      action = "manage";
      key = "incidents.manage";
      description = "Create, assign, escalate, and close SOC incidents";
      category = "Security";
    }
    ∷ record {
      id = "perm-14";
      resource = "audit";
      action = "read";
      key = "audit.read";
      description = "Query immutable platform audit logs and forensic records";
      category = "Audit";
    }
    ∷ record {
      id = "perm-15";
      resource = "iam.users";
      action = "manage";
      key = "iam.users.manage";
      description = "Create, suspend, and configure internal Guardian admins";
      category = "Guardian IAM";
    }
    ∷ record {
      id = "perm-16";
      resource = "iam.roles";
      action = "manage";
      key = "iam.roles.manage";
      description = "Modify internal role definitions and grants";
      category = "Guardian IAM";
    }
    ∷ record {
      id = "perm-17";
      resource = "iam.permissions";
      action = "manage";
      key = "iam.permissions.manage";
      description = "Grant or revoke fine-grained permissions";
      category = "Guardian IAM";
    }
    ∷ record {
      id = "perm-18";
      resource = "platform.settings";
      action = "manage";
      key = "platform.settings.manage";
      description = "Modify core platform parameters, storage, and retention";
      category = "Platform";
    }
    ∷ []
