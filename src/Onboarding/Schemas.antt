-- ===== src/Onboarding/Schemas.antt =====
-- The other form schemas of web/src/schemas/adminSchemas.ts.
use guardian_cloud.Prelude.{true, false, none, some, List, [], ◌∷◌, String}
use guardian_cloud.Onboarding.Schema.{Value, Kind, Check, Rule}

abbrev pub edit_organization_schema : List (String × Rule)
edit_organization_schema =
    (
      "name",
      record {
        kind = Kind.string;
        checks = Check.min 2 (some "Organization name must be at least 2 characters") ∷ [];
      },
    )
    ∷ (
      "domain",
      record {
        kind = Kind.string;
        checks = Check.min 3 (some "Corporate domain is required") ∷ [];
      },
    )
    ∷ (
      "planTier",
      record {
        kind = Kind.one_of ("FREE" ∷ "PERSONAL" ∷ "BUSINESS" ∷ "BUSINESS_PLUS" ∷ "ENTERPRISE" ∷ []);
        checks = [];
      },
    )
    ∷ (
      "status",
      record {
        kind = Kind.one_of ("ACTIVE" ∷ "SUSPENDED" ∷ "TRIAL" ∷ "ARCHIVED" ∷ []);
        checks = [];
      },
    )
    ∷ []

abbrev pub suspend_reason_schema : List (String × Rule)
suspend_reason_schema =
    (
      "reason",
      record {
        kind = Kind.string;
        checks =
            Check.min 10 (
              some
                "A detailed justification (minimum 10 characters) is required for platform audit")
            ∷ [];
      },
    )
    ∷ (
      "notifyTenantAdmins",
      record { kind = Kind.boolean; checks = Check.default (Value.flag true) ∷ [] },
    )
    ∷ (
      "preserveDataForDays",
      record {
        kind = Kind.number;
        checks = Check.min 7 none ∷ Check.max 365 none ∷ Check.default (Value.num 90) ∷ [];
      },
    )
    ∷ []

abbrev pub user_form_schema : List (String × Rule)
user_form_schema =
    ("name", record { kind = Kind.string; checks = Check.min 2 (some "Name is required") ∷ [] })
    ∷ ("email", record { kind = Kind.string; checks = Check.email "Valid email is required" ∷ [] })
    ∷ ("planTier", record { kind = Kind.one_of ("FREE" ∷ "PERSONAL" ∷ []); checks = [] })
    ∷ (
      "status",
      record {
        kind = Kind.one_of ("ACTIVE" ∷ "SUSPENDED" ∷ "TRIAL" ∷ "ARCHIVED" ∷ []);
        checks = [];
      },
    )
    ∷ []

abbrev pub plan_form_schema : List (String × Rule)
plan_form_schema =
    (
      "name",
      record { kind = Kind.string; checks = Check.min 3 (some "Plan name is required") ∷ [] },
    )
    ∷ (
      "tier",
      record {
        kind = Kind.one_of ("FREE" ∷ "PERSONAL" ∷ "BUSINESS" ∷ "BUSINESS_PLUS" ∷ "ENTERPRISE" ∷ []);
        checks = [];
      },
    )
    ∷ ("targetType", record { kind = Kind.one_of ("PERSONAL" ∷ "ORGANIZATION" ∷ []); checks = [] })
    ∷ ("priceMonthly", record { kind = Kind.number; checks = Check.min 0 none ∷ [] })
    ∷ ("priceAnnual", record { kind = Kind.number; checks = Check.min 0 none ∷ [] })
    ∷ ("deviceLimit", record { kind = Kind.number; checks = Check.min 1 none ∷ [] })
    ∷ ("employeeLimit", record { kind = Kind.number; checks = Check.min 1 none ∷ [] })
    ∷ (
      "description",
      record { kind = Kind.string; checks = Check.min 10 (some "Description required") ∷ [] },
    )
    ∷ []

abbrev pub create_admin_schema : List (String × Rule)
create_admin_schema =
    ("name", record { kind = Kind.string; checks = Check.min 2 (some "Name is required") ∷ [] })
    ∷ (
      "email",
      record {
        kind = Kind.string;
        checks = Check.email "Internal Guardian email is required" ∷ [];
      },
    )
    ∷ (
      "role",
      record {
        kind = Kind.one_of (
            "SUPER_ADMIN" ∷ "OPERATIONS_ADMIN" ∷ "SECURITY_ADMIN" ∷ "SUPPORT_ADMIN"
            ∷ "BILLING_ADMIN" ∷ "READ_ONLY_ADMIN" ∷ []);
        checks = [];
      },
    )
    ∷ (
      "team",
      record {
        kind = Kind.one_of ("Platform" ∷ "Security" ∷ "Operations" ∷ "Support" ∷ "Billing" ∷ []);
        checks = [];
      },
    )
    ∷ ("requireMfa", record { kind = Kind.boolean; checks = Check.default (Value.flag false) ∷ [] })
    ∷ []

abbrev pub create_incident_schema : List (String × Rule)
create_incident_schema =
    (
      "title",
      record {
        kind = Kind.string;
        checks = Check.min 5 (some "Incident title must be at least 5 characters") ∷ [];
      },
    )
    ∷ (
      "severity",
      record { kind = Kind.one_of ("LOW" ∷ "MEDIUM" ∷ "HIGH" ∷ "CRITICAL" ∷ []); checks = [] },
    )
    ∷ (
      "category",
      record { kind = Kind.string; checks = Check.min 2 (some "Category is required") ∷ [] },
    )
    ∷ ("tenantId", record { kind = Kind.string; checks = Check.optional ∷ [] })
    ∷ ("deviceId", record { kind = Kind.string; checks = Check.optional ∷ [] })
    ∷ (
      "summary",
      record {
        kind = Kind.string;
        checks = Check.min 15 (some "Provide a detailed incident summary") ∷ [];
      },
    )
    ∷ ("assignedToAdmin", record { kind = Kind.string; checks = Check.optional ∷ [] })
    ∷ []

abbrev pub maintenance_window_schema : List (String × Rule)
maintenance_window_schema =
    ("title", record { kind = Kind.string; checks = Check.min 5 (some "Title is required") ∷ [] })
    ∷ (
      "impactLevel",
      record { kind = Kind.one_of ("NONE" ∷ "LOW" ∷ "MODERATE" ∷ "CRITICAL" ∷ []); checks = [] },
    )
    ∷ (
      "startAt",
      record { kind = Kind.string; checks = Check.min 1 (some "Start date/time is required") ∷ [] },
    )
    ∷ (
      "endAt",
      record { kind = Kind.string; checks = Check.min 1 (some "End date/time is required") ∷ [] },
    )
    ∷ (
      "affectedServices",
      record {
        kind = Kind.strings;
        checks = Check.min 1 (some "Select at least one affected service") ∷ [];
      },
    )
    ∷ ("notes", record { kind = Kind.string; checks = Check.optional ∷ [] })
    ∷ []
