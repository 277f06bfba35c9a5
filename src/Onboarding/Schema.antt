-- ===== src/Onboarding/Schema.antt =====
-- The form schemas (web/src/schemas/adminSchemas.ts) as data: what each field is and what is checked
-- of it. The package zod, which does the checking, is a parameter of those that use the schemas.
use guardian_cloud.Prelude.{ℕ, Bool, true, Option, none, some, List, [], ◌∷◌, String}

pub data Value : Type 0 where
  text : String → Value
  num : ℕ → Value
  flag : Bool → Value

-- `z.string()`, `z.coerce.number()`, `z.boolean()`, `z.enum([...])`, `z.array(z.string())`
pub data Kind : Type 0 where
  string number boolean strings : Kind
  one_of : List String → Kind

pub data Check : Type 0 where
  min max : ℕ → Option String → Check
  regex : String → String → Check
  email : String → Check
  optional : Check
  default : Value → Check

pub record Rule : Type 0 where
  pub kind : Kind
  pub checks : List Check

-- the fields of `OrganizationOnboardingFormValues`
pub data FieldKey : Type 0 where
  name slug domain industry region owner_name owner_email owner_title plan_tier billing_interval
        seat_count device_multiplier enforce_mfa isolate_high_risk_devices compliance_standard
        risk_threshold max_simultaneous_logins api_rate_limit_per_min retention_months :
      FieldKey

abbrev pub organization_onboarding_schema : FieldKey → Rule
organization_onboarding_schema FieldKey.name = record {
  kind = Kind.string;
  checks = Check.min 2 (some "Organization name must be at least 2 characters") ∷ [];
}
organization_onboarding_schema FieldKey.slug = record {
  kind = Kind.string;
  checks =
      Check.min 2 (some "Slug must be at least 2 characters")
      ∷ Check.regex "/^[a-z0-9-]+$/" "Slug must be lowercase alphanumeric and hyphens"
      ∷ [];
}
organization_onboarding_schema FieldKey.domain = record {
  kind = Kind.string;
  checks =
      Check.min 3 (some "Corporate domain is required")
      ∷ Check.regex "/^[a-zA-Z0-9.-]+\\.[a-zA-Z]{2,}$/" "Invalid domain name"
      ∷ [];
}
organization_onboarding_schema FieldKey.industry = record {
  kind = Kind.string;
  checks = Check.min 1 (some "Industry is required") ∷ [];
}
organization_onboarding_schema FieldKey.region = record {
  kind = Kind.string;
  checks = Check.min 1 (some "Region is required") ∷ [];
}
organization_onboarding_schema FieldKey.owner_name = record {
  kind = Kind.string;
  checks = Check.min 2 (some "Owner full name is required") ∷ [];
}
organization_onboarding_schema FieldKey.owner_email = record {
  kind = Kind.string;
  checks = Check.email "Valid owner corporate email is required" ∷ [];
}
organization_onboarding_schema FieldKey.owner_title = record {
  kind = Kind.string;
  checks = Check.optional ∷ [];
}
organization_onboarding_schema FieldKey.plan_tier = record {
  kind = Kind.one_of ("BUSINESS" ∷ "BUSINESS_PLUS" ∷ "ENTERPRISE" ∷ []);
  checks = [];
}
organization_onboarding_schema FieldKey.billing_interval = record {
  kind = Kind.one_of ("MONTHLY" ∷ "ANNUAL" ∷ []);
  checks = [];
}
organization_onboarding_schema FieldKey.seat_count = record {
  kind = Kind.number;
  checks = Check.min 1 (some "At least 1 seat required") ∷ Check.max 100000 none ∷ [];
}
organization_onboarding_schema FieldKey.device_multiplier = record {
  kind = Kind.number;
  checks = Check.min 1 (some "Multiplier must be at least 1") ∷ Check.max 10 none ∷ [];
}
organization_onboarding_schema FieldKey.enforce_mfa = record {
  kind = Kind.boolean;
  checks = Check.default (Value.flag true) ∷ [];
}
organization_onboarding_schema FieldKey.isolate_high_risk_devices = record {
  kind = Kind.boolean;
  checks = Check.default (Value.flag true) ∷ [];
}
organization_onboarding_schema FieldKey.compliance_standard = record {
  kind = Kind.one_of ("SOC2" ∷ "HIPAA" ∷ "ISO27001" ∷ "NIST_CSF" ∷ "STANDARD" ∷ []);
  checks = [];
}
organization_onboarding_schema FieldKey.risk_threshold = record {
  kind = Kind.number;
  checks = Check.min 50 none ∷ Check.max 95 none ∷ Check.default (Value.num 75) ∷ [];
}
organization_onboarding_schema FieldKey.max_simultaneous_logins = record {
  kind = Kind.number;
  checks = Check.min 1 none ∷ Check.max 10 none ∷ Check.default (Value.num 3) ∷ [];
}
organization_onboarding_schema FieldKey.api_rate_limit_per_min = record {
  kind = Kind.number;
  checks = Check.min 100 none ∷ Check.max 50000 none ∷ Check.default (Value.num 1000) ∷ [];
}
organization_onboarding_schema FieldKey.retention_months = record {
  kind = Kind.number;
  checks = Check.min 1 none ∷ Check.max 84 none ∷ Check.default (Value.num 12) ∷ [];
}
