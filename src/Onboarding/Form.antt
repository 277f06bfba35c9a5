-- ===== src/Onboarding/Form.antt =====
-- The form of the wizard (web/src/pages/admin/organizations/OrganizationOnboardingPage.tsx): its
-- fields, the steps they belong to, and which values the schema accepts. What zod makes of a value
-- under a rule, the value of the result or nothing, is a parameter.
use guardian_cloud.Prelude.{
  ℕ, Bool, true, false, ◌&&◌, Option, none, some, List, [], ◌∷◌, ◌==◌, if◌then◌else◌, ◌otherwise◌,
}
use guardian_cloud.Onboarding.Schema.{Value, Rule, FieldKey, organization_onboarding_schema}

abbrev pub Zod : Type 0
Zod = Rule → Value → Option Value

abbrev pub Values : Type 0
Values = FieldKey → Value

abbrev pub default_values : Values
default_values FieldKey.name = Value.text ""
default_values FieldKey.slug = Value.text ""
default_values FieldKey.domain = Value.text ""
default_values FieldKey.industry = Value.text "Cybersecurity"
default_values FieldKey.region = Value.text "us-east-1"
default_values FieldKey.owner_name = Value.text ""
default_values FieldKey.owner_email = Value.text ""
default_values FieldKey.owner_title = Value.text "Chief Information Security Officer"
default_values FieldKey.plan_tier = Value.text "ENTERPRISE"
default_values FieldKey.billing_interval = Value.text "ANNUAL"
default_values FieldKey.seat_count = Value.num 150
default_values FieldKey.device_multiplier = Value.num 2
default_values FieldKey.enforce_mfa = Value.flag true
default_values FieldKey.isolate_high_risk_devices = Value.flag true
default_values FieldKey.compliance_standard = Value.text "SOC2"
default_values FieldKey.risk_threshold = Value.num 75
default_values FieldKey.max_simultaneous_logins = Value.num 3
default_values FieldKey.api_rate_limit_per_min = Value.num 2000
default_values FieldKey.retention_months = Value.num 24

-- the fields of the schema, in its order
abbrev pub all_fields : List FieldKey
all_fields =
    FieldKey.name ∷ FieldKey.slug ∷ FieldKey.domain ∷ FieldKey.industry ∷ FieldKey.region
    ∷ FieldKey.owner_name ∷ FieldKey.owner_email ∷ FieldKey.owner_title ∷ FieldKey.plan_tier
    ∷ FieldKey.billing_interval ∷ FieldKey.seat_count ∷ FieldKey.device_multiplier
    ∷ FieldKey.enforce_mfa ∷ FieldKey.isolate_high_risk_devices ∷ FieldKey.compliance_standard
    ∷ FieldKey.risk_threshold ∷ FieldKey.max_simultaneous_logins ∷ FieldKey.api_rate_limit_per_min
    ∷ FieldKey.retention_months ∷ []

-- the place of a field among them, by which two fields are told apart
abbrev pub field_index : FieldKey → ℕ
field_index FieldKey.name = 0
field_index FieldKey.slug = 1
field_index FieldKey.domain = 2
field_index FieldKey.industry = 3
field_index FieldKey.region = 4
field_index FieldKey.owner_name = 5
field_index FieldKey.owner_email = 6
field_index FieldKey.owner_title = 7
field_index FieldKey.plan_tier = 8
field_index FieldKey.billing_interval = 9
field_index FieldKey.seat_count = 10
field_index FieldKey.device_multiplier = 11
field_index FieldKey.enforce_mfa = 12
field_index FieldKey.isolate_high_risk_devices = 13
field_index FieldKey.compliance_standard = 14
field_index FieldKey.risk_threshold = 15
field_index FieldKey.max_simultaneous_logins = 16
field_index FieldKey.api_rate_limit_per_min = 17
field_index FieldKey.retention_months = 18

-- the fields of each step, `STEP_FIELDS[step]`
unfoldable pub step_fields : ℕ → Option (List FieldKey)
step_fields n =
    if n == 1
    then some
        (FieldKey.name ∷ FieldKey.slug ∷ FieldKey.domain ∷ FieldKey.industry ∷ FieldKey.region ∷ [])
    else if n == 2
    then some (FieldKey.owner_name ∷ FieldKey.owner_email ∷ [])
    else if n == 3
    then some (FieldKey.plan_tier ∷ FieldKey.billing_interval ∷ [])
    else if n == 4
    then some (FieldKey.seat_count ∷ FieldKey.device_multiplier ∷ [])
    else if n == 5
    then some (
        FieldKey.enforce_mfa ∷ FieldKey.isolate_high_risk_devices ∷ FieldKey.compliance_standard
        ∷ FieldKey.risk_threshold ∷ [])
    else if n == 6
    then some (
        FieldKey.max_simultaneous_logins ∷ FieldKey.api_rate_limit_per_min
        ∷ FieldKey.retention_months ∷ [])
    else none

-- the step that draws an input for the field, or 0
abbrev pub registered_on : FieldKey → ℕ
registered_on FieldKey.name = 1
registered_on FieldKey.slug = 1
registered_on FieldKey.domain = 1
registered_on FieldKey.industry = 1
registered_on FieldKey.region = 0
registered_on FieldKey.owner_name = 2
registered_on FieldKey.owner_email = 2
registered_on FieldKey.owner_title = 2
registered_on FieldKey.plan_tier = 3
registered_on FieldKey.billing_interval = 0
registered_on FieldKey.seat_count = 4
registered_on FieldKey.device_multiplier = 4
registered_on FieldKey.enforce_mfa = 5
registered_on FieldKey.isolate_high_risk_devices = 5
registered_on FieldKey.compliance_standard = 0
registered_on FieldKey.risk_threshold = 0
registered_on FieldKey.max_simultaneous_logins = 6
registered_on FieldKey.api_rate_limit_per_min = 0
registered_on FieldKey.retention_months = 6

-- the fields whose input is a checkbox; the others give a text
abbrev pub is_checkbox : FieldKey → Bool
is_checkbox FieldKey.enforce_mfa = true
is_checkbox FieldKey.isolate_high_risk_devices = true
is_checkbox _ = false

abbrev pub is_given : Option Value → Bool
is_given none = false
is_given (some _) = true

abbrev pub accepted : Zod → Values → FieldKey → Bool
accepted zod values k = is_given (zod (organization_onboarding_schema k) (values k))

-- `form.trigger(fields)`
unfoldable pub trigger : Zod → Values → List FieldKey → Bool
trigger zod values [] = true
trigger zod values (k ∷ ks) = accepted zod values k && trigger zod values ks

-- the data that `handleSubmit` gives: the results of the schema
abbrev pub parsed_values : Zod → Values → Values
parsed_values zod values k = zod (organization_onboarding_schema k) (values k) otherwise values k

abbrev pub with_value : FieldKey → Value → Values → Values
with_value k v values j = if field_index j == field_index k then v else values j
