-- ===== src/Onboarding/Wizard.antt =====
-- The wizard of web/src/pages/admin/organizations/OrganizationOnboardingPage.tsx: its steps, and the
-- organization that the last one creates.
use Prim.Native.Char.{char, code}
use Prim.Native.String.{◌++◌}
use guardian_cloud.Prelude.{
  ℕ, ◌+◌, ◌-◌, ◌*◌, max, Bool, true, false, ◌&&◌, Option, none, some, List, String, str_eq, ◌==◌,
  ltb, if◌then◌else◌,
}
use guardian_cloud.Admin.Types.Enums.{PlanTier}
use guardian_cloud.Admin.Types.Partial.{PartialOrganization}
use guardian_cloud.Admin.State.{Host, AdminStore}
use guardian_cloud.Admin.Store.Organizations.{create_organization}
use guardian_cloud.Onboarding.Schema.{Value, FieldKey}
use guardian_cloud.Onboarding.Form.{
  Zod, Values, default_values, all_fields, step_fields, registered_on, is_checkbox, trigger,
  parsed_values, with_value,
}

-- The state of the page, with the store that it writes.
pub record WizardState : Type 0 where
  pub current_step : ℕ
  pub is_activated : Bool
  pub created_org_id : Option String
  pub values : Values
  pub store : AdminStore

abbrev pub start : AdminStore → WizardState
start store = record {
  current_step = 1;
  is_activated = false;
  created_org_id = none;
  values = default_values;
  store = store;
}

abbrev pub advance : WizardState → WizardState
advance st = record st { current_step = st.current_step + 1 }

-- the rest of `handleNext`, with the fields of the step
abbrev pub next_after : Zod → Option (List FieldKey) → WizardState → WizardState
next_after zod none st = advance st
next_after zod (some fields) st = if trigger zod st.values fields then advance st else st

unfoldable pub handle_next : Zod → WizardState → WizardState
unfolding step_fields trigger
handle_next zod st =
    if ltb st.current_step 7 then next_after zod (step_fields st.current_step) st else st

-- `tier.replace('_', ' ')`
unfoldable pub spaced : String → String
spaced String.[] = String.[]
spaced (String.◌∷◌ c s) =
    let rest = spaced s in if code c == b'_' then String.◌∷◌ (char b' ' tt) s else String.◌∷◌ c rest

abbrev pub as_text : Value → String
as_text (Value.text t) = t
as_text (Value.num _) = ""
as_text (Value.flag _) = ""

-- The whole numbers are all that the model has: the schema has no `.int()`, so a text such as `1.5`,
-- which a field of seats takes, gives a number that is outside the model.
abbrev pub as_num : Value → ℕ
as_num (Value.num n) = n
as_num (Value.text _) = 0
as_num (Value.flag _) = 0

-- the tier that a text names; the schema lets no other text through
abbrev pub tier_of : String → Option PlanTier
tier_of t =
    if str_eq t "BUSINESS"
    then some PlanTier.business
    else if str_eq t "BUSINESS_PLUS"
    then some PlanTier.business_plus
    else if str_eq t "ENTERPRISE"
    then some PlanTier.enterprise
    else none

-- the object that `onSubmit` gives to `createOrganization`; `mrr` is in hundredths
unfoldable pub onboarded : Values → PartialOrganization
unfolding spaced
onboarded values =
    let tier = as_text (values FieldKey.plan_tier) in
    record {
      id = none;
      name = some (as_text (values FieldKey.name));
      slug = some (as_text (values FieldKey.slug));
      domain = some (as_text (values FieldKey.domain));
      plan_id = none;
      plan_name = some ("Guardian " ++ spaced tier);
      plan_tier = tier_of tier;
      status = none;
      risk_score = none;
      risk_level = none;
      employee_count = some (as_num (values FieldKey.seat_count));
      device_count =
          some (as_num (values FieldKey.seat_count) * as_num (values FieldKey.device_multiplier));
      healthy_device_count = none;
      open_incidents_count = none;
      policy_violations_count = none;
      mrr = some (if str_eq tier "ENTERPRISE" then 450000 else 250000);
      subscription_status = none;
      owner_name = some (as_text (values FieldKey.owner_name));
      owner_email = some (as_text (values FieldKey.owner_email));
      created_at = none;
      last_active_at = none;
      logo_url = none;
      industry = some (as_text (values FieldKey.industry));
      region = some (as_text (values FieldKey.region));
    }

-- `onSubmit` at the seventh step
unfoldable pub activate : Host → Values → WizardState → WizardState
unfolding onboarded create_organization
activate h values st =
    let (org, store) = create_organization h (onboarded values) st.store in
    record st { store = store; created_org_id = some org.id; is_activated = true; current_step = 8 }

unfoldable pub on_submit : Zod → Host → Values → WizardState → WizardState
unfolding handle_next activate
on_submit zod h values st =
    if ltb st.current_step 7
    then handle_next zod st
    else if st.current_step == 7
    then activate h values st
    else st

-- `handleSubmit(onSubmit)`: only where the schema accepts every field
unfoldable pub handle_submit : Zod → Host → WizardState → WizardState
unfolding on_submit trigger
handle_submit zod h st =
    if trigger zod st.values all_fields
    then on_submit zod h (parsed_values zod st.values) st
    else st

-- the button Back, which the last step does not have
unfoldable pub back : WizardState → WizardState
back st =
    if ltb st.current_step 8 then record st { current_step = max 1 (st.current_step - 1) } else st

-- a step of the list at the top, 1 to 8
unfoldable pub go_to : ℕ → WizardState → WizardState
go_to id st = if ltb id st.current_step && ltb 0 id then record st { current_step = id } else st

-- an input of the step that is shown
unfoldable pub type_text : FieldKey → String → WizardState → WizardState
type_text k t st =
    if registered_on k == st.current_step
    then (if is_checkbox k
        then st
        else record st { values = with_value k (Value.text t) st.values })
    else st

unfoldable pub check_box : FieldKey → Bool → WizardState → WizardState
check_box k b st =
    if registered_on k == st.current_step
    then (if is_checkbox k
        then record st { values = with_value k (Value.flag b) st.values }
        else st)
    else st
