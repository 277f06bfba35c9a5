-- ===== src/Onboarding/Laws/Fields.antt =====
-- The fields of the steps, and which of them a trigger makes sure of.
use guardian_cloud.Prelude.{
  ℕ, ◌+◌, ◌≤◌, ◌<◌, ◌≡◌, ◌⊎◌, refl, inl, inr, ap, ◌∙◌, sym, true, Option, none, some, List, [], ◌∷◌,
  String, ltb, Bool-cases, arith, get_elem?, ◌otherwise◌,
}
use guardian_cloud.Onboarding.Schema.{Value, FieldKey, organization_onboarding_schema}
use guardian_cloud.Onboarding.Form.{
  Zod, Values, default_values, all_fields, field_index, step_fields, registered_on, is_given,
  accepted, trigger,
}

-- the step whose fields a field is among, or 0
abbrev pub step_of : FieldKey → ℕ
step_of FieldKey.name = 1
step_of FieldKey.slug = 1
step_of FieldKey.domain = 1
step_of FieldKey.industry = 1
step_of FieldKey.region = 1
step_of FieldKey.owner_name = 2
step_of FieldKey.owner_email = 2
step_of FieldKey.owner_title = 0
step_of FieldKey.plan_tier = 3
step_of FieldKey.billing_interval = 3
step_of FieldKey.seat_count = 4
step_of FieldKey.device_multiplier = 4
step_of FieldKey.enforce_mfa = 5
step_of FieldKey.isolate_high_risk_devices = 5
step_of FieldKey.compliance_standard = 5
step_of FieldKey.risk_threshold = 5
step_of FieldKey.max_simultaneous_logins = 6
step_of FieldKey.api_rate_limit_per_min = 6
step_of FieldKey.retention_months = 6

pub trigger_first :
    (zod : Zod) (v : Values) (k : FieldKey) (ks : List FieldKey)
    → trigger zod v (k ∷ ks) ≡ true
    → accepted zod v k ≡ true
unfolding trigger
trigger_first zod v k ks w = ground arith

pub trigger_rest :
    (zod : Zod) (v : Values) (k : FieldKey) (ks : List FieldKey)
    → trigger zod v (k ∷ ks) ≡ true
    → trigger zod v ks ≡ true
unfolding trigger
trigger_rest zod v k ks w = ground arith

-- The fields of a step are accepted where the trigger of the step is.
pub trigger-accepted :
    (zod : Zod) (v : Values) (k : FieldKey)
    → 1 ≤ step_of k
    → trigger zod v (step_fields (step_of k) otherwise []) ≡ true
    → accepted zod v k ≡ true
unfolding step_fields
trigger-accepted zod v FieldKey.name h w = trigger_first zod v _ _ w
trigger-accepted zod v FieldKey.slug h w = trigger_first zod v _ _ (trigger_rest zod v _ _ w)
trigger-accepted zod v FieldKey.domain h w =
    trigger_first zod v _ _ (trigger_rest zod v _ _ (trigger_rest zod v _ _ w))
trigger-accepted zod v FieldKey.industry h w =
    trigger_first zod v _ _
      (trigger_rest zod v _ _ (trigger_rest zod v _ _ (trigger_rest zod v _ _ w)))
trigger-accepted zod v FieldKey.region h w = trigger_first zod v _ _ (
    trigger_rest zod v _ _
      (trigger_rest zod v _ _ (trigger_rest zod v _ _ (trigger_rest zod v _ _ w))))
trigger-accepted zod v FieldKey.owner_name h w = trigger_first zod v _ _ w
trigger-accepted zod v FieldKey.owner_email h w = trigger_first zod v _ _ (trigger_rest zod v _ _ w)
trigger-accepted zod v FieldKey.plan_tier h w = trigger_first zod v _ _ w
trigger-accepted zod v FieldKey.billing_interval h w =
    trigger_first zod v _ _ (trigger_rest zod v _ _ w)
trigger-accepted zod v FieldKey.seat_count h w = trigger_first zod v _ _ w
trigger-accepted zod v FieldKey.device_multiplier h w =
    trigger_first zod v _ _ (trigger_rest zod v _ _ w)
trigger-accepted zod v FieldKey.enforce_mfa h w = trigger_first zod v _ _ w
trigger-accepted zod v FieldKey.isolate_high_risk_devices h w =
    trigger_first zod v _ _ (trigger_rest zod v _ _ w)
trigger-accepted zod v FieldKey.compliance_standard h w =
    trigger_first zod v _ _ (trigger_rest zod v _ _ (trigger_rest zod v _ _ w))
trigger-accepted zod v FieldKey.risk_threshold h w =
    trigger_first zod v _ _
      (trigger_rest zod v _ _ (trigger_rest zod v _ _ (trigger_rest zod v _ _ w)))
trigger-accepted zod v FieldKey.max_simultaneous_logins h w = trigger_first zod v _ _ w
trigger-accepted zod v FieldKey.api_rate_limit_per_min h w =
    trigger_first zod v _ _ (trigger_rest zod v _ _ w)
trigger-accepted zod v FieldKey.retention_months h w =
    trigger_first zod v _ _ (trigger_rest zod v _ _ (trigger_rest zod v _ _ w))
trigger-accepted zod v FieldKey.owner_title h w = absurd (omega arith)

pub all_accepted :
    (zod : Zod) (v : Values) (ks : List FieldKey)
    → ((k : FieldKey) → accepted zod v k ≡ true)
    → trigger zod v ks ≡ true
unfolding trigger
all_accepted zod v [] w = refl
all_accepted zod v (k ∷ ks) w =
    let first = w k in let rest = all_accepted zod v ks w in ground arith

field_at : (k : FieldKey) → get_elem? all_fields (field_index k) ≡ some k
field_at FieldKey.name = refl
field_at FieldKey.slug = refl
field_at FieldKey.domain = refl
field_at FieldKey.industry = refl
field_at FieldKey.region = refl
field_at FieldKey.owner_name = refl
field_at FieldKey.owner_email = refl
field_at FieldKey.owner_title = refl
field_at FieldKey.plan_tier = refl
field_at FieldKey.billing_interval = refl
field_at FieldKey.seat_count = refl
field_at FieldKey.device_multiplier = refl
field_at FieldKey.enforce_mfa = refl
field_at FieldKey.isolate_high_risk_devices = refl
field_at FieldKey.compliance_standard = refl
field_at FieldKey.risk_threshold = refl
field_at FieldKey.max_simultaneous_logins = refl
field_at FieldKey.api_rate_limit_per_min = refl
field_at FieldKey.retention_months = refl

field_of : Option FieldKey → FieldKey
field_of none = FieldKey.name
field_of (some k) = k

pub same_field : (j k : FieldKey) → field_index j ≡ field_index k → j ≡ k
unfolding field_of
same_field j k e = ap field_of (sym (field_at j) ∙ ap (λ n. get_elem? all_fields n) e ∙ field_at k)

-- Every text is a title, as the schema lets the title be any text.
abbrev pub TakesTitles : Zod → Type 0
TakesTitles zod =
    (t : String)
    → is_given (zod (organization_onboarding_schema FieldKey.owner_title) (Value.text t)) ≡ true

pub lt_or_eq : (m n : ℕ) → m < n + 1 → (m < n) ⊎ (m ≡ n)
lt_or_eq m n h = elim (Bool-cases (ltb m n)) [
  | inl e ↦ inl (ground arith)
  | inr e ↦ inr (ground arith)
]

pub step_of_le : (k : FieldKey) → step_of k ≤ 6
step_of_le FieldKey.name = omega arith
step_of_le FieldKey.slug = omega arith
step_of_le FieldKey.domain = omega arith
step_of_le FieldKey.industry = omega arith
step_of_le FieldKey.region = omega arith
step_of_le FieldKey.owner_name = omega arith
step_of_le FieldKey.owner_email = omega arith
step_of_le FieldKey.plan_tier = omega arith
step_of_le FieldKey.billing_interval = omega arith
step_of_le FieldKey.seat_count = omega arith
step_of_le FieldKey.device_multiplier = omega arith
step_of_le FieldKey.enforce_mfa = omega arith
step_of_le FieldKey.isolate_high_risk_devices = omega arith
step_of_le FieldKey.compliance_standard = omega arith
step_of_le FieldKey.risk_threshold = omega arith
step_of_le FieldKey.max_simultaneous_logins = omega arith
step_of_le FieldKey.api_rate_limit_per_min = omega arith
step_of_le FieldKey.retention_months = omega arith
step_of_le FieldKey.owner_title = omega arith

-- A field with an input is one of its step, or the title.
pub registered_lem :
    (k : FieldKey)
    → 1 ≤ registered_on k
    → (registered_on k ≡ step_of k) ⊎ (k ≡ FieldKey.owner_title)
registered_lem FieldKey.name h = inl refl
registered_lem FieldKey.slug h = inl refl
registered_lem FieldKey.domain h = inl refl
registered_lem FieldKey.industry h = inl refl
registered_lem FieldKey.region h = absurd (omega arith)
registered_lem FieldKey.owner_name h = inl refl
registered_lem FieldKey.owner_email h = inl refl
registered_lem FieldKey.plan_tier h = inl refl
registered_lem FieldKey.billing_interval h = absurd (omega arith)
registered_lem FieldKey.seat_count h = inl refl
registered_lem FieldKey.device_multiplier h = inl refl
registered_lem FieldKey.enforce_mfa h = inl refl
registered_lem FieldKey.isolate_high_risk_devices h = inl refl
registered_lem FieldKey.compliance_standard h = absurd (omega arith)
registered_lem FieldKey.risk_threshold h = absurd (omega arith)
registered_lem FieldKey.max_simultaneous_logins h = inl refl
registered_lem FieldKey.api_rate_limit_per_min h = absurd (omega arith)
registered_lem FieldKey.retention_months h = inl refl
registered_lem FieldKey.owner_title h = inr refl

pub start_accepted :
    (zod : Zod) (k : FieldKey)
    → TakesTitles zod
    → step_of k < 1
    → accepted zod default_values k ≡ true
start_accepted zod FieldKey.name titles l = absurd (omega arith)
start_accepted zod FieldKey.slug titles l = absurd (omega arith)
start_accepted zod FieldKey.domain titles l = absurd (omega arith)
start_accepted zod FieldKey.industry titles l = absurd (omega arith)
start_accepted zod FieldKey.region titles l = absurd (omega arith)
start_accepted zod FieldKey.owner_name titles l = absurd (omega arith)
start_accepted zod FieldKey.owner_email titles l = absurd (omega arith)
start_accepted zod FieldKey.owner_title titles l = titles "Chief Information Security Officer"
start_accepted zod FieldKey.plan_tier titles l = absurd (omega arith)
start_accepted zod FieldKey.billing_interval titles l = absurd (omega arith)
start_accepted zod FieldKey.seat_count titles l = absurd (omega arith)
start_accepted zod FieldKey.device_multiplier titles l = absurd (omega arith)
start_accepted zod FieldKey.enforce_mfa titles l = absurd (omega arith)
start_accepted zod FieldKey.isolate_high_risk_devices titles l = absurd (omega arith)
start_accepted zod FieldKey.compliance_standard titles l = absurd (omega arith)
start_accepted zod FieldKey.risk_threshold titles l = absurd (omega arith)
start_accepted zod FieldKey.max_simultaneous_logins titles l = absurd (omega arith)
start_accepted zod FieldKey.api_rate_limit_per_min titles l = absurd (omega arith)
start_accepted zod FieldKey.retention_months titles l = absurd (omega arith)
