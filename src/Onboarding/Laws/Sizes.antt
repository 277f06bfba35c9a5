-- ===== src/Onboarding/Laws/Sizes.antt =====
-- The sizes of the organizations that the wizard creates.
use mathlib.Core.Path.{subst}
use native.Mathlib.Nat.{le-mul_of_pos_right, mul-le-mul_left}
use guardian_cloud.Prelude.{
  ℕ, ◌*◌, ◌≤◌, ◌≡◌, refl, inl, inr, ap, ◌∙◌, sym, true, Option, none, some, List, [], ◌∷◌, String,
  ◌==◌, ltb, Bool-cases, arith, if_of_both, ◌&&◌,
}
use guardian_cloud.Admin.Types.Tenant.{Organization}
use guardian_cloud.Admin.State.{Host, AdminStore}
use guardian_cloud.Admin.Store.Organizations.{new_organization}
use guardian_cloud.Onboarding.Schema.{
  Value, Kind, Rule, Check, FieldKey, organization_onboarding_schema,
}
use guardian_cloud.Onboarding.Form.{
  field_index, registered_on, is_checkbox, with_value, Zod, Values, all_fields, step_fields,
  is_given, accepted, trigger, parsed_values,
}
use guardian_cloud.Onboarding.Wizard.{
  activate, WizardState, as_num, onboarded, next_after, handle_next, on_submit, handle_submit, back,
  go_to, type_text, check_box,
}
use guardian_cloud.Onboarding.Laws.Fields.{trigger_first, trigger_rest}
use guardian_cloud.Onboarding.Laws.Steps.{WizardAction, do_action, do_actions}
use guardian_cloud.Onboarding.Laws.Activation.{submission, activate_values}

-- A whole number that is accepted lies between the least and the greatest value of its rule.
abbrev pub TakesNumbers : Zod → Type 0
TakesNumbers zod =
    (lo hi : ℕ) (m n : Option String) (v : Value) (x : ℕ)
    → zod (record { kind = Kind.number; checks = Check.min lo m ∷ Check.max hi n ∷ [] }) v
      ≡ some (Value.num x)
    → (lo ≤ x) × (x ≤ hi)

-- Where the value is read as a number, it is read as a whole one: a text such as `1.5` is not of these.
abbrev pub ReadsWhole : Zod → Value → Type 0
ReadsWhole zod v =
    (rule : Rule) (w : Value)
    → rule.kind ≡ Kind.number
    → zod rule v ≡ some w
    → (x : ℕ) × (w ≡ Value.num x)

-- all that is entered
abbrev pub AllReadWhole : Zod → List WizardAction → Type 0
AllReadWhole zod [] = Unit
AllReadWhole zod (WizardAction.typed k t ∷ later) =
    ReadsWhole zod (Value.text t) × AllReadWhole zod later
AllReadWhole zod (WizardAction.checked k b ∷ later) =
    ReadsWhole zod (Value.flag b) × AllReadWhole zod later
AllReadWhole zod (WizardAction.next ∷ later) = AllReadWhole zod later
AllReadWhole zod (WizardAction.back_pressed ∷ later) = AllReadWhole zod later
AllReadWhole zod (WizardAction.picked id ∷ later) = AllReadWhole zod later
AllReadWhole zod (WizardAction.submitted h ∷ later) = AllReadWhole zod later

-- the values of the form
abbrev pub HoldsWhole : Zod → WizardState → Type 0
HoldsWhole zod st = (k : FieldKey) → ReadsWhole zod (st.values k)

-- from 1 to 100000 seats, and from 1 to 10 devices for each
abbrev pub IsSized : Organization → Type 0
IsSized o =
    (1 ≤ o.employee_count)
    × (o.employee_count ≤ 100000)
    × (o.employee_count ≤ o.device_count)
    × (o.device_count ≤ 10 * o.employee_count)

abbrev pub AllSized : List Organization → Type 0
AllSized [] = Unit
AllSized (o ∷ os) = IsSized o × AllSized os

given_some : (o : Option Value) → is_given o ≡ true → (w : Value) × (o ≡ some w)
given_some none e = absurd (ground arith)
given_some (some w) e = (w, refl)

-- a field of a least and a greatest value, once it is accepted
parsed_number :
    (zod : Zod) (v : Values) (k : FieldKey) (lo hi : ℕ) (m n : Option String)
    → TakesNumbers zod
    → ReadsWhole zod (v k)
    → organization_onboarding_schema k
      ≡ record { kind = Kind.number; checks = Check.min lo m ∷ Check.max hi n ∷ [] }
    → accepted zod v k ≡ true
    → (lo ≤ as_num (parsed_values zod v k)) × (as_num (parsed_values zod v k) ≤ hi)
parsed_number zod v k lo hi m n numbers whole rule ok =
    let (w, e) = given_some (zod (organization_onboarding_schema k) (v k)) ok in
    let (x, isnum) = whole _ w (ap (λ r. r.kind) rule) e in
    let read = ap (λ r. zod r (v k)) (sym rule) ∙ e ∙ ap some isnum in
    rw e (rw isnum (numbers lo hi m n (v k) x read))

mul-le-ten : (n m : ℕ) → m ≤ 10 → n * m ≤ 10 * n
mul-le-ten n m h = let bound = mul-le-mul_left n h in omega arith

submission-IsSized :
    (zod : Zod) (h : Host) (st : WizardState)
    → TakesNumbers zod
    → HoldsWhole zod st
    → trigger zod st.values all_fields ≡ true
    → IsSized (submission zod h st)
unfolding new_organization onboarded
submission-IsSized zod h st numbers whole t =
    let v = st.values in
    let later =
      (trigger_rest zod v _ _ (
        trigger_rest zod v _ _ (
          trigger_rest zod v _ _ (
            trigger_rest zod v _ _ (
              trigger_rest zod v _ _ (
                trigger_rest zod v _ _ (
                  trigger_rest zod v _ _ (
                    trigger_rest zod v _ _
                      (trigger_rest zod v _ _ (trigger_rest zod v _ _ t)))))))))) in
    let seats =
      parsed_number zod v FieldKey.seat_count 1 100000 _ _ numbers (whole _) refl
        (trigger_first zod v _ _ later) in
    let each =
      parsed_number zod v FieldKey.device_multiplier 1 10 _ _ numbers (whole _) refl
        (trigger_first zod v _ _ (trigger_rest zod v _ _ later)) in
    let n = as_num (parsed_values zod v FieldKey.seat_count) in
    (seats.0, seats.1, le-mul_of_pos_right n each.0, mul-le-ten n _ each.1)

next_after_store :
    (zod : Zod) (o : Option (List FieldKey)) (st : WizardState)
    → (next_after zod o st).store ≡ st.store
next_after_store zod none st = refl
next_after_store zod (some ks) st = elim (Bool-cases (trigger zod st.values ks)) [
  | inl t ↦ rw t refl
  | inr t ↦ rw t refl
]

handle_next_store : (zod : Zod) (st : WizardState) → (handle_next zod st).store ≡ st.store
unfolding handle_next
handle_next_store zod st = elim (Bool-cases (ltb st.current_step 7)) [
  | inl e ↦ rw e (next_after_store zod (step_fields st.current_step) st)
  | inr e ↦ rw e refl
]

submit-AllSized :
    (zod : Zod) (h : Host) (st : WizardState)
    → TakesNumbers zod
    → HoldsWhole zod st
    → AllSized st.store.organizations
    → AllSized (handle_submit zod h st).store.organizations
unfolding handle_submit on_submit handle_next
submit-AllSized zod h st numbers whole w = elim (Bool-cases (trigger zod st.values all_fields)) [
  | inl t ↦ elim (Bool-cases (ltb st.current_step 7)) [
    | inl e ↦
        let kept = next_after_store zod (step_fields st.current_step) st in
        rw t (rw e (subst (λ (s : AdminStore). AllSized s.organizations) (sym kept) w))
    | inr e ↦ elim (Bool-cases (st.current_step == 7)) [
      | inl f ↦
          let seven : st.current_step ≡ 7 = ground arith in
          subst AllSized (sym (activate_values zod h st st.values seven refl t))
            (submission-IsSized zod h st numbers whole t, w)
      | inr f ↦ rw t (rw e (rw f w))
    ]
  ]
  | inr t ↦ rw t w
]

do_action-AllSized :
    (zod : Zod) (a : WizardAction) (st : WizardState)
    → TakesNumbers zod
    → HoldsWhole zod st
    → AllSized st.store.organizations
    → AllSized (do_action zod a st).store.organizations
unfolding back go_to type_text check_box
do_action-AllSized zod (WizardAction.typed k t) st numbers whole w = ground arith
do_action-AllSized zod (WizardAction.checked k b) st numbers whole w = ground arith
do_action-AllSized zod WizardAction.next st numbers whole w =
    subst (λ (s : AdminStore). AllSized s.organizations) (sym (handle_next_store zod st)) w
do_action-AllSized zod WizardAction.back_pressed st numbers whole w = ground arith
do_action-AllSized zod (WizardAction.picked id) st numbers whole w = ground arith
do_action-AllSized zod (WizardAction.submitted h) st numbers whole w =
    submit-AllSized zod h st numbers whole w

next_after_values :
    (zod : Zod) (o : Option (List FieldKey)) (st : WizardState)
    → (next_after zod o st).values ≡ st.values
next_after_values zod none st = refl
next_after_values zod (some ks) st =
    if_of_both (λ (s : WizardState). s.values ≡ st.values) (trigger zod st.values ks) _ _ refl refl

handle_next_values : (zod : Zod) (st : WizardState) → (handle_next zod st).values ≡ st.values
unfolding handle_next
handle_next_values zod st =
    if_of_both (λ (s : WizardState). s.values ≡ st.values) (ltb st.current_step 7) _ _
      (next_after_values zod (step_fields st.current_step) st) refl

handle_submit_values :
    (zod : Zod) (h : Host) (st : WizardState) → (handle_submit zod h st).values ≡ st.values
unfolding handle_submit on_submit activate
handle_submit_values zod h st =
    let Same = λ (s : WizardState). s.values ≡ st.values in
    if_of_both Same (trigger zod st.values all_fields) _ _
      (if_of_both Same (ltb st.current_step 7) _ _ (handle_next_values zod st)
        (if_of_both Same (st.current_step == 7) _ _ refl refl))
      refl

with_value-HoldsWhole :
    (zod : Zod) (k : FieldKey) (x : Value) (st : WizardState)
    → ReadsWhole zod x
    → HoldsWhole zod st
    → HoldsWhole zod (record st { values = with_value k x st.values })
with_value-HoldsWhole zod k x st r w =
    λ j. if_of_both (ReadsWhole zod) (field_index j == field_index k) x (st.values j) r (w j)

-- the values are those of before
kept-HoldsWhole :
    (zod : Zod) (st st' : WizardState)
    → st'.values ≡ st.values
    → HoldsWhole zod st
    → HoldsWhole zod st'
kept-HoldsWhole zod st st' e w = λ k. subst (λ (v : Values). ReadsWhole zod (v k)) (sym e) (w k)

do_action-HoldsWhole :
    (zod : Zod) (a : WizardAction) (later : List WizardAction) (st : WizardState)
    → AllReadWhole zod (a ∷ later)
    → HoldsWhole zod st
    → HoldsWhole zod (do_action zod a st) × AllReadWhole zod later
unfolding back go_to type_text check_box
do_action-HoldsWhole zod (WizardAction.typed k t) later st r w = (
  if_of_both (HoldsWhole zod) (registered_on k == st.current_step) _ _
      (if_of_both (HoldsWhole zod) (is_checkbox k) _ _ w
        (with_value-HoldsWhole zod k (Value.text t) st r.0 w))
      w,
  r.1,
)
do_action-HoldsWhole zod (WizardAction.checked k b) later st r w = (
  if_of_both (HoldsWhole zod) (registered_on k == st.current_step) _ _
      (if_of_both (HoldsWhole zod) (is_checkbox k) _ _
        (with_value-HoldsWhole zod k (Value.flag b) st r.0 w) w)
      w,
  r.1,
)
do_action-HoldsWhole zod WizardAction.next later st r w =
    (kept-HoldsWhole zod st (handle_next zod st) (handle_next_values zod st) w, r)
do_action-HoldsWhole zod WizardAction.back_pressed later st r w =
    (if_of_both (HoldsWhole zod) (ltb st.current_step 8) _ _ w w, r)
do_action-HoldsWhole zod (WizardAction.picked id) later st r w =
    (if_of_both (HoldsWhole zod) (ltb id st.current_step && ltb 0 id) _ _ w w, r)
do_action-HoldsWhole zod (WizardAction.submitted h) later st r w =
    (kept-HoldsWhole zod st (handle_submit zod h st) (handle_submit_values zod h st) w, r)

-- Where every organization of the store has from 1 to 100000 employees and from one to ten devices for
-- each, so has every one after whatever the user does with the wizard, as long as what the form holds
-- and what is entered is read as whole numbers where it is read as a number. A whole number that the
-- schema accepts is taken to lie between the least and the greatest value of its rule.
pub do_actions-AllSized :
    (zod : Zod) (actions : List WizardAction) (st : WizardState)
    → TakesNumbers zod
    → AllReadWhole zod actions
    → HoldsWhole zod st
    → AllSized st.store.organizations
    → AllSized (do_actions zod actions st).store.organizations
do_actions-AllSized zod [] st numbers reads whole w = w
do_actions-AllSized zod (a ∷ later) st numbers reads whole w =
    let (whole', reads') = do_action-HoldsWhole zod a later st reads whole in
    do_actions-AllSized zod later (do_action zod a st) numbers reads' whole'
      (do_action-AllSized zod a st numbers whole w)
