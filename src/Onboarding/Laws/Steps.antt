-- ===== src/Onboarding/Laws/Steps.antt =====
-- The steps of the wizard: what it takes to get to one.
use mathlib.Core.Path.{subst}
use guardian_cloud.Prelude.{
  ℕ, ◌-◌, max, ◌≤◌, ◌<◌, ◌≡◌, refl, inl, inr, ap, ◌∙◌, sym, Bool, true, false, ◌&&◌, Option, none,
  some, List, [], ◌∷◌, String, ◌==◌, ltb, Bool-cases, arith, ◌otherwise◌,
}
use guardian_cloud.Admin.State.{Host, AdminStore}
use guardian_cloud.Onboarding.Schema.{Value, FieldKey, organization_onboarding_schema}
use guardian_cloud.Onboarding.Form.{
  Zod, all_fields, field_index, step_fields, registered_on, is_checkbox, is_given, accepted,
  trigger, with_value,
}
use guardian_cloud.Onboarding.Wizard.{
  WizardState, start, next_after, advance, handle_next, activate, on_submit, handle_submit, back,
  go_to, type_text, check_box,
}
use guardian_cloud.Onboarding.Laws.Fields.{
  step_of, trigger-accepted, same_field, step_of_le, registered_lem, start_accepted, lt_or_eq,
  TakesTitles,
}

-- what the user does
pub data WizardAction : Type 0 where
  typed : FieldKey → String → WizardAction
  checked : FieldKey → Bool → WizardAction
  next back_pressed : WizardAction
  picked : ℕ → WizardAction
  submitted : Host → WizardAction

abbrev pub do_action : Zod → WizardAction → WizardState → WizardState
do_action zod (WizardAction.typed k t) = type_text k t
do_action zod (WizardAction.checked k b) = check_box k b
do_action zod WizardAction.next = handle_next zod
do_action zod WizardAction.back_pressed = back
do_action zod (WizardAction.picked id) = go_to id
do_action zod (WizardAction.submitted h) = handle_submit zod h

abbrev pub do_actions : Zod → List WizardAction → WizardState → WizardState
do_actions zod [] st = st
do_actions zod (a ∷ later) st = do_actions zod later (do_action zod a st)

-- The step is one of the eight, and each field of an earlier step is accepted.
pub record IsReady (zod : Zod) (st : WizardState) : Type 0 where
  pub first : 1 ≤ st.current_step
  pub last : st.current_step ≤ 8
  pub accepted_before :
      (k : FieldKey) → step_of k < st.current_step → accepted zod st.values k ≡ true

-- a step back leaves what is accepted
earlier-IsReady :
    (zod : Zod) (st : WizardState) (n : ℕ)
    → IsReady zod st
    → 1 ≤ n
    → n ≤ st.current_step
    → IsReady zod (record st { current_step = n })
earlier-IsReady zod st n w first le = record {
  first = first;
  last = let top = w.last in omega arith;
  accepted_before = λ k h. w.accepted_before k (omega arith);
}

advance-IsReady :
    (zod : Zod) (st : WizardState)
    → IsReady zod st
    → st.current_step < 8
    → trigger zod st.values (step_fields st.current_step otherwise []) ≡ true
    → IsReady zod (advance st)
advance-IsReady zod st w lt t = record {
  first = omega arith;
  last = omega arith;
  accepted_before = λ k h. elim (lt_or_eq (step_of k) st.current_step h) [
    | inl before ↦ w.accepted_before k before
    | inr e ↦
        let first = w.first in
        trigger-accepted zod st.values k (omega arith)
          (subst (λ n. trigger zod st.values (step_fields n otherwise []) ≡ true) (sym e) t)
  ];
}

next_after-IsReady :
    (zod : Zod) (o : Option (List FieldKey)) (st : WizardState)
    → step_fields st.current_step ≡ o
    → IsReady zod st
    → st.current_step < 8
    → IsReady zod (next_after zod o st)
unfolding trigger
next_after-IsReady zod none st e w lt =
    advance-IsReady zod st w lt (ap (λ p. trigger zod st.values (p otherwise [])) e)
next_after-IsReady zod (some ks) st e w lt = elim (Bool-cases (trigger zod st.values ks)) [
  | inl t ↦
      rw t (advance-IsReady zod st w lt (ap (λ p. trigger zod st.values (p otherwise [])) e ∙ t))
  | inr t ↦ rw t w
]

handle_next-IsReady :
    (zod : Zod) (st : WizardState) → IsReady zod st → IsReady zod (handle_next zod st)
unfolding handle_next
handle_next-IsReady zod st w = elim (Bool-cases (ltb st.current_step 7)) [
  | inl e ↦
      let lt : st.current_step < 8 = ground arith in
      rw e (next_after-IsReady zod (step_fields st.current_step) st refl w lt)
  | inr e ↦ rw e w
]

handle_submit-IsReady :
    (zod : Zod) (h : Host) (st : WizardState)
    → IsReady zod st
    → IsReady zod (handle_submit zod h st)
unfolding handle_submit on_submit activate
handle_submit-IsReady zod h st w = elim (Bool-cases (trigger zod st.values all_fields)) [
  | inl t ↦ elim (Bool-cases (ltb st.current_step 7)) [
    | inl e ↦
        let lt : st.current_step < 8 = ground arith in
        rw t (rw e (next_after-IsReady zod (step_fields st.current_step) st refl w lt))
    | inr e ↦ elim (Bool-cases (st.current_step == 7)) [
      | inl f ↦
          let seven : st.current_step ≡ 7 = ground arith in
          rw t (
            rw e (
              rw f (record {
                first = omega arith;
                last = omega arith;
                accepted_before = λ k l. w.accepted_before k (let le = step_of_le k in omega arith);
              })))
      | inr f ↦ rw t (rw e (rw f w))
    ]
  ]
  | inr t ↦ rw t w
]

-- A value that is accepted, or of a field that is not of an earlier step, may be entered.
with_value-IsReady :
    (zod : Zod) (k : FieldKey) (x : Value) (st : WizardState)
    → IsReady zod st
    → (step_of k < st.current_step → is_given (zod (organization_onboarding_schema k) x) ≡ true)
    → IsReady zod (record st { values = with_value k x st.values })
with_value-IsReady zod k x st w good = record {
  first = w.first;
  last = w.last;
  accepted_before = λ j l. elim (Bool-cases (field_index j == field_index k)) [
    | inl e ↦
        let same = same_field j k (ground arith) in
        rw e (
          subst (λ i. is_given (zod (organization_onboarding_schema i) x) ≡ true) (sym same)
            (good (subst (λ i. step_of i < st.current_step) same l)))
    | inr e ↦ rw e (w.accepted_before j l)
  ];
}

type_text-IsReady :
    (zod : Zod) (k : FieldKey) (t : String) (st : WizardState)
    → TakesTitles zod
    → IsReady zod st
    → IsReady zod (type_text k t st)
unfolding type_text
type_text-IsReady zod k t st titles w = elim (Bool-cases (registered_on k == st.current_step)) [
  | inl e ↦ elim (Bool-cases (is_checkbox k)) [
    | inl f ↦ rw e (rw f w)
    | inr f ↦
        let here : registered_on k ≡ st.current_step = ground arith in
        rw e (
          rw f (
            with_value-IsReady zod k (Value.text t) st w (λ l.
              let first = w.first in
              elim (registered_lem k (omega arith)) [
                | inl own ↦ absurd (omega arith)
                | inr title ↦
                    subst
                      (λ j. is_given (zod (organization_onboarding_schema j) (Value.text t)) ≡ true)
                      (sym title) (titles t)
              ])))
  ]
  | inr e ↦ rw e w
]

check_box-IsReady :
    (zod : Zod) (k : FieldKey) (b : Bool) (st : WizardState)
    → IsReady zod st
    → IsReady zod (check_box k b st)
unfolding check_box
check_box-IsReady zod k b st w = elim (Bool-cases (registered_on k == st.current_step)) [
  | inl e ↦ elim (Bool-cases (is_checkbox k)) [
    | inr f ↦ rw e (rw f w)
    | inl f ↦
        let here : registered_on k ≡ st.current_step = ground arith in
        rw e (
          rw f (
            with_value-IsReady zod k (Value.flag b) st w (λ l.
              let first = w.first in
              elim (registered_lem k (omega arith)) [
                | inl own ↦ absurd (omega arith)
                | inr title ↦ let bad : is_checkbox k ≡ false = ap is_checkbox title in ground arith
              ])))
  ]
  | inr e ↦ rw e w
]

do_action-IsReady :
    (zod : Zod) (a : WizardAction) (st : WizardState)
    → TakesTitles zod
    → IsReady zod st
    → IsReady zod (do_action zod a st)
unfolding back go_to
do_action-IsReady zod (WizardAction.typed k t) st titles w = type_text-IsReady zod k t st titles w
do_action-IsReady zod (WizardAction.checked k b) st titles w = check_box-IsReady zod k b st w
do_action-IsReady zod WizardAction.next st titles w = handle_next-IsReady zod st w
do_action-IsReady zod WizardAction.back_pressed st titles w =
    elim (Bool-cases (ltb st.current_step 8)) [
      | inl e ↦
          let first = w.first in
          rw e (earlier-IsReady zod st (max 1 (st.current_step - 1)) w (omega arith) (omega arith))
      | inr e ↦ rw e w
    ]
do_action-IsReady zod (WizardAction.picked id) st titles w =
    elim (Bool-cases (ltb id st.current_step && ltb 0 id)) [
      | inl e ↦
          let bounds : (1 ≤ id) × (id ≤ st.current_step) = ground arith in
          rw e (earlier-IsReady zod st id w bounds.0 bounds.1)
      | inr e ↦ rw e w
    ]
do_action-IsReady zod (WizardAction.submitted h) st titles w = handle_submit-IsReady zod h st w

pub start-IsReady : (zod : Zod) (store : AdminStore) → TakesTitles zod → IsReady zod (start store)
start-IsReady zod store titles = record {
  first = omega arith;
  last = omega arith;
  accepted_before = λ k l. start_accepted zod k titles l;
}

pub do_actions-IsReady :
    (zod : Zod) (actions : List WizardAction) (st : WizardState)
    → TakesTitles zod
    → IsReady zod st
    → IsReady zod (do_actions zod actions st)
do_actions-IsReady zod [] st titles w = w
do_actions-IsReady zod (a ∷ later) st titles w =
    do_actions-IsReady zod later (do_action zod a st) titles (do_action-IsReady zod a st titles w)
