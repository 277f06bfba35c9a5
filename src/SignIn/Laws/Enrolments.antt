-- ===== src/SignIn/Laws/Enrolments.antt =====
-- How often the staff's sign-in page starts an enrolment, which makes a row at the API.
use guardian_cloud.Prelude.{◌≡◌, ◌≤◌, not, List, [], ◌∷◌, String, arith, ℕ, zero, suc, ◌+◌, one_if}
use guardian_cloud.Auth.State.{AuthState, Environment}
use guardian_cloud.SignIn.Common.{Ended, Enrollment}
use guardian_cloud.SignIn.Staff.{
  enrol_arrives, choose_factor, EnrolRequest, StaffState, open_staff, after_login, after_code,
  submit_staff, on_verify_mfa, enrol_effect, on_enrol_verify, on_enrol_finish, reset_to_login,
  user_effect,
}
use guardian_cloud.SignIn.StaffActions.{
  StaffAction, arrival, choice, act_staff, run_staff, is_reset, count_resets,
}

abbrev pub count_starts : List EnrolRequest → ℕ
count_starts [] = 0
count_starts (EnrolRequest.start_totp ∷ rs) = suc (count_starts rs)
count_starts (EnrolRequest.verify_totp _ _ ∷ rs) = count_starts rs

-- the starts so far, and the one that is left before the next reset
abbrev budget : StaffState → ℕ
budget st = count_starts st.requests + one_if (not st.enrol_started)

-- all that the ref and the trace say of a state
abbrev Same : StaffState → StaffState → Type 0
Same st st' =
    (count_starts st'.requests ≡ count_starts st.requests) × (st'.enrol_started ≡ st.enrol_started)

submit_staff-Same :
    (env : Environment) (r : String) (st : StaffState) → Same st (submit_staff env r st)
unfolding submit_staff after_login
submit_staff-Same env r st = ground arith

on_verify_mfa-Same :
    (env : Environment) (r : String) (st : StaffState) → Same st (on_verify_mfa env r st)
unfolding on_verify_mfa after_code
on_verify_mfa-Same env r st = ground arith

arrival-Same : (n : ℕ) (answer : Ended Enrollment) (st : StaffState) → Same st (arrival n answer st)
unfolding enrol_arrives
arrival-Same zero answer st = ground arith
arrival-Same (suc n) (Ended.answered e) st = ground arith
arrival-Same (suc n) (Ended.threw _) st = ground arith

on_enrol_verify-Same :
    (answer : Ended (List String)) (st : StaffState) → Same st (on_enrol_verify answer st)
unfolding on_enrol_verify
on_enrol_verify-Same answer st = ground arith

choice-Same : (f : String) (st : StaffState) → Same st (choice f st)
unfolding choose_factor
choice-Same f st = ground arith

user_effect-Same : (r : String) (st : StaffState) → Same st (user_effect r st)
unfolding user_effect
user_effect-Same r st = ground arith

budget-enrol_effect : (st : StaffState) → budget (enrol_effect st) ≤ budget st
unfolding enrol_effect
budget-enrol_effect st = ground arith

Same-budget : (st st' : StaffState) → Same st st' → budget st' ≤ budget st
Same-budget st st' w = ground (arith, w)

budget-act_staff :
    (env : Environment) (r : String) (a : StaffAction) (st : StaffState)
    → budget (act_staff env r a st) ≤ budget st + one_if (is_reset a)
unfolding act_staff on_enrol_finish reset_to_login
budget-act_staff env r (StaffAction.type_email t) st = ground arith
budget-act_staff env r (StaffAction.type_password t) st = ground arith
budget-act_staff env r (StaffAction.type_code t) st = ground arith
budget-act_staff env r (StaffAction.type_enrol_code t) st = ground arith
budget-act_staff env r (StaffAction.choose f) st =
    ground (arith, Same-budget st (choice f st) (choice-Same f st))
budget-act_staff env r StaffAction.submit st =
    ground (arith, Same-budget st (submit_staff env r st) (submit_staff-Same env r st))
budget-act_staff env r StaffAction.verify st =
    ground (arith, Same-budget st (on_verify_mfa env r st) (on_verify_mfa-Same env r st))
budget-act_staff env r StaffAction.press_finish st = ground arith
budget-act_staff env r StaffAction.reset st = ground arith
budget-act_staff env r StaffAction.tick st = ground arith
budget-act_staff env r StaffAction.enrolment_effect st = ground (arith, budget-enrol_effect st)
budget-act_staff env r StaffAction.signed_in_effect st =
    ground (arith, Same-budget st (user_effect r st) (user_effect-Same r st))
budget-act_staff env r (StaffAction.enrolment_arrives a) st =
    ground (arith, Same-budget st (arrival st.waiting a st) (arrival-Same st.waiting a st))
budget-act_staff env r (StaffAction.confirm_code a) st =
    ground (arith, Same-budget st (on_enrol_verify a st) (on_enrol_verify-Same a st))

budget-run_staff :
    (env : Environment) (r : String) (actions : List StaffAction) (st : StaffState)
    → budget (run_staff env r actions st) ≤ budget st + count_resets actions
unfolding run_staff
budget-run_staff env r [] st = omega arith
budget-run_staff env r (a ∷ later) st =
    ground (arith, budget-run_staff env r later (act_staff env r a st), budget-act_staff env r a st)

-- However often the page's effects run and whatever the person does, the page starts at most one
-- enrolment, and one more for each return to the sign-in form.
pub run_staff-count_starts :
    (env : Environment) (return_to : String) (actions : List StaffAction) (auth : AuthState)
    → count_starts (run_staff env return_to actions (open_staff auth)).requests
      ≤ suc (count_resets actions)
run_staff-count_starts env r actions auth =
    ground (arith, budget-run_staff env r actions (open_staff auth))
