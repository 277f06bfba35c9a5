-- ===== src/SignIn/StaffActions.antt =====
-- What happens on the staff's sign-in page: its buttons, which are active where the page draws them
-- so, its inputs, its effects, and the answers.
use Prim.Native.String.{count}
use guardian_cloud.Prelude.{
  ℕ, zero, suc, Bool, true, false, not, ◌&&◌, ◌||◌, none, some, List, [], ◌∷◌, String, ltb, ◌==◌,
  if◌then◌else◌, trim,
}
use guardian_cloud.Auth.State.{Environment}
use guardian_cloud.SignIn.Factors.{is_member, candidates}
use guardian_cloud.SignIn.Common.{tick_lockout, is_locked_out, Ended, Enrollment}
use guardian_cloud.SignIn.Staff.{
  StaffState, has_methods, has_codes, shows_login, submit_staff, on_verify_mfa, enrol_effect,
  enrol_arrives, on_enrol_verify, on_enrol_finish, reset_to_login, choose_factor, user_effect,
}

pub data StaffAction : Type 0 where
  type_email type_password type_code type_enrol_code choose : String → StaffAction
  submit verify press_finish reset tick enrolment_effect signed_in_effect : StaffAction
  enrolment_arrives : Ended Enrollment → StaffAction
  confirm_code : Ended (List String) → StaffAction

-- an answer to a start that is not answered yet
abbrev pub arrival : ℕ → Ended Enrollment → StaffState → StaffState
arrival zero answer st = st
arrival (suc n) answer st = enrol_arrives answer (record st { waiting = n })

-- the buttons of other factors, which are drawn for the factors that are offered
abbrev pub choice : String → StaffState → StaffState
choice factor st = elim st.mfa_methods [
  | none ↦ st
  | some factors ↦
      if is_member factor (candidates st.mfa_factor factors) then choose_factor factor st else st
]

-- What happens on the page. While a set-up is required the route only redirects (`super_login_page`):
-- that the forms act then too makes the runs more than those of the source.
unfoldable pub act_staff : Environment → String → StaffAction → StaffState → StaffState
unfolding tick_lockout submit_staff on_verify_mfa enrol_effect enrol_arrives on_enrol_verify
    on_enrol_finish reset_to_login choose_factor user_effect
act_staff env return_to (StaffAction.type_email t) st =
    if shows_login st then record st { email = t } else st
act_staff env return_to (StaffAction.type_password t) st =
    if shows_login st then record st { password = t } else st
act_staff env return_to (StaffAction.type_code t) st =
    if has_methods st then record st { mfa_code = t } else st
act_staff env return_to (StaffAction.type_enrol_code t) st =
    if st.enrol_required && not (has_codes st.recovery_codes)
    then record st { enrol_code = t }
    else st
act_staff env return_to (StaffAction.choose f) st = choice f st
act_staff env return_to StaffAction.submit st =
    if shows_login st && not (is_locked_out st.lockout_seconds)
    then submit_staff env return_to st
    else st
act_staff env return_to StaffAction.verify st =
    if has_methods st && not (ltb (count (trim st.mfa_code)) 6)
    then on_verify_mfa env return_to st
    else st
act_staff env return_to StaffAction.press_finish st =
    if st.enrol_required && has_codes st.recovery_codes
    then on_enrol_finish env return_to st
    else st
act_staff env return_to StaffAction.reset st =
    if has_methods st || st.enrol_required && not (has_codes st.recovery_codes)
    then reset_to_login st
    else st
act_staff env return_to StaffAction.tick st = record st {
  lockout_seconds = tick_lockout st.lockout_seconds;
}
act_staff env return_to StaffAction.enrolment_effect st = enrol_effect st
act_staff env return_to StaffAction.signed_in_effect st = user_effect return_to st
act_staff env return_to (StaffAction.enrolment_arrives answer) st = arrival st.waiting answer st
act_staff env return_to (StaffAction.confirm_code answer) st =
    if st.enrol_required && not (has_codes st.recovery_codes) && count (trim st.enrol_code) == 6
    then on_enrol_verify answer st
    else st

unfoldable pub run_staff : Environment → String → List StaffAction → StaffState → StaffState
run_staff env return_to [] st = st
run_staff env return_to (a ∷ later) st =
    run_staff env return_to later (act_staff env return_to a st)

abbrev pub is_reset : StaffAction → Bool
is_reset StaffAction.reset = true
is_reset _ = false

abbrev pub count_resets : List StaffAction → ℕ
count_resets [] = 0
count_resets (a ∷ later) = if is_reset a then suc (count_resets later) else count_resets later
