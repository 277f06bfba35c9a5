-- ===== src/SignIn/Laws/Forms.antt =====
-- Which form the staff's sign-in page shows.
use Prim.Native.String.{count}
use guardian_cloud.Prelude.{
  ◌≡◌, refl, Bool, true, false, not, ◌&&◌, ◌||◌, Option, none, some, List, [], ◌∷◌, String, arith,
  if_of_both, if_of_each, includes, ltb, ◌==◌, trim, ℕ, zero, suc,
}
use guardian_cloud.Prelude.Search.{distinct}
use guardian_cloud.Client.Json.{property}
use guardian_cloud.Auth.State.{AuthState, Environment}
use guardian_cloud.Auth.Provider.{LoginEnd, is_text, is_authenticated, login, clear_ended_reason}
use guardian_cloud.SignIn.Factors.{is_member, recovery_code, methods_of}
use guardian_cloud.SignIn.Common.{Ended, Enrollment, is_locked_out}
use guardian_cloud.SignIn.Staff.{
  StaffState, Told, open_staff, has_methods, has_codes, shows_login, without_session, go_back,
  after_login, submit_staff, after_code, on_verify_mfa, enrol_effect, enrol_arrives,
  on_enrol_verify, on_enrol_finish, reset_to_login, choose_factor, user_effect,
}
use guardian_cloud.SignIn.StaffActions.{StaffAction, arrival, choice, act_staff, run_staff}
use guardian_cloud.SignIn.Laws.Offers.{offered_lem}

-- the factors that are offered hold the recovery code, and none twice
abbrev pub offers_well : Option (List String) → Bool
offers_well none = true
offers_well (some factors) = is_member recovery_code factors && distinct factors

-- Not both of the later forms; the recovery codes only in the enrolment's.
abbrev pub IsTidy : StaffState → Type 0
IsTidy st =
    ((has_methods st && st.enrol_required) ≡ false)
    × ((has_codes st.recovery_codes && not st.enrol_required) ≡ false)
    × (offers_well st.mfa_methods ≡ true)

without_session-IsTidy :
    (end : LoginEnd) (st : StaffState)
    → shows_login st ≡ true
    → IsTidy st
    → IsTidy (without_session end st)
without_session-IsTidy (LoginEnd.result b) st l w =
    let (m, d, _) = offered_lem recovery_code "" (methods_of (property "methods" b)) in
    if_of_both IsTidy (is_text "mfa_required" (property "status" b)) _ _
      (ground (arith, l), ground (arith, l, w), ground (arith, m, d))
      (if_of_both IsTidy (is_text "mfa_enrollment_required" (property "status" b)) _ _
        (ground (arith, l), ground (arith, l, w), w.2) w)
without_session-IsTidy (LoginEnd.threw _) st l w = w
without_session-IsTidy LoginEnd.type_error st l w = w

submit_staff-IsTidy :
    (env : Environment) (r : String) (st : StaffState)
    → shows_login st ≡ true
    → IsTidy st
    → IsTidy (submit_staff env r st)
unfolding submit_staff after_login
submit_staff-IsTidy env r st l w =
    let (end, auth) = login env (trim st.email) st.password (clear_ended_reason st.auth) in
    let st1 = record st { error = none; auth = auth; told = Told.signed end ∷ st.told } in
    if_of_both IsTidy (not (includes st.email "@")) _ _ w (
      if_of_both IsTidy (ltb (count st.password) 8) _ _ w (
        if_of_both IsTidy (is_authenticated end) (go_back r st1) (without_session end st1) w
          (without_session-IsTidy end st1 l w)))

on_verify_mfa-IsTidy :
    (env : Environment) (r : String) (st : StaffState) → IsTidy st → IsTidy (on_verify_mfa env r st)
unfolding on_verify_mfa after_code
on_verify_mfa-IsTidy env r st w = ground (arith, w)

choice-IsTidy : (f : String) (st : StaffState) → IsTidy st → IsTidy (choice f st)
unfolding choose_factor
choice-IsTidy f st w = ground (arith, w)

arrival-IsTidy :
    (n : ℕ) (answer : Ended Enrollment) (st : StaffState) → IsTidy st → IsTidy (arrival n answer st)
unfolding enrol_arrives
arrival-IsTidy zero answer st w = w
arrival-IsTidy (suc n) (Ended.answered e) st w = w
arrival-IsTidy (suc n) (Ended.threw _) st w = w

on_enrol_verify-IsTidy :
    (answer : Ended (List String)) (st : StaffState)
    → st.enrol_required ≡ true
    → IsTidy st
    → IsTidy (on_enrol_verify answer st)
unfolding on_enrol_verify
on_enrol_verify-IsTidy answer st q w = ground (arith, q, w)

user_effect-IsTidy : (r : String) (st : StaffState) → IsTidy st → IsTidy (user_effect r st)
unfolding user_effect
user_effect-IsTidy r st w = ground (arith, w)

act_staff-IsTidy :
    (env : Environment) (r : String) (a : StaffAction) (st : StaffState)
    → IsTidy st
    → IsTidy (act_staff env r a st)
unfolding act_staff on_enrol_finish reset_to_login enrol_effect
act_staff-IsTidy env r (StaffAction.type_email t) st w = if_of_both IsTidy (shows_login st) _ _ w w
act_staff-IsTidy env r (StaffAction.type_password t) st w =
    if_of_both IsTidy (shows_login st) _ _ w w
act_staff-IsTidy env r (StaffAction.type_code t) st w = if_of_both IsTidy (has_methods st) _ _ w w
act_staff-IsTidy env r (StaffAction.type_enrol_code t) st w =
    if_of_both IsTidy (st.enrol_required && not (has_codes st.recovery_codes)) _ _ w w
act_staff-IsTidy env r (StaffAction.choose f) st w = choice-IsTidy f st w
act_staff-IsTidy env r StaffAction.submit st w =
    if_of_each IsTidy (shows_login st && not (is_locked_out st.lockout_seconds)) _ _
      (λ e. submit_staff-IsTidy env r st (ground (arith, e)) w) (λ _. w)
act_staff-IsTidy env r StaffAction.verify st w =
    if_of_both IsTidy (has_methods st && not (ltb (count (trim st.mfa_code)) 6)) _ _
      (on_verify_mfa-IsTidy env r st w) w
act_staff-IsTidy env r StaffAction.press_finish st w =
    if_of_both IsTidy (st.enrol_required && has_codes st.recovery_codes) _ _ w w
act_staff-IsTidy env r StaffAction.reset st w =
    if_of_both IsTidy (has_methods st || st.enrol_required && not (has_codes st.recovery_codes)) _ _
      (refl, refl, refl) w
act_staff-IsTidy env r StaffAction.tick st w = w
act_staff-IsTidy env r StaffAction.enrolment_effect st w =
    if_of_both IsTidy (not st.enrol_required || st.enrol_started) _ _ w w
act_staff-IsTidy env r StaffAction.signed_in_effect st w = user_effect-IsTidy r st w
act_staff-IsTidy env r (StaffAction.enrolment_arrives answer) st w =
    arrival-IsTidy st.waiting answer st w
act_staff-IsTidy env r (StaffAction.confirm_code answer) st w =
    if_of_each IsTidy
      (st.enrol_required && not (has_codes st.recovery_codes) && count (trim st.enrol_code) == 6) _
      _ (λ e. on_enrol_verify-IsTidy answer st (ground (arith, e)) w) (λ _. w)

run_staff-IsTidy' :
    (env : Environment) (r : String) (actions : List StaffAction) (st : StaffState)
    → IsTidy st
    → IsTidy (run_staff env r actions st)
unfolding run_staff
run_staff-IsTidy' env r [] st w = w
run_staff-IsTidy' env r (a ∷ later) st w =
    run_staff-IsTidy' env r later (act_staff env r a st) (act_staff-IsTidy env r a st w)

-- Whatever happens on the staff's sign-in page, it never shows two of its forms at once, it shows
-- recovery codes only within the form of the enrolment, and the factors that it offers hold the
-- recovery code and none of them twice.
pub run_staff-IsTidy :
    (env : Environment) (return_to : String) (actions : List StaffAction) (auth : AuthState)
    → IsTidy (run_staff env return_to actions (open_staff auth))
run_staff-IsTidy env r actions auth =
    run_staff-IsTidy' env r actions (open_staff auth) (refl, refl, refl)
