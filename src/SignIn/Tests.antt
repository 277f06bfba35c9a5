-- ===== src/SignIn/Tests.antt =====
-- The pages at concrete inputs.
use guardian_cloud.Prelude.{
  suc, ◌≤◌, ◌≡◌, refl, true, false, Option, none, some, List, [], ◌∷◌, String, str_eq,
  if◌then◌else◌, includes, trim,
}
use guardian_cloud.Client.Json.{Json, Items, Body, property}
use guardian_cloud.Client.Request.{
  Plane, Browser, SentRequest, ApiError, Fetched, Outcome, prepare, finish, request, new_api_error,
}
use guardian_cloud.Auth.State.{
  InitState, AuthState, initial_state, Environment, on_unauthorized, call,
}
use guardian_cloud.Auth.Provider.{LoginEnd, sign_in, login, verify_mfa}
use guardian_cloud.Auth.Gate.{Screen, require_auth}
use guardian_cloud.SignIn.Common.{no_state, bounced_from, depart, Ended}
use guardian_cloud.SignIn.Staff.{StaffState, open_staff, after_login, submit_staff}
use guardian_cloud.SignIn.StaffActions.{StaffAction, act_staff, run_staff, count_resets}
use guardian_cloud.SignIn.Customer.{open_login, submit_login, login_ended}
use guardian_cloud.SignIn.Challenge.{
  customer_mfa_challenge_page, open_challenge, submit_customer_code, switch_factor,
}
use guardian_cloud.SignIn.Enrolment.{customer_mfa_enroll_page, open_enrol, has_recovery_codes}
use guardian_cloud.SignIn.Registration.{open_form, submit_signup, submit_forgot}
use guardian_cloud.SignIn.Laws.Admission.{run_staff-any_admits}
use guardian_cloud.SignIn.Laws.Enrolments.{count_starts, run_staff-count_starts}
use guardian_cloud.SignIn.Laws.Forms.{IsTidy, run_staff-IsTidy}
use guardian_cloud.SignIn.Laws.Journey.{sign_in_returns}
use guardian_cloud.SignIn.Laws.Lockouts.{rounds, submit_staff_lockout}
use guardian_cloud.SignIn.Laws.Privacy.{refusals_alike}
use guardian_cloud.SignIn.Laws.Passwords.{FormAction, run_form, all_long, run_form_long}
use guardian_cloud.SignIn.Laws.Enrolling.{EnrolAction, run_enrol, run_enrol_once}

abbrev me : Body
me = ("id", Json.text "usr-1") ∷ []

abbrev second_factor_due : Body
second_factor_due =
    ("status", Json.text "mfa_required")
    ∷ ("methods", Json.array (Items.cons (Json.text "EMAIL") Items.nil))
    ∷ []

-- What the answers of the API below say.
abbrev parse : String → Option Body
parse s =
    if str_eq s "me"
    then some me
    else if str_eq s "second factor"
    then some second_factor_due
    else if str_eq s "enrol"
    then some (("status", Json.text "mfa_enrollment_required") ∷ [])
    else if str_eq s "locked"
    then some (("retry_after_seconds", Json.num 2) ∷ [])
    else some (("status", Json.text "authenticated") ∷ [])

abbrev page : Browser
page = record {
  cookie = "";
  api_base_url = "";
  origin = "http://localhost:5175";
  decode_uri_component = λ s. s;
  stringify = λ j. "{}";
  parse = parse;
}

abbrev answers : Fetched → SentRequest → Fetched
answers to_login q =
    if str_eq q.url "/api/v1/auth/login"
    then to_login
    else if str_eq q.url "/api/v1/admin/auth/login"
    then to_login
    else if str_eq q.url "/api/v1/auth/me"
    then Fetched.response 200 "me"
    else Fetched.response 200 "signed in"

-- An API that answers a password like this, and takes every code.
abbrev api : Plane → Fetched → Environment
api plane to_login = record { plane = plane; browser = λ k. page; network = λ k. answers to_login }

abbrev ready : AuthState
ready = record initial_state { init_state = InitState.ready }

-- an enrolment that is started, given up and started again, with its effect run twice each time
abbrev enrolling : List StaffAction
enrolling =
    StaffAction.type_password "correct horse"
    ∷ StaffAction.submit
    ∷ StaffAction.enrolment_effect
    ∷ StaffAction.enrolment_effect
    ∷ StaffAction.reset
    ∷ StaffAction.submit
    ∷ StaffAction.enrolment_effect
    ∷ StaffAction.enrolment_arrives (Ended.threw Outcome.cancelled)
    ∷ StaffAction.press_finish
    ∷ []

abbrev due : Environment
due = api Plane.admin (Fetched.response 200 "enrol")

run_staff-any_admits_example :
    let st = run_staff due "/admin" enrolling (open_staff ready) in
    (st.auth.user ≡ none) × (st.recovery_codes ≡ []) × (st.departures ≡ [])
unfolding run_staff act_staff submit_staff after_login login sign_in call request prepare finish
    on_unauthorized property includes
run_staff-any_admits_example = run_staff-any_admits due "/admin" enrolling ready refl refl

run_staff-count_starts_example :
    count_starts (run_staff due "/admin" enrolling (open_staff ready)).requests
    ≤ suc (count_resets enrolling)
run_staff-count_starts_example = run_staff-count_starts due "/admin" enrolling ready

-- Both starts are sent: the bound is reached.
two_starts : count_starts (run_staff due "/admin" enrolling (open_staff ready)).requests ≡ 2
unfolding run_staff act_staff includes login request
two_starts = refl

run_staff-IsTidy_example : IsTidy (run_staff due "/admin" enrolling (open_staff ready))
run_staff-IsTidy_example = run_staff-IsTidy due "/admin" enrolling ready

abbrev portal : Environment
portal = api Plane.customer (Fetched.response 200 "second factor")

-- From the devices of the portal to both factors and back.
sign_in_returns_example :
    let st = record (open_login (bounced_from "/app/devices") ready) {
      email = "ada@example.com";
      password = "correct horse";
    } in
    let handed = record no_state {
      methods = some ("EMAIL" ∷ []);
      return_to = some "/app/devices";
    } in
    let asked = record (open_challenge customer_mfa_challenge_page handed ready) {
      code = "123456";
    } in
    ((submit_login portal st).departures ≡ depart "/login/mfa" handed [])
    × (asked.available ≡ "EMAIL" ∷ [])
    × ((submit_customer_code portal asked).departures ≡ depart "/app/devices" no_state [])
    × (require_auth Plane.customer (submit_customer_code portal asked).auth Screen.children
        ≡ Screen.children)
unfolding login verify_mfa sign_in call request prepare finish on_unauthorized property includes
    trim
sign_in_returns_example =
    sign_in_returns portal portal "/app/devices" "ada@example.com" "correct horse" "123456" ready
      ready second_factor_due me refl refl refl refl refl (λ k. refl) refl refl

-- The button that turns the factor does not come back to a factor that is neither of its two.
turned_twice :
    let st =
      open_challenge customer_mfa_challenge_page
        (record no_state { methods = some ("EMAIL" ∷ []) })
        ready in
    let turned = switch_factor customer_mfa_challenge_page "RECOVERY_CODE" st in
    (st.factor ≡ "EMAIL")
    × ((switch_factor customer_mfa_challenge_page "EMAIL" turned).factor ≡ "RECOVERY_CODE")
    × ((switch_factor customer_mfa_challenge_page "TOTP" turned).factor ≡ "TOTP")
unfolding switch_factor
turned_twice = (refl, refl, refl)

abbrev locked : ApiError
locked = new_api_error 423 (("retry_after_seconds", Json.num 2) ∷ [])

abbrev typed : StaffState
typed = record (open_staff ready) { password = "correct horse" }

abbrev strict : Environment
strict = api Plane.admin (Fetched.response 423 "locked")

-- One round after a lockout of two seconds, one second is left.
submit_staff_lockout_example :
    let st = run_staff strict "/admin" (rounds 1) (submit_staff strict "/admin" typed) in
    (st.lockout_seconds ≡ some 1)
    × (true ≡ true → act_staff strict "/admin" StaffAction.submit st ≡ st)
unfolding login sign_in call request prepare finish on_unauthorized property includes trim
    new_api_error
submit_staff_lockout_example =
    submit_staff_lockout strict "/admin" typed locked 1 1 refl refl refl refl refl

abbrev wrong_password : ApiError
wrong_password = new_api_error 401 (("error", Json.text "wrong password") ∷ [])

abbrev no_such_account : ApiError
no_such_account = new_api_error 404 (("error", Json.text "no such account") ∷ [])

refusals_alike_example :
    let st = open_form "" in
    let page = open_login no_state ready in
    (submit_forgot (Outcome.returned none) st ≡ submit_forgot Outcome.cancelled st)
    × (submit_signup (Outcome.returned none) st ≡ submit_signup (Outcome.returned (some me)) st)
    × (login_ended (LoginEnd.threw (Outcome.api_error wrong_password)) page
        ≡ login_ended (LoginEnd.threw (Outcome.api_error no_such_account)) page)
    × (after_login "/admin" (LoginEnd.threw (Outcome.api_error wrong_password)) typed
        ≡ after_login "/admin" (LoginEnd.threw (Outcome.api_error no_such_account)) typed)
unfolding new_api_error
refusals_alike_example =
    refusals_alike (Outcome.returned none) Outcome.cancelled none (some me) wrong_password
      no_such_account (open_form "") (open_login no_state ready) typed "/admin" (refl, refl)
      (refl, refl)

abbrev recovering : List FormAction
recovering =
    FormAction.type_password "short"
    ∷ FormAction.type_confirm "short"
    ∷ FormAction.reset (Outcome.returned none)
    ∷ FormAction.type_password "long enough"
    ∷ FormAction.type_confirm "long enough"
    ∷ FormAction.reset (Outcome.returned none)
    ∷ []

run_form_long_example :
    all_long (run_form due recovering (open_form "token", ready)).0.requests ≡ true
run_form_long_example = run_form_long due recovering "token" ready

abbrev enrolled : List EnrolAction
enrolled =
    EnrolAction.effect
    ∷ EnrolAction.effect
    ∷ EnrolAction.started
        (Ended.answered (record { mfa_method_id = "m1"; secret = "s"; otpauth_uri = "u" }))
    ∷ EnrolAction.press_finish
    ∷ []

run_enrol_once_example :
    let st =
      run_enrol customer_mfa_enroll_page portal enrolled
        (open_enrol customer_mfa_enroll_page no_state ready) in
    (count_starts st.requests ≤ 1) × (has_recovery_codes st ≡ false → st.departures ≡ [])
run_enrol_once_example = run_enrol_once customer_mfa_enroll_page portal enrolled no_state ready
