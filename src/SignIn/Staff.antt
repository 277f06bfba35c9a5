-- ===== src/SignIn/Staff.antt =====
-- `SuperLoginForm` (web/src/pages/super/SuperLoginPage.tsx): the sign-in of the staff with its second
-- factor and the enrolment of one. A handler runs to the end of its request; the request that starts
-- an enrolment is answered at any later time. The flags of a running handler, the flag of a copied
-- text and the showing of the password are left out.
use Prim.Native.String.{count}
use guardian_cloud.Prelude.{
  ℕ, suc, Bool, true, false, not, ◌&&◌, ◌||◌, Option, none, some, List, [], ◌∷◌, String, ltb,
  if◌then◌else◌, ◌otherwise◌, includes, trim,
}
use guardian_cloud.Client.Json.{Body, property}
use guardian_cloud.Auth.State.{AuthState, Environment}
use guardian_cloud.Auth.Provider.{
  LoginEnd, is_text, is_authenticated, login, verify_mfa, refresh, clear_ended_reason,
}
use guardian_cloud.Auth.Gate.{Screen, auth_boundary}
use guardian_cloud.SignIn.Factors.{methods_of, first_factor, offered}
use guardian_cloud.SignIn.Common.{
  LocationState, no_state, Departure, depart, login_failure, status_is, Ended, Enrollment,
  enrol_failure, ended_message,
}

-- the requests of the enrolment: its start, and a code for a method's id
pub data EnrolRequest : Type 0 where
  start_totp : EnrolRequest
  verify_totp : String → String → EnrolRequest

-- what the page has been told
pub data Told : Type 0 where
  signed : LoginEnd → Told
  confirmed : Ended (List String) → Told

-- The state of the page, with the provider's. `departures`, `told` and `requests` are traces, the
-- latest first; `waiting` is the number of starts that are not answered yet.
pub record StaffState : Type 0 where
  pub email : String
  pub password : String
  pub error : Option String
  pub lockout_seconds : Option ℕ
  pub mfa_methods : Option (List String)
  pub mfa_factor : String
  pub mfa_code : String
  pub mfa_error : Option String
  pub enrol_required : Bool
  pub enrollment : Option Enrollment
  pub enrol_code : String
  pub recovery_codes : List String
  pub enrol_error : Option String
  pub enrol_started : Bool
  pub auth : AuthState
  pub departures : List Departure
  pub told : List Told
  pub requests : List EnrolRequest
  pub waiting : ℕ

-- The page as it opens beside a provider; that the route redirects at once where a set-up is required
-- is in `super_login_page`.
abbrev pub open_staff : AuthState → StaffState
open_staff auth = record {
  email = "superadmin@guardian.local";
  password = "";
  error = none;
  lockout_seconds = none;
  mfa_methods = none;
  mfa_factor = "TOTP";
  mfa_code = "";
  mfa_error = none;
  enrol_required = false;
  enrollment = none;
  enrol_code = "";
  recovery_codes = [];
  enrol_error = none;
  enrol_started = false;
  auth = auth;
  departures = [];
  told = [];
  requests = [];
  waiting = 0;
}

-- `location.state?.from ?? '/admin'`
abbrev pub staff_return_to : LocationState → String
staff_return_to state = state.from otherwise "/admin"

-- `navigate(returnTo, { replace: true })`
abbrev pub go_back : String → StaffState → StaffState
go_back return_to st = record st { departures = depart return_to no_state st.departures }

abbrev pub has_methods : StaffState → Bool
has_methods st = elim st.mfa_methods [ none ↦ false | some _ ↦ true ]

abbrev pub has_codes : List String → Bool
has_codes [] = false
has_codes (_ ∷ _) = true

-- `showLogin`; the other two forms are shown by `has_methods` and `enrol_required`
abbrev pub shows_login : StaffState → Bool
shows_login st = not (has_methods st) && not st.enrol_required

-- a result with another status than `authenticated`
abbrev pub after_password : Body → StaffState → StaffState
after_password b st =
    let methods = methods_of (property "methods" b) in
    let asked = record st {
      mfa_methods = some (offered methods);
      mfa_factor = first_factor methods;
      mfa_code = "";
      mfa_error = none;
    } in
    if is_text "mfa_required" (property "status" b)
    then asked
    else if is_text "mfa_enrollment_required" (property "status" b)
    then record st { enrol_required = true }
    else st

abbrev pub staff_failure : LoginEnd → String × Option ℕ
staff_failure =
    login_failure "Too many failed attempts. Please wait." "Could not reach Guardian API."

abbrev pub after_failure : LoginEnd → StaffState → StaffState
after_failure end st =
    let (message, seconds) = staff_failure end in
    record st {
      error = some message;
      lockout_seconds = elim seconds [ none ↦ st.lockout_seconds | some n ↦ some n ];
    }

abbrev pub without_session : LoginEnd → StaffState → StaffState
without_session (LoginEnd.result b) = after_password b
without_session end = after_failure end

unfoldable pub after_login : String → LoginEnd → StaffState → StaffState
unfolding property offered
after_login return_to end st =
    if is_authenticated end then go_back return_to st else without_session end st

-- `onSubmit`
unfoldable pub submit_staff : Environment → String → StaffState → StaffState
unfolding after_login
submit_staff env return_to st =
    let (end, auth) = login env (trim st.email) st.password (clear_ended_reason st.auth) in
    let cleared = record st { error = none; auth = auth; told = Told.signed end ∷ st.told } in
    let answered = after_login return_to end cleared in
    if not (includes st.email "@")
    then record st { error = some "Please enter a valid work email." }
    else if ltb (count st.password) 8
    then record st { error = some "Password must be at least 8 characters." }
    else answered

-- a result with another status, or what `verifyMfa` throws
abbrev pub code_refused : LoginEnd → StaffState → StaffState
code_refused (LoginEnd.result _) st = record st {
  mfa_error = some "Verification did not complete. Please sign in again.";
}
code_refused end st =
    if status_is 410 end
    then record st { mfa_methods = none; error = some "Challenge expired. Please sign in again." }
    else if status_is 423 end
    then record st { mfa_error = some "Too many incorrect codes. Please sign in again." }
    else record st { mfa_error = some "That code is not valid. Check the code and try again." }

unfoldable pub after_code : String → LoginEnd → StaffState → StaffState
after_code return_to end st =
    if is_authenticated end then go_back return_to st else code_refused end st

-- `onVerifyMfa`
unfoldable pub on_verify_mfa : Environment → String → StaffState → StaffState
unfolding after_code
on_verify_mfa env return_to st =
    let (end, auth) = verify_mfa env (trim st.mfa_code) st.mfa_factor st.auth in
    after_code return_to end
      (record st { mfa_error = none; auth = auth; told = Told.signed end ∷ st.told })

-- the effect of `enrollRequired`, with the ref that keeps it from a second start
unfoldable pub enrol_effect : StaffState → StaffState
enrol_effect st = if not st.enrol_required || st.enrol_started then st else record st {
  enrol_started = true;
  requests = EnrolRequest.start_totp ∷ st.requests;
  waiting = suc st.waiting;
}

-- the end of the effect's request
unfoldable pub enrol_arrives : Ended Enrollment → StaffState → StaffState
enrol_arrives (Ended.answered e) st = record st { enrollment = some e }
enrol_arrives (Ended.threw _) st = record st {
  enrol_error = some "Could not start enrolment. Please sign in again.";
}

abbrev pub after_confirm : Ended (List String) → StaffState → StaffState
after_confirm (Ended.answered codes) st = record st { recovery_codes = codes }
after_confirm (Ended.threw o) st = record st {
  enrol_error = some (
      enrol_failure "This sign-in step expired. Please sign in again."
        "Could not complete enrolment. Please try again." o);
}

-- `onEnrollVerify`, with the end of its request
unfoldable pub on_enrol_verify : Ended (List String) → StaffState → StaffState
on_enrol_verify answer st = elim st.enrollment [
  | none ↦ st
  | some e ↦ after_confirm answer (record st {
    enrol_error = none;
    told = Told.confirmed answer ∷ st.told;
    requests = EnrolRequest.verify_totp e.mfa_method_id (trim st.enrol_code) ∷ st.requests;
  })
]

-- `onEnrollFinish`
unfoldable pub on_enrol_finish : Environment → String → StaffState → StaffState
unfolding refresh
on_enrol_finish env return_to st = go_back return_to (record st { auth = (refresh env st.auth).1 })

unfoldable pub reset_to_login : StaffState → StaffState
reset_to_login st = record st {
  mfa_methods = none;
  mfa_code = "";
  mfa_error = none;
  enrol_required = false;
  enrollment = none;
  enrol_code = "";
  recovery_codes = [];
  enrol_error = none;
  enrol_started = false;
  error = none;
}

-- a button of another factor
unfoldable pub choose_factor : String → StaffState → StaffState
choose_factor factor st = record st { mfa_factor = factor; mfa_code = ""; mfa_error = none }

-- the effect that leaves the page for a user who is signed in
unfoldable pub user_effect : String → StaffState → StaffState
user_effect return_to st = elim st.auth.user [ none ↦ st | some _ ↦ go_back return_to st ]

-- the note beside the form: why the last session ended, unless an error is shown
abbrev pub shown_note : StaffState → Option String
shown_note st = elim st.error [ none ↦ ended_message st.auth.ended_reason | some e ↦ some e ]

-- what the route shows
unfoldable pub super_login_page : AuthState → Screen
unfolding auth_boundary
super_login_page auth =
    auth_boundary auth
      (if auth.setup_required then Screen.navigate "/super/setup" else Screen.children)
