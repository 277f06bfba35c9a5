-- ===== src/SignIn/Customer.antt =====
-- `LoginForm` (web/src/pages/LoginPage.tsx): the sign-in of the customers. A second factor is asked
-- for on a page of its own. The box that remembers a device is read by nothing.
use guardian_cloud.Prelude.{
  ℕ, Bool, true, false, not, ◌||◌, Option, none, some, List, [], String, str_eq, if◌then◌else◌,
  ◌otherwise◌, includes, trim, is_empty,
}
use guardian_cloud.Client.Json.{Json, Body, property}
use guardian_cloud.Auth.State.{AuthState, Environment}
use guardian_cloud.Auth.Provider.{LoginEnd, is_text, login, clear_ended_reason}
use guardian_cloud.SignIn.Factors.{methods_of}
use guardian_cloud.SignIn.Common.{
  LocationState, no_state, Departure, depart, is_locked_out, login_failure,
}

-- `returnTo` is a part of the state, as the history's state does not change; `departures` is a trace,
-- the latest first.
pub record LoginState : Type 0 where
  pub return_to : String
  pub email : String
  pub password : String
  pub notice : Option String
  pub is_error : Bool
  pub lockout_seconds : Option ℕ
  pub auth : AuthState
  pub departures : List Departure

abbrev pub open_login : LocationState → AuthState → LoginState
open_login state auth = record {
  return_to = state.from otherwise "/app";
  email = "";
  password = "";
  notice = none;
  is_error = false;
  lockout_seconds = none;
  auth = auth;
  departures = [];
}

abbrev pub sso_error_message : String → Option String
sso_error_message e =
    if str_eq e "sso_cancelled"
    then some "Sign-in was cancelled."
    else if str_eq e "sso_expired"
    then some "That sign-in attempt expired. Please try again."
    else if str_eq e "sso_failed"
    then some "Sign-in with that provider failed. Please try again."
    else if str_eq e "sso_unavailable"
    then some "That sign-in method is not available."
    else if str_eq e "sso_misconfigured"
    then some "That sign-in method is not configured correctly. Contact your administrator."
    else if str_eq e "sso_no_email"
    then some "That provider did not share an email address, so we could not sign you in."
    else if str_eq e "sso_no_account"
    then some "No Guardian account matches that identity. Ask an administrator for an invitation."
    else if str_eq e "sso_account_disabled"
    then some "That account is not permitted to sign in."
    else none

-- `fail`
abbrev pub fail_login : String → LoginState → LoginState
fail_login message st = record st { notice = some message; is_error = true }

-- the effect of the address's `error`
unfoldable pub sso_effect : Option String → LoginState → LoginState
sso_effect none st = st
sso_effect (some e) st =
    if is_empty e
    then st
    else fail_login (sso_error_message e otherwise "Sign-in failed. Please try again.") st

abbrev pub leave_login : String → LocationState → LoginState → LoginState
leave_login to state st = record st { departures = depart to state st.departures }

-- the `switch` on the status of the answer
unfoldable pub by_login_status : Body → LoginState → LoginState
unfolding property
by_login_status b st =
    if is_text "authenticated" (property "status" b)
    then leave_login st.return_to no_state st
    else if is_text "mfa_required" (property "status" b)
    then leave_login "/login/mfa"
        (record no_state {
          methods = some (methods_of (property "methods" b));
          return_to = some st.return_to;
        })
        st
    else if is_text "mfa_enrollment_required" (property "status" b)
    then leave_login "/login/enroll-mfa" (record no_state { return_to = some st.return_to }) st
    else st

abbrev pub customer_failure : LoginEnd → String × Option ℕ
customer_failure =
    login_failure "Too many failed attempts. Please wait before trying again."
      "Could not reach Guardian. Check your connection and try again."

abbrev pub login_failed : LoginEnd → LoginState → LoginState
login_failed end st =
    let (message, seconds) = customer_failure end in
    fail_login message
      (record st { lockout_seconds = elim seconds [ none ↦ st.lockout_seconds | some n ↦ some n ] })

abbrev pub login_ended : LoginEnd → LoginState → LoginState
login_ended (LoginEnd.result b) = by_login_status b
login_ended end = login_failed end

-- `onSubmit`
unfoldable pub submit_login : Environment → LoginState → LoginState
unfolding by_login_status
submit_login env st =
    let (end, auth) = login env (trim st.email) st.password (clear_ended_reason st.auth) in
    let ended = login_ended end (record st { notice = none; is_error = false; auth = auth }) in
    if is_empty st.email || not (includes st.email "@")
    then fail_login "Please enter a valid email address." st
    else ended

-- the button, which is inactive during a lockout
abbrev pub press_login : Environment → LoginState → LoginState
press_login env st = if is_locked_out st.lockout_seconds then st else submit_login env st

-- the effect that leaves the page for a user who is signed in
unfoldable pub login_user_effect : LoginState → LoginState
login_user_effect st = elim st.auth.user [
  | none ↦ st
  | some _ ↦ leave_login st.return_to no_state st
]

abbrev pub session_ended_note : Option Json → Option String
session_ended_note reason =
    if is_text "idle_timeout" reason
    then some "You were signed out after a period of inactivity."
    else if is_text "expired" reason
    then some "Your session expired. Please sign in again."
    else none

-- `notice ?? sessionEndedNote`
abbrev pub login_note : LoginState → Option String
login_note st = elim st.notice [ none ↦ session_ended_note st.auth.ended_reason | some m ↦ some m ]
