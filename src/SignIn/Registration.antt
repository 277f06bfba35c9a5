-- ===== src/SignIn/Registration.antt =====
-- The pages around the sign-in: `SuperSetupPage` (web/src/pages/super/SuperSetupPage.tsx), `SignupForm`
-- (web/src/pages/SignupPage.tsx), and the pages of web/src/pages/app/CustomerAuthPages.tsx. A handler
-- is given how its request ends; the flags of a running handler are left out.
use Prim.Native.String.{count}
use guardian_cloud.Prelude.{
  Bool, true, false, not, ◌&&◌, ◌||◌, Option, none, some, List, [], ◌∷◌, String, str_eq, ltb, ◌==◌,
  if◌then◌else◌, includes, trim, is_empty,
}
use guardian_cloud.Client.Request.{Outcome}
use guardian_cloud.Auth.State.{AuthState, Environment}
use guardian_cloud.Auth.Provider.{refresh_setup_status}
use guardian_cloud.SignIn.Common.{no_state, Departure, depart}

-- the requests of these pages, of the first two with the address, the name and the password
pub data PublicRequest : Type 0 where
  post_setup post_signup : String → String → String → PublicRequest
  post_forgot post_verify : String → PublicRequest
  post_reset : String → String → PublicRequest

-- The inputs and what is shown, of any of these pages; `confirmation` is not on all of them, and `token` is
-- that of the address. `requests` and `departures` are traces, the latest first.
pub record FormState : Type 0 where
  pub name : String
  pub email : String
  pub password : String
  pub confirmation : String
  pub token : String
  pub notice : Option String
  pub done : Bool
  pub failed : Bool
  pub requests : List PublicRequest
  pub departures : List Departure

abbrev pub open_form : String → FormState
open_form token = record {
  name = "";
  email = "";
  password = "";
  confirmation = "";
  token = token;
  notice = none;
  done = false;
  failed = false;
  requests = [];
  departures = [];
}

abbrev pub asks : PublicRequest → FormState → FormState
asks r st = record st { requests = r ∷ st.requests }

-- `err instanceof ApiError ? err.message : unreachable`, with the API's name in the text
abbrev pub message_of : String → Outcome → String
message_of unreachable (Outcome.api_error e) = e.message
message_of unreachable _ = unreachable

abbrev pub is_conflict : Outcome → Bool
is_conflict (Outcome.api_error e) = e.status == 409
is_conflict _ = false

abbrev pub can_submit_setup : FormState → Bool
can_submit_setup st =
    includes st.email "@" && not (ltb (count st.password) 10) && str_eq st.password st.confirmation

abbrev pub setup_ended : Environment → Outcome → FormState × AuthState → FormState × AuthState
setup_ended env (Outcome.returned _) (st, auth) = (
  record st {
    departures = depart "/super/login" (record no_state { just_set_up = true }) st.departures;
  },
  refresh_setup_status env auth,
)
setup_ended env outcome (st, auth) =
    if is_conflict outcome
    then (
      record st { departures = depart "/super/login" no_state st.departures },
      refresh_setup_status env auth,
    )
    else (
      record st {
        notice = some (
            message_of "Could not reach the Guardian API. Check your connection and try again."
              outcome);
      },
      auth,
    )

-- `onSubmit` of the set-up, by its button
unfoldable pub submit_setup : Environment → Outcome → FormState × AuthState → FormState × AuthState
submit_setup env outcome (st, auth) =
    let asked =
      asks (PublicRequest.post_setup (trim st.email) (trim st.name) st.password)
        (record st { notice = none }) in
    if can_submit_setup st then setup_ended env outcome (asked, auth) else (st, auth)

-- `fail` of the registration
abbrev pub fail_form : String → FormState → FormState
fail_form message st = record st { notice = some message; failed = true }

abbrev pub signup_ended : Outcome → FormState → FormState
signup_ended (Outcome.returned _) st = record st { done = true }
signup_ended outcome st =
    fail_form (message_of "Could not reach Guardian. Check your connection and try again." outcome)
      st

-- `onSubmit` of the registration
unfoldable pub submit_signup : Outcome → FormState → FormState
submit_signup outcome st =
    let asked =
      asks (PublicRequest.post_signup (trim st.email) (trim st.name) st.password)
        (record st { notice = none; failed = false }) in
    if is_empty (trim st.name)
    then fail_form "Please enter your name." st
    else if is_empty st.email || not (includes st.email "@")
    then fail_form "Please enter a valid email address." st
    else if ltb (count st.password) 10
    then fail_form "Password must be at least 10 characters." st
    else signup_ended outcome asked

-- `onSubmit` of `ForgotPasswordPage`, by its button: it does not look at the outcome.
unfoldable pub submit_forgot : Outcome → FormState → FormState
submit_forgot outcome st =
    if includes st.email "@"
    then record (asks (PublicRequest.post_forgot (trim st.email)) st) { done = true }
    else st

abbrev pub can_submit_reset : FormState → Bool
can_submit_reset st =
    not (
      is_empty st.token || (ltb (count st.password) 10 || not (str_eq st.password st.confirmation)))

abbrev pub reset_ended : Outcome → FormState → FormState
reset_ended (Outcome.returned _) st = record st { done = true }
reset_ended outcome st = record st {
  notice =
      some (message_of "Could not reach Guardian. Check your connection and try again." outcome);
}

-- `onSubmit` of `ResetPasswordPage`, by its button
unfoldable pub submit_reset : Outcome → FormState → FormState
submit_reset outcome st =
    let asked =
      asks (PublicRequest.post_reset st.token st.password) (record st { notice = none }) in
    if can_submit_reset st then reset_ended outcome asked else st

-- the effect of `VerifyEmailPage`; the page is at work while it is neither done nor failed
unfoldable pub verify_email : Outcome → FormState → FormState
verify_email outcome st =
    let asked = asks (PublicRequest.post_verify st.token) st in
    let ended : FormState = elim outcome [
      | Outcome.returned _ ↦ record asked { done = true }
      | _ ↦ record asked { failed = true }
    ] in
    if is_empty st.token then record st { failed = true } else ended
