-- ===== src/SignIn/Enrolment.antt =====
-- The pages on which an authenticator is enrolled: `SuperMfaEnrollPage`
-- (web/src/pages/super/SuperMfaEnrollPage.tsx) and `CustomerMfaEnrollPage`
-- (web/src/pages/app/CustomerMfaPages.tsx), and the card `InlineTotpEnroll`
-- (web/src/components/auth/InlineTotpEnroll.tsx).
use Prim.Native.String.{count}
use guardian_cloud.Prelude.{
  Bool, true, false, not, ◌&&◌, Option, none, some, List, [], ◌∷◌, String, ◌==◌, if◌then◌else◌,
  ◌otherwise◌, trim,
}
use guardian_cloud.Auth.State.{AuthState, Environment}
use guardian_cloud.Auth.Provider.{refresh}
use guardian_cloud.SignIn.Common.{
  LocationState, no_state, Departure, depart, Ended, Enrollment, enrol_failure,
}
use guardian_cloud.SignIn.Staff.{EnrolRequest}

-- in what the pages differ
pub record EnrolTexts : Type 0 where
  pub home : String
  pub start_failed : String
  pub expired : String
  pub not_completed : String

abbrev pub super_mfa_enroll_page : EnrolTexts
super_mfa_enroll_page = record {
  home = "/admin";
  start_failed = "Could not start enrolment. Please sign in again.";
  expired = "This sign-in step expired. Please sign in again.";
  not_completed = "Could not complete enrolment. Please try again.";
}

abbrev pub customer_mfa_enroll_page : EnrolTexts
customer_mfa_enroll_page = record {
  home = "/app";
  start_failed = "Could not start setup. Please sign in again.";
  expired = "This sign-in step expired. Please sign in again.";
  not_completed = "Could not complete setup. Please try again.";
}

-- the card, which calls back where a page leaves
abbrev pub inline_totp_enroll : EnrolTexts
inline_totp_enroll = record {
  home = "";
  start_failed = "Could not start enrolment. Refresh and try again.";
  expired = "Your session expired. Sign in again and retry.";
  not_completed = "Could not complete enrolment. Please try again.";
}

-- The codes are there from the step `codes` on. `requests` and `departures` are traces, the latest
-- first; `waiting` tells that the start is not answered yet.
pub record EnrolState : Type 0 where
  pub return_to : String
  pub enrollment : Option Enrollment
  pub code : String
  pub recovery_codes : Option (List String)
  pub error : Option String
  pub started : Bool
  pub waiting : Bool
  pub requests : List EnrolRequest
  pub auth : AuthState
  pub departures : List Departure

abbrev pub open_enrol : EnrolTexts → LocationState → AuthState → EnrolState
open_enrol page state auth = record {
  return_to = state.return_to otherwise page.home;
  enrollment = none;
  code = "";
  recovery_codes = none;
  error = none;
  started = false;
  waiting = false;
  requests = [];
  auth = auth;
  departures = [];
}

-- the effect, which React may run again
unfoldable pub start_enrolment : EnrolState → EnrolState
start_enrolment st = if st.started then st else record st {
  started = true;
  waiting = true;
  requests = EnrolRequest.start_totp ∷ st.requests;
}

-- the end of its request
unfoldable pub enrolment_started : EnrolTexts → Ended Enrollment → EnrolState → EnrolState
enrolment_started page (Ended.answered e) st =
    if st.waiting then record st { waiting = false; enrollment = some e } else st
enrolment_started page (Ended.threw _) st =
    if st.waiting then record st { waiting = false; error = some page.start_failed } else st

abbrev pub verified : EnrolTexts → Ended (List String) → EnrolState → EnrolState
verified page (Ended.answered codes) st = record st { recovery_codes = some codes }
verified page (Ended.threw o) st = record st {
  error = some (enrol_failure page.expired page.not_completed o);
}

abbrev pub has_recovery_codes : EnrolState → Bool
has_recovery_codes st = elim st.recovery_codes [ none ↦ false | some _ ↦ true ]

-- `onVerify`, by the button of the form, which is drawn before the codes are there
unfoldable pub verify_enrolment : EnrolTexts → Ended (List String) → EnrolState → EnrolState
verify_enrolment page answer st = elim st.enrollment [
  | none ↦ st
  | some e ↦
      let asked = record st {
        error = none;
        requests = EnrolRequest.verify_totp e.mfa_method_id (trim st.code) ∷ st.requests;
      } in
      if not (has_recovery_codes st) && count (trim st.code) == 6
      then verified page answer asked
      else st
]

-- `onFinish`, by the button beside the codes
unfoldable pub finish_enrolment : Environment → EnrolState → EnrolState
finish_enrolment env st =
    let refreshed = (refresh env st.auth).1 in
    if has_recovery_codes st
    then record st { auth = refreshed; departures = depart st.return_to no_state st.departures }
    else st

abbrev pub type_enrolment_code : String → EnrolState → EnrolState
type_enrolment_code t st = record st { code = t }

pub data InlineStep : Type 0 where
  loading scan codes error : InlineStep

-- the step of the card
abbrev pub inline_step : EnrolState → InlineStep
inline_step st = elim st.recovery_codes [
  | some _ ↦ InlineStep.codes
  | none ↦ elim st.enrollment [
    | some _ ↦ InlineStep.scan
    | none ↦ if st.started && not st.waiting then InlineStep.error else InlineStep.loading
  ]
]

-- The handlers of the customer's page and of the card.
abbrev pub start_customer_enrolment : EnrolState → EnrolState
start_customer_enrolment = start_enrolment

abbrev pub verify_customer_enrolment : Ended (List String) → EnrolState → EnrolState
verify_customer_enrolment = verify_enrolment customer_mfa_enroll_page

abbrev pub finish_customer_enrolment : Environment → EnrolState → EnrolState
finish_customer_enrolment = finish_enrolment

abbrev pub start_inline_enrolment : EnrolState → EnrolState
start_inline_enrolment = start_enrolment

abbrev pub inline_enrolment_started : Ended Enrollment → EnrolState → EnrolState
inline_enrolment_started = enrolment_started inline_totp_enroll

abbrev pub verify_inline_enrolment : Ended (List String) → EnrolState → EnrolState
verify_inline_enrolment = verify_enrolment inline_totp_enroll
