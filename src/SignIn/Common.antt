-- ===== src/SignIn/Common.antt =====
-- What the pages share: the history's state, the countdown of a lockout, and what a failed request
-- shows.
use guardian_cloud.Prelude.{
  ℕ, zero, suc, Bool, true, false, Option, none, some, List, ◌∷◌, String, ◌==◌, str_eq,
  if◌then◌else◌, ◌otherwise◌,
}
use guardian_cloud.Client.Json.{Json}
use guardian_cloud.Client.Request.{Outcome}
use guardian_cloud.Auth.Provider.{LoginEnd}

-- `location.state`, with the members that the pages and the guard put there
pub record LocationState : Type 0 where
  pub from : Option String
  pub methods : Option (List String)
  pub return_to : Option String
  pub expired_challenge : Bool
  pub just_set_up : Bool

abbrev pub no_state : LocationState
no_state = record {
  from = none;
  methods = none;
  return_to = none;
  expired_challenge = false;
  just_set_up = false;
}

-- a `navigate` of a page
pub record Departure : Type 0 where
  pub to : String
  pub state : LocationState

abbrev pub depart : String → LocationState → List Departure → List Departure
depart to state ds = record { to = to; state = state } ∷ ds

-- what `RequireAuth` puts beside its way to the sign-in page
abbrev pub bounced_from : String → LocationState
bounced_from pathname = record no_state { from = some pathname }

-- The round of the interval, which runs while the seconds are above 0.
unfoldable pub tick_lockout : Option ℕ → Option ℕ
tick_lockout none = none
tick_lockout (some zero) = some zero
tick_lockout (some (suc zero)) = none
tick_lockout (some (suc (suc n))) = some (suc n)

-- `lockoutSeconds !== null && lockoutSeconds > 0`
abbrev pub is_locked_out : Option ℕ → Bool
is_locked_out none = false
is_locked_out (some zero) = false
is_locked_out (some (suc _)) = true

-- What a failed sign-in shows, and the seconds of a lockout that begins.
abbrev pub login_failure : String → String → LoginEnd → String × Option ℕ
login_failure locked unreachable (LoginEnd.threw (Outcome.api_error e)) =
    if e.status == 423
    then (locked, some (e.retry_after_seconds otherwise 60))
    else if e.status == 403
    then (e.message, none)
    else ("Invalid email or password.", none)
login_failure locked unreachable _ = (unreachable, none)

-- the status of what a sign-in throws, where that is an `ApiError`
abbrev pub status_is : ℕ → LoginEnd → Bool
status_is n (LoginEnd.threw (Outcome.api_error e)) = e.status == n
status_is n _ = false

-- A response of the enrolment's requests, with what the client casts it to, or what is thrown.
pub data Ended {ℓ} (A : Type ℓ) : Type ℓ where
  answered : A → Ended A
  threw : Outcome → Ended A

pub record Enrollment : Type 0 where
  pub mfa_method_id : String
  pub secret : String
  pub otpauth_uri : String

-- what a refused code of an enrolment shows
abbrev pub enrol_failure : String → String → Outcome → String
enrol_failure expired other (Outcome.api_error e) =
    if e.status == 401
    then if str_eq e.message "authentication required"
      then expired
      else "That code is not valid. Check your authenticator and try again."
    else other
enrol_failure expired other _ = other

-- `endedReason ? ENDED_MESSAGE[endedReason] : null`
abbrev pub ended_message : Option Json → Option String
ended_message (some (Json.text t)) =
    if str_eq t "idle_timeout"
    then some "You were signed out after a period of inactivity."
    else if str_eq t "expired"
    then some "Your session expired. Please sign in again."
    else if str_eq t "account_disabled"
    then some "This account is no longer permitted to sign in."
    else none
ended_message _ = none
