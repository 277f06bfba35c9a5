-- ===== src/SignIn/Challenge.antt =====
-- The pages that ask for a second factor: `SuperMfaChallengePage`
-- (web/src/pages/super/SuperMfaChallengePage.tsx) and `CustomerMfaChallengePage`
-- (web/src/pages/app/CustomerMfaPages.tsx). They differ in the texts and ways of `Challenge`.
use Prim.Native.String.{count}
use guardian_cloud.Prelude.{
  true, Option, none, some, List, [], ◌∷◌, String, str_eq, ltb, if◌then◌else◌, ◌otherwise◌, trim,
}
use guardian_cloud.Auth.State.{AuthState, Environment}
use guardian_cloud.Auth.Provider.{LoginEnd, is_authenticated, verify_mfa}
use guardian_cloud.SignIn.Factors.{is_member, first_factor, offered, recovery_code, candidates}
use guardian_cloud.SignIn.Common.{LocationState, no_state, Departure, depart, status_is}

pub record Challenge : Type 0 where
  pub home : String
  pub login_path : String
  pub expired_state : LocationState
  pub invalid_code : String
  -- the factors with a button, of those that the API has named, beside the one in use
  pub buttons : List String → String → List String

abbrev pub super_mfa_challenge_page : Challenge
super_mfa_challenge_page = record {
  home = "/admin";
  login_path = "/super/login";
  expired_state = record no_state { expired_challenge = true };
  invalid_code = "That code is not valid. Check the code and try again.";
  buttons = λ available factor. candidates factor (offered available);
}

-- the one button turns from the recovery code to the authenticator and back
abbrev pub customer_mfa_challenge_page : Challenge
customer_mfa_challenge_page = record {
  home = "/app";
  login_path = "/login";
  expired_state = no_state;
  invalid_code = "That code is not valid. Check it and try again.";
  buttons =
      λ available factor. (if str_eq factor recovery_code then "TOTP" else recovery_code) ∷ [];
}

-- `departures` is a trace, the latest first
pub record ChallengeState : Type 0 where
  pub return_to : String
  pub available : List String
  pub factor : String
  pub code : String
  pub error : Option String
  pub auth : AuthState
  pub departures : List Departure

abbrev pub open_challenge : Challenge → LocationState → AuthState → ChallengeState
open_challenge c state auth =
    let available = state.methods otherwise ("TOTP" ∷ []) in
    record {
      return_to = state.return_to otherwise c.home;
      available = available;
      factor = first_factor available;
      code = "";
      error = none;
      auth = auth;
      departures = [];
    }

abbrev pub leave_challenge : String → LocationState → ChallengeState → ChallengeState
leave_challenge to state st = record st { departures = depart to state st.departures }

abbrev pub challenge_refused : Challenge → LoginEnd → ChallengeState → ChallengeState
challenge_refused c (LoginEnd.result _) st = record st {
  error = some "Verification did not complete. Please sign in again.";
}
challenge_refused c end st =
    if status_is 410 end
    then leave_challenge c.login_path c.expired_state st
    else if status_is 423 end
    then record st { error = some "Too many incorrect codes. Please sign in again." }
    else record st { error = some c.invalid_code }

-- `onSubmit`, by the button that is active from six characters on
unfoldable pub submit_code : Challenge → Environment → ChallengeState → ChallengeState
submit_code c env st =
    let (end, auth) = verify_mfa env (trim st.code) st.factor st.auth in
    let asked = record st { error = none; auth = auth } in
    let verified = leave_challenge st.return_to no_state asked in
    let ended = if is_authenticated end then verified else challenge_refused c end asked in
    if ltb (count (trim st.code)) 6 then st else ended

unfoldable pub switch_factor : Challenge → String → ChallengeState → ChallengeState
unfolding offered candidates
switch_factor c f st =
    if is_member f (c.buttons st.available st.factor)
    then record st { factor = f; code = ""; error = none }
    else st

abbrev pub type_challenge_code : String → ChallengeState → ChallengeState
type_challenge_code t st = record st { code = t }

-- the effect that leaves the page for a user who is signed in
unfoldable pub challenge_user_effect : ChallengeState → ChallengeState
challenge_user_effect st = elim st.auth.user [
  | none ↦ st
  | some _ ↦ leave_challenge st.return_to no_state st
]

-- the button that goes back
abbrev pub back_to_sign_in : Challenge → ChallengeState → ChallengeState
back_to_sign_in c st = leave_challenge c.login_path no_state st

-- The two pages' handlers.
abbrev pub submit_super_code : Environment → ChallengeState → ChallengeState
submit_super_code = submit_code super_mfa_challenge_page

abbrev pub submit_customer_code : Environment → ChallengeState → ChallengeState
submit_customer_code = submit_code customer_mfa_challenge_page

abbrev pub switch_customer_factor : String → ChallengeState → ChallengeState
switch_customer_factor = switch_factor customer_mfa_challenge_page
