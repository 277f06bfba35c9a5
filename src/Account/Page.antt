-- ===== src/Account/Page.antt =====
-- `AccountSecurityPage` with its sections (web/src/pages/admin/account/AccountSecurityPage.tsx). An
-- operation is given how its requests end; the requests are a trace. The messages are those of the
-- source; which answers the client casts to what is not checked, so they come as records.
use mathlib.Core.List
use Prim.Native.String.{count}
use guardian_cloud.Prelude.{
  ℕ, Bool, true, false, not, ◌&&◌, ◌||◌, ltb, Option, none, some, List, [], ◌∷◌, String, str_eq,
  ◌==◌, if◌then◌else◌,
}
use guardian_cloud.Client.Request.{Outcome}

-- `MfaMethod`, less the times and the kind, which are only drawn
pub record MfaMethod : Type 0 where
  pub id : String
  pub label : String

pub record MfaListResponse : Type 0 where
  pub items : List MfaMethod
  pub total : ℕ
  pub recovery_codes_remaining : ℕ

pub data AccountRequest : Type 0 where
  get_mfa get_sessions get_me delete_sessions : AccountRequest
  delete_session : String → AccountRequest
  delete_method : String → String → AccountRequest
  post_recovery_codes : String → AccountRequest
  post_password : String → String → AccountRequest

-- The state of the page, of `TwoFactorSection` and of `PasswordSection`; a session is its id.
pub record AccountState : Type 0 where
  pub mfa : Option MfaListResponse
  pub sessions : List String
  pub error : Option String
  pub notice : Option String
  pub password : String
  pub pending_removal : Option String
  pub new_codes : Option (List String)
  pub enrolling : Bool
  pub current : String
  pub next : String
  pub saving : Bool
  pub requests : List AccountRequest

abbrev pub open_page : AccountState
open_page = record {
  mfa = none;
  sessions = [];
  error = none;
  notice = none;
  password = "";
  pending_removal = none;
  new_codes = none;
  enrolling = false;
  current = "";
  next = "";
  saving = false;
  requests = [];
}

abbrev pub requested : List AccountRequest → AccountState → AccountState
requested rs st = record st { requests = List.◌++◌ st.requests rs }

abbrev pub set_error : String → AccountState → AccountState
set_error message st = record st { error = some message }

abbrev pub set_notice : String → AccountState → AccountState
set_notice message st = record st { notice = some message }

-- what the two requests of `load` give, or nothing where one of them fails
abbrev pub Loaded : Type 0
Loaded = Option (MfaListResponse × List String)

abbrev pub take_loaded : Loaded → AccountState → AccountState
take_loaded none st = set_error "Could not load your security settings." st
take_loaded (some (mfa, sessions)) st = record st { mfa = some mfa; sessions = sessions }

unfoldable pub load : Loaded → AccountState → AccountState
load loaded st =
    take_loaded loaded (requested (AccountRequest.get_mfa ∷ AccountRequest.get_sessions ∷ []) st)

unfoldable pub revoke_session : String → Outcome → Loaded → AccountState → AccountState
unfolding load
revoke_session id (Outcome.returned _) loaded st = load loaded (
    set_notice "That device has been signed out."
      (requested (AccountRequest.delete_session id ∷ []) st))
revoke_session id _ loaded st =
    set_error "Could not sign that device out."
      (requested (AccountRequest.delete_session id ∷ []) st)

unfoldable pub revoke_others : Outcome → Loaded → AccountState → AccountState
unfolding load
revoke_others (Outcome.returned _) loaded st = load loaded (
    set_notice "All other devices have been signed out."
      (requested (AccountRequest.delete_sessions ∷ []) st))
revoke_others _ loaded st =
    set_error "Could not sign the other devices out."
      (requested (AccountRequest.delete_sessions ∷ []) st)

-- `onChanged`: the load, and the refresh of the session provider
unfoldable pub on_changed : Loaded → AccountState → AccountState
unfolding load
on_changed loaded st = requested (AccountRequest.get_me ∷ []) (load loaded st)

abbrev pub removal_error : Outcome → String
removal_error (Outcome.api_error e) =
    if e.status == 409
    then "Two-factor is required for your account. Add another method before removing this one."
    else if e.status == 401
    then "That password is not correct."
    else "Could not remove that method."
removal_error _ = "Could not remove that method."

unfoldable pub remove_method : String → Outcome → Loaded → AccountState → AccountState
unfolding on_changed
remove_method id (Outcome.returned _) loaded st =
    on_changed loaded
      (record (set_notice "Two-factor method removed."
        (requested (AccountRequest.delete_method id st.password ∷ []) st)) {
          pending_removal = none;
          password = "";
        })
remove_method id outcome loaded st =
    set_error (removal_error outcome)
      (requested (AccountRequest.delete_method id st.password ∷ []) st)

abbrev pub codes_error : Outcome → String
codes_error (Outcome.api_error e) =
    if e.status == 401
    then "That password is not correct."
    else "Could not regenerate your recovery codes."
codes_error _ = "Could not regenerate your recovery codes."

-- the codes are those of the answer, where there is one
unfoldable pub regenerate_codes : List String → Outcome → Loaded → AccountState → AccountState
unfolding on_changed
regenerate_codes codes (Outcome.returned _) loaded st =
    on_changed loaded (record (requested (AccountRequest.post_recovery_codes st.password ∷ []) st) {
      new_codes = some codes;
      password = "";
    })
regenerate_codes codes outcome loaded st =
    set_error (codes_error outcome)
      (requested (AccountRequest.post_recovery_codes st.password ∷ []) st)

unfoldable pub start_enrol : AccountState → AccountState
start_enrol st = record st { pending_removal = none; new_codes = none; enrolling = true }

unfoldable pub cancel_enrol : AccountState → AccountState
cancel_enrol st = record st { enrolling = false }

unfoldable pub complete_enrol : Loaded → AccountState → AccountState
unfolding on_changed
complete_enrol loaded st = on_changed loaded (
    set_notice "Authenticator enabled. Keep your recovery codes somewhere safe."
      (record st { enrolling = false }))

-- a method's id, or `recovery`
unfoldable pub ask_removal : String → AccountState → AccountState
ask_removal id st = record st { pending_removal = some id }

unfoldable pub cancel_removal : AccountState → AccountState
cancel_removal st = record st { pending_removal = none; password = "" }

unfoldable pub saved_codes : AccountState → AccountState
saved_codes st = record st { new_codes = none; pending_removal = none }

unfoldable pub set_password : String → AccountState → AccountState
set_password text st = record st { password = text }

abbrev pub confirmed_as :
    Option String → List String → Outcome → Loaded → AccountState → AccountState
confirmed_as none codes outcome loaded st = st
confirmed_as (some id) codes outcome loaded st =
    let removed = remove_method id outcome loaded st in
    if str_eq id "recovery" then regenerate_codes codes outcome loaded st else removed

abbrev pub has_new_codes : AccountState → Bool
has_new_codes st = elim st.new_codes [ none ↦ false | some _ ↦ true ]

-- The button Confirm is drawn for a removal that is asked for, while no authenticator is being added
-- and no new codes are shown, and it is active with a password.
unfoldable pub confirm : List String → Outcome → Loaded → AccountState → AccountState
unfolding remove_method regenerate_codes
confirm codes outcome loaded st =
    if not (st.enrolling || has_new_codes st) && not (str_eq st.password "")
    then confirmed_as st.pending_removal codes outcome loaded st
    else st

abbrev pub password_error : Outcome → String
password_error (Outcome.api_error e) =
    if e.status == 401
    then "Your current password is not correct."
    else if e.status == 400
    then e.message
    else "Could not change your password."
password_error _ = "Could not change your password."

-- `submit` of `PasswordSection`
abbrev pub password_sent : Outcome → AccountState → AccountState
password_sent (Outcome.returned _) st =
    record (set_notice "Password changed. Your other devices have been signed out."
      (requested (AccountRequest.post_password st.current st.next ∷ []) st)) {
        current = "";
        next = "";
        saving = false;
      }
password_sent outcome st =
    record (set_error (password_error outcome)
      (requested (AccountRequest.post_password st.current st.next ∷ []) st)) { saving = false }

-- the button Change password, which is active with both passwords
unfoldable pub change_password : Outcome → AccountState → AccountState
change_password outcome st =
    if st.saving || str_eq st.current "" || ltb (count st.next) 10
    then st
    else password_sent outcome st

unfoldable pub type_passwords : String → String → AccountState → AccountState
type_passwords current next st = record st { current = current; next = next }
