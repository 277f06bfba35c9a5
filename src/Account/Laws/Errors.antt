-- ===== src/Account/Laws/Errors.antt =====
-- The errors that the page shows.
use guardian_cloud.Prelude.{Bool, true, false, Option, none, some, List, [], ◌∷◌, String}
use guardian_cloud.Client.Request.{Outcome}
use guardian_cloud.Account.Page.{
  AccountState, Loaded, load, revoke_session, revoke_others, start_enrol, cancel_enrol,
  complete_enrol, ask_removal, cancel_removal, saved_codes, set_password, confirm, change_password,
  type_passwords,
}

-- what happens on the page
pub data AccountAction : Type 0 where
  loaded : Loaded → AccountAction
  session_revoked : String → Outcome → Loaded → AccountAction
  others_revoked : Outcome → Loaded → AccountAction
  confirmed : List String → Outcome → Loaded → AccountAction
  enrol_started enrol_cancelled removal_cancelled codes_saved : AccountAction
  enrolled : Loaded → AccountAction
  removal_asked password_typed : String → AccountAction
  passwords_typed : String → String → AccountAction
  password_changed : Outcome → AccountAction

abbrev pub perform : AccountAction → AccountState → AccountState
perform (AccountAction.loaded l) = load l
perform (AccountAction.session_revoked id o l) = revoke_session id o l
perform (AccountAction.others_revoked o l) = revoke_others o l
perform (AccountAction.confirmed codes o l) = confirm codes o l
perform AccountAction.enrol_started = start_enrol
perform AccountAction.enrol_cancelled = cancel_enrol
perform AccountAction.removal_cancelled = cancel_removal
perform AccountAction.codes_saved = saved_codes
perform (AccountAction.enrolled l) = complete_enrol l
perform (AccountAction.removal_asked id) = ask_removal id
perform (AccountAction.password_typed t) = set_password t
perform (AccountAction.passwords_typed c n) = type_passwords c n
perform (AccountAction.password_changed o) = change_password o

abbrev pub perform_all : List AccountAction → AccountState → AccountState
perform_all [] st = st
perform_all (a ∷ later) st = perform_all later (perform a st)

-- an error is shown
abbrev pub is_shown : Option String → Bool
is_shown none = false
is_shown (some _) = true
