-- ===== src/Account/Tests.antt =====
-- The page at concrete inputs.
use guardian_cloud.Prelude.{◌≡◌, refl, none, some, List, [], ◌∷◌}
use guardian_cloud.Client.Json.{Json, Body, property}
use guardian_cloud.Client.Request.{
  Plane, Browser, Fetched, Outcome, prepare, finish, request, new_api_error,
}
use guardian_cloud.Auth.State.{
  InitState, AuthState, initial_state, Environment, on_unauthorized, call,
}
use guardian_cloud.Auth.Gate.{Screen, require_auth}
use guardian_cloud.Account.Page.{
  AccountState, AccountRequest, open_page, remove_method, set_password,
}
use guardian_cloud.Account.Requests.{account_request}
use guardian_cloud.Account.Laws.Sessions.{account_request_401}
use guardian_cloud.Account.Laws.Errors.{AccountAction, perform_all}
use guardian_cloud.Account.Laws.Guards.{AllGuarded, perform_all-AllGuarded}

-- New recovery codes without a password and with one, a new password that is too short and one that
-- is not, and a sign-out of the other devices.
abbrev visit : List AccountAction
visit =
    AccountAction.removal_asked "recovery"
    ∷ AccountAction.confirmed ("a1" ∷ []) (Outcome.returned none) none
    ∷ AccountAction.password_typed "secret"
    ∷ AccountAction.confirmed ("a1" ∷ []) (Outcome.returned none) none
    ∷ AccountAction.passwords_typed "secret" "short"
    ∷ AccountAction.password_changed (Outcome.returned none)
    ∷ AccountAction.passwords_typed "secret" "a long secret"
    ∷ AccountAction.password_changed (Outcome.returned none)
    ∷ AccountAction.others_revoked (Outcome.returned none)
        (some (record { items = []; total = 0; recovery_codes_remaining = 1 }, []))
    ∷ []

abbrev failed : AccountState
failed = record open_page { error = some "Could not sign that device out." }

perform_all-AllGuarded_example : AllGuarded (perform_all visit open_page).requests
perform_all-AllGuarded_example = perform_all-AllGuarded visit open_page tt

abbrev me : Body
me = ("id", Json.text "adm-1") ∷ []

abbrev console : Browser
console = record {
  cookie = "";
  api_base_url = "";
  origin = "http://localhost:5175";
  decode_uri_component = λ s. s;
  stringify = λ j. "{}";
  parse = λ s. some (("error", Json.text "incorrect password") ∷ []);
}

-- An API that finds every password wrong.
abbrev wary : Environment
wary = record {
  plane = Plane.admin;
  browser = λ k. console;
  network = λ k q. Fetched.response 401 "incorrect";
}

abbrev at_work : AuthState
at_work = record initial_state { user = some me; init_state = InitState.ready }

account_request_401_example :
    let st = (account_request wary (AccountRequest.delete_method "m1" "typo") at_work).1 in
    (st.user ≡ none)
    × (require_auth Plane.admin st Screen.children ≡ Screen.navigate "/super/login")
account_request_401_example =
    account_request_401 wary (AccountRequest.delete_method "m1" "typo") at_work me "incorrect" refl
      refl refl refl refl refl

-- The page itself meant to go on.
typo_shown :
    let o = (account_request wary (AccountRequest.delete_method "m1" "typo") at_work).0 in
    (remove_method "m1" o none (set_password "typo" open_page)).error
    ≡ some "That password is not correct."
unfolding account_request call request prepare finish on_unauthorized property new_api_error
    remove_method set_password
typo_shown = refl
