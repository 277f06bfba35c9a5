-- ===== src/Account/Requests.antt =====
-- The requests of the account page as they go out through the session provider: the paths and options
-- of `AccountSecurityPage` and its sections.
use Prim.Native.String.{◌++◌}
use guardian_cloud.Prelude.{Bool, true, false, Option, none, some, String}
use guardian_cloud.Client.Json.{Json, Fields}
use guardian_cloud.Client.Request.{Plane, RequestOptions, Outcome}
use guardian_cloud.Auth.State.{AuthState, Environment, call}
use guardian_cloud.Auth.Provider.{me_options}
use guardian_cloud.Account.Page.{AccountRequest}

-- the options of a call of `api` without options
abbrev pub plain : String → Option Json → RequestOptions
plain method body = record {
  method = some method;
  body = body;
  plane = none;
  suppress_unauthorized = false;
  signal_aborted = false;
  timeout_ms = none;
}

abbrev pub with_password : String → Option Json
with_password password =
    some (Json.object (Fields.field "password" (Json.text password) Fields.end))

abbrev pub account_call : AccountRequest → String × RequestOptions
account_call AccountRequest.get_mfa = ("/api/v1/admin/auth/mfa", plain "GET" none)
account_call AccountRequest.get_sessions = ("/api/v1/admin/account/sessions", plain "GET" none)
account_call AccountRequest.get_me = ("/api/v1/admin/auth/me", me_options Plane.admin)
account_call AccountRequest.delete_sessions =
    ("/api/v1/admin/account/sessions", plain "DELETE" none)
account_call (AccountRequest.delete_session id) =
    ("/api/v1/admin/account/sessions/" ++ id, plain "DELETE" none)
account_call (AccountRequest.delete_method id password) =
    ("/api/v1/admin/account/mfa/" ++ id, plain "DELETE" (with_password password))
account_call (AccountRequest.post_recovery_codes password) =
    ("/api/v1/admin/account/mfa/recovery-codes", plain "POST" (with_password password))
account_call (AccountRequest.post_password current next) = (
  "/api/v1/admin/account/password",
  plain "POST" (
      some (
        Json.object (
          Fields.field "current_password" (Json.text current)
            (Fields.field "new_password" (Json.text next) Fields.end)))),
)

-- a request of the page, through the provider
unfoldable pub account_request : Environment → AccountRequest → AuthState → Outcome × AuthState
unfolding call
account_request env r st = call env (account_call r).0 (account_call r).1 st

-- the requests that take the password of the person
abbrev pub takes_password : AccountRequest → Bool
takes_password (AccountRequest.delete_method _ _) = true
takes_password (AccountRequest.post_recovery_codes _) = true
takes_password (AccountRequest.post_password _ _) = true
takes_password _ = false
