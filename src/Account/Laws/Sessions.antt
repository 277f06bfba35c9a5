-- ===== src/Account/Laws/Sessions.antt =====
-- What a mistyped password on the account page does to the session.
use guardian_cloud.Prelude.{
  ◌≡◌, refl, ◌∙◌, ap, sym, true, false, none, some, String, length, arith, ◌otherwise◌,
}
use guardian_cloud.Client.Json.{Body}
use guardian_cloud.Client.Request.{Plane, Fetched, prepare, login_path_for}
use guardian_cloud.Auth.State.{InitState, AuthState, Environment}
use guardian_cloud.Auth.Gate.{Screen, auth_boundary, authenticated_only, require_auth}
use guardian_cloud.Auth.Laws.Signing.{call_frame, call_ends_session}
use guardian_cloud.Account.Page.{AccountRequest}
use guardian_cloud.Account.Requests.{account_call, account_request, takes_password}

unsuppressed :
    (r : AccountRequest)
    → takes_password r ≡ true
    → ((account_call r).1.suppress_unauthorized ≡ false) × ((account_call r).1.plane ≡ none)
unsuppressed (AccountRequest.delete_method _ _) h = (refl, refl)
unsuppressed (AccountRequest.post_recovery_codes _) h = (refl, refl)
unsuppressed (AccountRequest.post_password _ _) h = (refl, refl)
unsuppressed AccountRequest.get_mfa h = ground (arith, h)
unsuppressed AccountRequest.get_sessions h = ground (arith, h)
unsuppressed AccountRequest.get_me h = ground (arith, h)
unsuppressed AccountRequest.delete_sessions h = ground (arith, h)
unsuppressed (AccountRequest.delete_session _) h = ground (arith, h)

sent_away :
    (p : Plane) (st : AuthState)
    → p ≡ Plane.admin
    → st.init_state ≡ InitState.ready
    → st.setup_required ≡ false
    → st.user ≡ none
    → require_auth p st Screen.children ≡ Screen.navigate "/super/login"
unfolding require_auth auth_boundary authenticated_only login_path_for
sent_away p st staff ready done gone = rw ready (rw done (rw gone (rw staff refl)))

-- On the account page of the console, with a session: a request with a password that the API answers
-- with status 401 ends the session, and the guard then shows the way to the sign-in page instead of
-- the page with its error.
pub account_request_401 :
    (env : Environment) (r : AccountRequest) (st : AuthState) (me : Body) (raw : String)
    → env.plane ≡ Plane.admin
    → st.user ≡ some me
    → st.init_state ≡ InitState.ready
    → st.setup_required ≡ false
    → takes_password r ≡ true
    → env.network
        (length st.sent)
        (prepare (env.browser (length st.sent)) (account_call r).0 (account_call r).1)
      ≡ Fetched.response 401 raw
    → let st1 = (account_request env r st).1 in
      (st1.user ≡ none)
      × (require_auth env.plane st1 Screen.children ≡ Screen.navigate "/super/login")
unfolding account_request
account_request_401 env r st me raw staff user ready done asks answer =
    let (path, o) = account_call r in
    let (open', default) = unsuppressed r asks in
    let (i, q) = call_frame env path o st in
    let gone =
      (call_ends_session env path o st me user).1
        (raw, answer, open', staff ∙ ap (λ p. p otherwise Plane.admin) (sym default)) in
    (gone, sent_away env.plane (account_request env r st).1 staff (i ∙ ready) (q ∙ done) gone)
