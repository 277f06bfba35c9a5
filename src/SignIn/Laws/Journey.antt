-- ===== src/SignIn/Laws/Journey.antt =====
-- A customer's way from a guarded page through both factors and back to it.
use Prim.Native.String.{count, ◌++◌}
use guardian_cloud.Prelude.{
  ◌≡◌, refl, ap, ◌∙◌, true, false, Option, none, some, [], String, eq_iff, arith, includes, ltb,
  trim, is_empty, ℕ, length,
}
use guardian_cloud.Client.Json.{Json, Body, property}
use guardian_cloud.Client.Request.{Plane, Outcome, request}
use guardian_cloud.Auth.State.{InitState, AuthState, Environment, call}
use guardian_cloud.Auth.Provider.{
  LoginEnd, base_path, options, returned_body, me_options, is_text, is_authenticated, refresh,
  sign_in, login, verify_mfa, clear_ended_reason,
}
use guardian_cloud.Auth.Gate.{Screen, auth_boundary, authenticated_only, require_auth}
use guardian_cloud.Auth.Laws.Signing.{call_frame}
use guardian_cloud.SignIn.Factors.{methods_of, first_factor}
use guardian_cloud.SignIn.Common.{no_state, bounced_from, depart}
use guardian_cloud.SignIn.Customer.{LoginState, open_login, by_login_status, submit_login}
use guardian_cloud.SignIn.Challenge.{
  Challenge, ChallengeState, leave_challenge, customer_mfa_challenge_page, open_challenge,
  submit_code, submit_customer_code,
}

-- The API answers each request for the user with this object.
abbrev pub Knows : Environment → Body → Type 0
Knows env me =
    (k : ℕ)
    → (request (env.browser k) (env.network k) (base_path env.plane ++ "/me")
        (me_options env.plane)).0
      ≡ Outcome.returned (some me)

is_text_lem : (t : String) (x : Option Json) → is_text t x ≡ true → x ≡ some (Json.text t)
is_text_lem t (some (Json.text u)) e = ap (λ s. some (Json.text s)) ((eq_iff u t).0 e)
is_text_lem t none e = ground arith
is_text_lem t (some Json.null) e = ground arith
is_text_lem t (some (Json.flag _)) e = ground arith
is_text_lem t (some (Json.num _)) e = ground arith
is_text_lem t (some (Json.array _)) e = ground arith
is_text_lem t (some (Json.object _)) e = ground arith

includes-is_empty : (s : String) → includes s "@" ≡ true → is_empty s ≡ false
unfolding includes
includes-is_empty String.[] e = ground (arith, e)
includes-is_empty (String.◌∷◌ c s) e = refl

-- A state with this user that is started and set up: the guard lets the person through.
abbrev Enters : AuthState → Body → Type 0
Enters st me = (st.init_state ≡ InitState.ready) × (st.setup_required ≡ false) × (st.user ≡ some me)

Enters-require_auth :
    (p : Plane) (st : AuthState) (me : Body)
    → Enters st me
    → require_auth p st Screen.children ≡ Screen.children
unfolding require_auth auth_boundary authenticated_only
Enters-require_auth p st me w = rw w.0 (rw w.1 (rw w.2 refl))

refresh-Enters :
    (env : Environment) (st : AuthState) (me : Body)
    → Knows env me
    → st.init_state ≡ InitState.ready
    → st.setup_required ≡ false
    → Enters (refresh env st).1 me
unfolding refresh call
refresh-Enters env st me knows ready done =
    let (i, q) = call_frame env (base_path env.plane ++ "/me") (me_options env.plane) st in
    (i ∙ ready, q ∙ done, ap returned_body (knows (length st.sent)))

sign_in-Enters :
    (env : Environment) (path : String) (body : Json) (st : AuthState) (me : Body)
    → Knows env me
    → st.init_state ≡ InitState.ready
    → st.setup_required ≡ false
    → is_authenticated (sign_in env path body st).0 ≡ true
    → Enters (sign_in env path body st).1 me
unfolding sign_in
sign_in-Enters env path body st me knows ready done ok =
    let o = options env.plane "POST" (some body) false in
    let (i, q) = call_frame env (base_path env.plane ++ path) o st in
    let st1 = (call env (base_path env.plane ++ path) o st).1 in
    rw ok (refresh-Enters env (record st1 { ended_reason = none }) me knows (i ∙ ready) (q ∙ done))

-- a password that the API wants a second factor for
submit_login_mfa :
    (env : Environment) (st : LoginState) (b : Body)
    → includes st.email "@" ≡ true
    → (login env (trim st.email) st.password (clear_ended_reason st.auth)).0 ≡ LoginEnd.result b
    → is_text "mfa_required" (property "status" b) ≡ true
    → (submit_login env st).departures
      ≡ depart "/login/mfa"
          (record no_state {
            methods = some (methods_of (property "methods" b));
            return_to = some st.return_to;
          })
          st.departures
unfolding submit_login by_login_status
submit_login_mfa env st b at_sign end status =
    rw (includes-is_empty st.email at_sign)
      (rw at_sign (rw end (rw (is_text_lem "mfa_required" (property "status" b) status) refl)))

verify_mfa-Enters :
    (env : Environment) (code factor : String) (st : AuthState) (me : Body)
    → Knows env me
    → st.init_state ≡ InitState.ready
    → st.setup_required ≡ false
    → is_authenticated (verify_mfa env code factor st).0 ≡ true
    → Enters (verify_mfa env code factor st).1 me
unfolding verify_mfa
verify_mfa-Enters env code factor st me knows ready done ok =
    sign_in-Enters env "/login/mfa" _ st me knows ready done ok

-- a code that the API takes
submit_code_passes :
    (c : Challenge) (env : Environment) (st : ChallengeState)
    → ltb (count (trim st.code)) 6 ≡ false
    → is_authenticated (verify_mfa env (trim st.code) st.factor st.auth).0 ≡ true
    → submit_code c env st
      ≡ leave_challenge st.return_to no_state
          (record st { error = none; auth = (verify_mfa env (trim st.code) st.factor st.auth).1 })
unfolding submit_code
submit_code_passes c env st long ok = rw long (rw ok refl)

-- Someone whom the guard has sent to the customers' sign-in page from a page of the portal, whose
-- password the API answers with `mfa_required` and whose code of at least six characters it then
-- takes: the sign-in page leaves for the page of the second factor, this one shows the factors that the API has named and leaves for the page where
-- the person was headed, and with the provider that it leaves behind the guard shows that page.
pub sign_in_returns :
    (env env2 : Environment) (pathname email password code : String) (auth auth2 : AuthState)
    (b me : Body)
    → includes email "@" ≡ true
    → (login env (trim email) password (clear_ended_reason auth)).0 ≡ LoginEnd.result b
    → is_text "mfa_required" (property "status" b) ≡ true
    → ltb (count (trim code)) 6 ≡ false
    → is_authenticated
        (verify_mfa env2 (trim code) (first_factor (methods_of (property "methods" b))) auth2).0
      ≡ true
    → Knows env2 me
    → auth2.init_state ≡ InitState.ready
    → auth2.setup_required ≡ false
    → let page = record (open_login (bounced_from pathname) auth) {
      email = email;
      password = password;
    } in
      let handed = record no_state {
        methods = some (methods_of (property "methods" b));
        return_to = some pathname;
      } in
      let asked = record (open_challenge customer_mfa_challenge_page handed auth2) {
        code = code;
      } in
      let verified = submit_customer_code env2 asked in
      ((submit_login env page).departures ≡ depart "/login/mfa" handed [])
      × (asked.available ≡ methods_of (property "methods" b))
      × (verified.departures ≡ depart pathname no_state [])
      × (require_auth env2.plane verified.auth Screen.children ≡ Screen.children)
sign_in_returns env env2 pathname email password code auth auth2 b me at_sign end status long ok
      knows ready done =
    let page = record (open_login (bounced_from pathname) auth) {
      email = email;
      password = password;
    } in
    let handed = record no_state {
      methods = some (methods_of (property "methods" b));
      return_to = some pathname;
    } in
    let asked = record (open_challenge customer_mfa_challenge_page handed auth2) { code = code } in
    let passes = submit_code_passes customer_mfa_challenge_page env2 asked long ok in
    let enters = verify_mfa-Enters env2 (trim code) asked.factor auth2 me knows ready done ok in
    (
      submit_login_mfa env page b at_sign end status,
      refl,
      ap (λ s. s.departures) passes,
      ap (λ s. require_auth env2.plane s.auth Screen.children) passes
          ∙ Enters-require_auth env2.plane _ me enters,
    )
