-- ===== src/Auth/Laws/Genuine.antt =====
-- Every user of the provider is one that the API has answered with.
use Prim.Native.String.{◌++◌}
use mathlib.Core.List
use guardian_cloud.Prelude.{
  ℕ, zero, suc, ◌+◌, ◌*◌, ◌≡◌, ◌⊎◌, refl, inl, inr, sym, ap, ◌∙◌, Bool, true, false, Option, none,
  some, List, [], ◌∷◌, String, length, if◌then◌else◌, arith,
}
use guardian_cloud.Client.Json.{Json, Body}
use guardian_cloud.Client.Request.{Plane, RequestOptions, Outcome, request}
use guardian_cloud.Auth.State.{
  InitState, AuthState, initial_state, Environment, on_unauthorized, notified, call,
}
use guardian_cloud.Auth.Provider.{
  init_retries, base_path, options, login_end, me_options, returned_body, refresh,
  fetch_setup_status, settle, fail, refusal_message, attempt_from, bootstrap, refresh_setup_status,
  is_authenticated, sign_in, login, verify_mfa, logout, clear_ended_reason,
}
use guardian_cloud.Auth.Actions.{Action, act, acts}
use guardian_cloud.Auth.Laws.Cases.{by_status}
use guardian_cloud.Auth.Gate.{Screen, auth_boundary, authenticated_only, require_auth}

-- `/me` has answered with this object, to the request of some number.
abbrev pub IsAnswered : Environment → Body → Type 0
IsAnswered env me =
    (k : ℕ) × ((request (env.browser k) (env.network k) (base_path env.plane ++ "/me")
        (me_options env.plane)).0
      ≡ Outcome.returned (some me))

abbrev pub IsGenuine : Environment → AuthState → Type 0
IsGenuine env st = (me : Body) → st.user ≡ some me → IsAnswered env me

returned_body_lem :
    (x : Outcome) {me : Body} → returned_body x ≡ some me → x ≡ Outcome.returned (some me)
returned_body_lem (Outcome.returned b) e = ap Outcome.returned e
returned_body_lem (Outcome.api_error b) e = ground arith
returned_body_lem (Outcome.network_error b c) e = ground arith
returned_body_lem Outcome.cancelled e = ground arith

pub refresh-IsGenuine : (env : Environment) (st : AuthState) → IsGenuine env (refresh env st).1
unfolding refresh call
refresh-IsGenuine env st me e = (length st.sent, returned_body_lem _ e)

notified_user :
    (p : Plane) (n : Option (Plane × Json)) (st : AuthState)
    → ((notified p n st).user ≡ st.user) ⊎ ((notified p n st).user ≡ none)
unfolding on_unauthorized
notified_user p none st = inl refl
notified_user p (some (q, r)) st = ground arith

-- A request keeps the user or ends the session.
pub call_user :
    (env : Environment) (path : String) (o : RequestOptions) (st : AuthState)
    → ((call env path o st).1.user ≡ st.user) ⊎ ((call env path o st).1.user ≡ none)
unfolding call on_unauthorized
call_user env path o st = notified_user env.plane _ _

-- a state with the same user, or with none, is as genuine
abbrev Follows : AuthState → AuthState → Type 0
Follows st st' = (st'.user ≡ st.user) ⊎ (st'.user ≡ none)

IsGenuine-Follows :
    (env : Environment) (st st' : AuthState) → Follows st st' → IsGenuine env st → IsGenuine env st'
IsGenuine-Follows env st st' (inl same) w me e = w me (sym same ∙ e)
IsGenuine-Follows env st st' (inr gone) w me e = ground arith

fetch_setup_status_user :
    (env : Environment) (st : AuthState) → Follows st (fetch_setup_status env st).1
unfolding fetch_setup_status
fetch_setup_status_user env st = ground (arith, call_user env)

settle-IsGenuine :
    (env : Environment) (needs : Bool) (st : AuthState)
    → IsGenuine env st
    → IsGenuine env (settle env needs st)
unfolding settle
settle-IsGenuine env true st w = w
settle-IsGenuine env false st w = refresh-IsGenuine env (record st { setup_required = false })

fail-IsGenuine :
    (env : Environment) (m : String) (st : AuthState) → IsGenuine env st → IsGenuine env (fail m st)
unfolding fail
fail-IsGenuine env m st w = w

attempt_from-IsGenuine :
    (env : Environment) (left k : ℕ) (st : AuthState)
    → IsGenuine env st
    → IsGenuine env (attempt_from env left k st)
unfolding attempt_from
attempt_from-IsGenuine env zero k st w =
    let (status, st1) = fetch_setup_status env st in
    let v = IsGenuine-Follows env st st1 (fetch_setup_status_user env st) w in
    by_status (IsGenuine env) status _ _ _ (λ needs. settle-IsGenuine env needs st1 v)
      (λ c. fail-IsGenuine env (refusal_message c) st1 v) (λ m. fail-IsGenuine env m st1 v)
attempt_from-IsGenuine env (suc left) k st w =
    let (status, st1) = fetch_setup_status env st in
    let waited = record st1 { delays = List.◌++◌ st1.delays (1200 * (k + 1) ∷ []) } in
    let v = IsGenuine-Follows env st st1 (fetch_setup_status_user env st) w in
    by_status (IsGenuine env) status _ _ _ (λ needs. settle-IsGenuine env needs st1 v)
      (λ c. fail-IsGenuine env (refusal_message c) st1 v)
      (λ m. attempt_from-IsGenuine env left (k + 1) waited v)

either-IsGenuine :
    (env : Environment) (b : Bool) (x y : AuthState)
    → IsGenuine env x
    → IsGenuine env y
    → IsGenuine env (if b then x else y)
either-IsGenuine env true x y v w = v
either-IsGenuine env false x y v w = w

sign_in-IsGenuine :
    (env : Environment) (path : String) (body : Json) (st : AuthState)
    → IsGenuine env st
    → IsGenuine env (sign_in env path body st).1
unfolding sign_in
sign_in-IsGenuine env path body st w =
    let (outcome, st1) =
      call env (base_path env.plane ++ path) (options env.plane "POST" (some body) false) st in
    either-IsGenuine env (is_authenticated (login_end outcome)) _ st1
      (refresh-IsGenuine env (record st1 { ended_reason = none }))
      (IsGenuine-Follows env st st1 (call_user env _ _ st) w)

act-IsGenuine :
    (env : Environment) (a : Action) (st : AuthState)
    → IsGenuine env st
    → IsGenuine env (act env a st)
unfolding act bootstrap login verify_mfa logout refresh_setup_status clear_ended_reason
act-IsGenuine env Action.start st w =
    attempt_from-IsGenuine env init_retries 0
      (record st { init_state = InitState.loading; init_error = none }) w
act-IsGenuine env Action.probe st w = refresh-IsGenuine env st
act-IsGenuine env (Action.enter_password email password) st w = sign_in-IsGenuine env _ _ st w
act-IsGenuine env (Action.enter_code code method) st w = sign_in-IsGenuine env _ _ st w
act-IsGenuine env Action.sign_out st w = λ me e. ground arith
act-IsGenuine env Action.reread_setup st w =
    let (status, st1) = fetch_setup_status env st in
    let v = IsGenuine-Follows env st st1 (fetch_setup_status_user env st) w in
    by_status (IsGenuine env) status _ _ _ (λ needs. v) (λ c. v) (λ m. v)
act-IsGenuine env Action.forget_reason st w = w
act-IsGenuine env (Action.other path o) st w =
    IsGenuine-Follows env st (call env path o st).1 (call_user env path o st) w

acts-IsGenuine :
    (env : Environment) (actions : List Action) (st : AuthState)
    → IsGenuine env st
    → IsGenuine env (acts env actions st)
unfolding acts
acts-IsGenuine env [] st w = w
acts-IsGenuine env (a ∷ later) st w =
    acts-IsGenuine env later (act env a st) (act-IsGenuine env a st w)

children_shown :
    (p : Plane) (st : AuthState)
    → require_auth p st Screen.children ≡ Screen.children
    → (st.init_state ≡ InitState.ready)
      × (st.setup_required ≡ false)
      × ((me : Body) × (st.user ≡ some me))
unfolding require_auth auth_boundary authenticated_only
children_shown p st e = ground arith

-- After any sequence of actions on a fresh page, the children of a guarded route are shown only
-- when the start-up is done, no setup is required, and there is a user, which `/me` has answered.
pub require_auth-acts :
    (env : Environment) (actions : List Action)
    → let st = acts env actions initial_state in
      require_auth env.plane st Screen.children ≡ Screen.children
      → (st.init_state ≡ InitState.ready)
        × (st.setup_required ≡ false)
        × ((me : Body) × (st.user ≡ some me) × IsAnswered env me)
require_auth-acts env actions e =
    let st = acts env actions initial_state in
    let (r, q, w) = children_shown env.plane st e in
    let genuine = acts-IsGenuine env actions initial_state (λ me u. ground arith) in
    (r, q, (w.0, w.1, genuine w.0 w.1))
