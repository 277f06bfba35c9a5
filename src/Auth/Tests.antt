-- ===== src/Auth/Tests.antt =====
-- The provider, the gate and the throttle at concrete inputs.
use mathlib.Core.List
use guardian_cloud.Prelude.{
  ℕ, zero, ◌+◌, ◌≤◌, ◌≡◌, ◌↔◌, ◌⊎◌, refl, true, false, Option, none, some, [], ◌∷◌, String, length,
  if◌then◌else◌, str_eq,
}
use guardian_cloud.Client.Json.{Json, Items, Body, property}
use guardian_cloud.Client.Request.{
  Plane, Browser, RequestOptions, SentRequest, Fetched, prepare, finish, request,
}
use guardian_cloud.Auth.State.{
  InitState, AuthState, initial_state, Environment, on_unauthorized, call,
}
use guardian_cloud.Auth.Provider.{
  options, me_options, refresh, fetch_setup_status, settle, attempt_from, bootstrap,
  is_authenticated, sign_in,
}
use guardian_cloud.Auth.Gate.{auth_boundary, authenticated_only, require_auth}
use guardian_cloud.Auth.Idle.{Activity, on_activity, activities}
use guardian_cloud.Auth.Actions.{Action, act, acts}
use guardian_cloud.Auth.Laws.Genuine.{IsAnswered, require_auth-acts}
use guardian_cloud.Auth.Laws.Startup.{waits, IsSettled, bootstrap_settles}
use guardian_cloud.Auth.Laws.Signing.{sign_in_user, call_ends_session}

abbrev me : Body
me = ("id", Json.text "adm-1") ∷ []

-- What the answers of the API below say.
abbrev parse : String → Option Body
parse s =
    if str_eq s "me"
    then some me
    else if str_eq s "set up"
    then some (("setup_required", Json.flag false) ∷ [])
    else some (("status", Json.text "authenticated") ∷ [])

abbrev page : Browser
page = record {
  cookie = "";
  api_base_url = "";
  origin = "http://localhost:5175";
  decode_uri_component = λ s. s;
  stringify = λ j. "{}";
  parse = parse;
}

-- An API that is set up and knows the session, from its request number one on.
abbrev api : ℕ → SentRequest → Fetched
api zero q = Fetched.rejected false
api _ q =
    if str_eq q.url "/api/v1/admin/auth/me"
    then Fetched.response 200 "me"
    else if str_eq q.url "/api/v1/admin/auth/setup-status"
    then Fetched.response 200 "set up"
    else if str_eq q.url "/api/v1/admin/auth/login"
    then Fetched.response 200 "signed in"
    else Fetched.response 401 "gone"

abbrev staff : Environment
staff = record { plane = Plane.admin; browser = λ k. page; network = api }

abbrev signed_in : AuthState
signed_in = record initial_state {
  user = some me;
  init_state = InitState.ready;
  sent = prepare page "/x" (me_options Plane.admin) ∷ [];
}

abbrev elsewhere : RequestOptions
elsewhere = options Plane.admin "GET" none false

-- The first request fails, the second attempt succeeds, and the console is shown.
require_auth-acts_example :
    let st = acts staff (Action.start ∷ []) initial_state in
    (st.init_state ≡ InitState.ready)
    × (st.setup_required ≡ false)
    × ((u : Body) × (st.user ≡ some u) × IsAnswered staff u)
unfolding acts act bootstrap attempt_from fetch_setup_status settle refresh call request prepare
    finish on_unauthorized property require_auth auth_boundary authenticated_only
require_auth-acts_example = require_auth-acts staff (Action.start ∷ []) refl

bootstrap_settles_example :
    IsSettled (bootstrap staff initial_state)
    × ((n : ℕ) × (n ≤ 2)
        × ((bootstrap staff initial_state).delays ≡ List.◌++◌ initial_state.delays (waits 0 n)))
    × (length (bootstrap staff initial_state).sent ≤ length initial_state.sent + 4)
bootstrap_settles_example = bootstrap_settles staff initial_state

-- One failure costs one wait and one more request.
bootstrap_waits :
    ((bootstrap staff initial_state).delays ≡ 1200 ∷ [])
    × (length (bootstrap staff initial_state).sent ≡ 3)
unfolding bootstrap attempt_from fetch_setup_status settle refresh call request prepare finish
    on_unauthorized property
bootstrap_waits = (refl, refl)

abbrev ready_to_sign_in : AuthState
ready_to_sign_in = record signed_in { user = none }

sign_in_user_example :
    let r = sign_in staff "/login" Json.null ready_to_sign_in in
    ((is_authenticated r.0 ≡ false) × (ready_to_sign_in.user ≡ some me))
    ⊎ ((is_authenticated r.0 ≡ true) × IsAnswered staff me)
unfolding sign_in refresh call request prepare finish on_unauthorized property
sign_in_user_example = sign_in_user staff "/login" Json.null ready_to_sign_in me refl

call_ends_session_example : ((call staff "/x" elsewhere signed_in).1.user ≡ none) ↔ (
    (raw : String) × (api 1 (prepare page "/x" elsewhere) ≡ Fetched.response 401 raw)
    × (false ≡ false)
    × (Plane.admin ≡ Plane.admin))
call_ends_session_example = call_ends_session staff "/x" elsewhere signed_in me refl

abbrev quiet : Activity
quiet = record { last_ping = 0; pings = 0 }

two_pings : (activities (59999 ∷ 60000 ∷ 61000 ∷ 120000 ∷ []) quiet).pings ≡ 2
unfolding activities on_activity
two_pings = refl

abbrev analyst_items : Items
analyst_items = Items.cons (Json.text "tenants.read") Items.nil

abbrev analyst : Body
analyst = ("permissions", Json.array analyst_items) ∷ []
