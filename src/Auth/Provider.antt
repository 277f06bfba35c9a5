-- ===== src/Auth/Provider.antt =====
-- The operations of `AuthProvider` (web/src/auth/AuthProvider.tsx).
use Prim.Native.String.{◌++◌}
use mathlib.Core.List
use guardian_cloud.Prelude.{
  ℕ, zero, suc, ◌+◌, ◌*◌, Bool, true, false, not, Option, none, some, [], ◌∷◌, String, ◌==◌,
  if◌then◌else◌, str_eq, includes,
}
use guardian_cloud.Client.Json.{Json, Items, Fields, Body, property}
use guardian_cloud.Client.Request.{Plane, RequestOptions, Outcome}
use guardian_cloud.Auth.State.{InitState, AuthState, Environment, call}

abbrev pub base_path : Plane → String
base_path Plane.admin = "/api/v1/admin/auth"
base_path Plane.customer = "/api/v1/auth"

abbrev pub options : Plane → String → Option Json → Bool → RequestOptions
options plane method body suppress = record {
  method = some method;
  body = body;
  plane = some plane;
  suppress_unauthorized = suppress;
  signal_aborted = false;
  timeout_ms = none;
}

abbrev pub me_options : Plane → RequestOptions
me_options plane = options plane "GET" none true

abbrev pub returned_body : Outcome → Option Body
returned_body (Outcome.returned b) = b
returned_body _ = none

-- `refresh`: a failed request and an answer without content both leave no user.
unfoldable pub refresh : Environment → AuthState → Option Body × AuthState
unfolding call
refresh env st =
    let (outcome, st1) = call env (base_path env.plane ++ "/me") (me_options env.plane) st in
    (returned_body outcome, record st1 { user = returned_body outcome })

-- How `fetchSetupStatus` ends: with a status, with an answer that is an error, or with another
-- error, of which the text that `bootstrap` shows for it is kept.
pub data SetupStatus : Type 0 where
  answered : Bool → SetupStatus
  refused : ℕ → SetupStatus
  failed : String → SetupStatus

-- `Boolean(value)`
abbrev pub truthy : Option Json → Bool
truthy none = false
truthy (some Json.null) = false
truthy (some (Json.flag b)) = b
truthy (some (Json.num n)) = not (n == 0)
truthy (some (Json.text t)) = not (str_eq t "")
truthy (some _) = true

abbrev pub setup_status_of : Outcome → SetupStatus
setup_status_of (Outcome.returned (some b)) =
    SetupStatus.answered (truthy (property "setup_required" b))
setup_status_of (Outcome.api_error e) = SetupStatus.refused e.status
setup_status_of (Outcome.network_error m _) = SetupStatus.failed m
setup_status_of _ = SetupStatus.failed "Something went wrong starting the Guardian console."

unfoldable pub fetch_setup_status : Environment → AuthState → SetupStatus × AuthState
unfolding call property
fetch_setup_status env st = elim env.plane [
  | Plane.customer ↦ (SetupStatus.answered false, st)
  | Plane.admin ↦
      let o = record (options Plane.admin "GET" none true) { timeout_ms = some 10000 } in
      let (outcome, st1) = call env "/api/v1/admin/auth/setup-status" o st in
      (setup_status_of outcome, st1)
]

-- `bootstrap` once the status is known
unfoldable pub settle : Environment → Bool → AuthState → AuthState
unfolding refresh
settle env needs_setup st =
    let known = record st { setup_required = needs_setup } in
    let probed = (refresh env known).1 in
    record (if needs_setup then known else probed) { init_state = InitState.ready }

unfoldable pub fail : String → AuthState → AuthState
fail message st = record st { init_error = some message; init_state = InitState.error }

abbrev pub refusal_message : ℕ → String
refusal_message status =
    if status == 404
    then "The Guardian API is running an older version that does not support this app. Rebuild and restart the API, then try again."
    else "Guardian could not report its setup status. The API responded, but with an error."

-- The loop of `bootstrap` from an attempt on, with the number of attempts after it.
unfoldable pub attempt_from : Environment → ℕ → ℕ → AuthState → AuthState
unfolding fetch_setup_status settle fail
attempt_from env zero attempt st =
    let (status, st1) = fetch_setup_status env st in
    elim status [
      | SetupStatus.answered needs ↦ settle env needs st1
      | SetupStatus.refused code ↦ fail (refusal_message code) st1
      | SetupStatus.failed message ↦ fail message st1
    ]
attempt_from env (suc left) attempt st =
    let (status, st1) = fetch_setup_status env st in
    let waited = record st1 { delays = List.◌++◌ st1.delays (1200 * (attempt + 1) ∷ []) } in
    let rest = attempt_from env left (attempt + 1) waited in
    elim status [
      | SetupStatus.answered needs ↦ settle env needs st1
      | SetupStatus.refused code ↦ fail (refusal_message code) st1
      | SetupStatus.failed _ ↦ rest
    ]

-- `INIT_RETRIES`
abbrev pub init_retries : ℕ
init_retries = 2

unfoldable pub bootstrap : Environment → AuthState → AuthState
unfolding attempt_from
bootstrap env st =
    attempt_from env init_retries 0
      (record st { init_state = InitState.loading; init_error = none })

unfoldable pub refresh_setup_status : Environment → AuthState → AuthState
unfolding fetch_setup_status
refresh_setup_status env st =
    let (status, st1) = fetch_setup_status env st in
    elim status [
      | SetupStatus.answered needs ↦ record st1 { setup_required = needs }
      | SetupStatus.refused _ ↦ st1
      | SetupStatus.failed _ ↦ st1
    ]

-- How `login` and `verifyMfa` end: with the answer, with what the request throws, or with the
-- `TypeError` of reading the status of an answer without content.
pub data LoginEnd : Type 0 where
  result : Body → LoginEnd
  threw : Outcome → LoginEnd
  type_error : LoginEnd

abbrev pub login_end : Outcome → LoginEnd
login_end (Outcome.returned (some b)) = LoginEnd.result b
login_end (Outcome.returned none) = LoginEnd.type_error
login_end outcome = LoginEnd.threw outcome

abbrev pub is_text : String → Option Json → Bool
is_text t (some (Json.text u)) = str_eq u t
is_text t _ = false

-- `result.status === 'authenticated'`, where there is a result
abbrev pub is_authenticated : LoginEnd → Bool
is_authenticated (LoginEnd.result b) = is_text "authenticated" (property "status" b)
is_authenticated _ = false

-- The common part of `login` and `verifyMfa`.
unfoldable pub sign_in : Environment → String → Json → AuthState → LoginEnd × AuthState
unfolding call refresh property
sign_in env path body st =
    let (outcome, st1) =
      call env (base_path env.plane ++ path) (options env.plane "POST" (some body) false) st in
    let end = login_end outcome in
    let refreshed = (refresh env (record st1 { ended_reason = none })).1 in
    (end, if is_authenticated end then refreshed else st1)

abbrev pair : String → String → String → String → Json
pair k v l w = Json.object (Fields.field k (Json.text v) (Fields.field l (Json.text w) Fields.end))

unfoldable pub login : Environment → String → String → AuthState → LoginEnd × AuthState
unfolding sign_in
login env email password st = sign_in env "/login" (pair "email" email "password" password) st

unfoldable pub verify_mfa : Environment → String → String → AuthState → LoginEnd × AuthState
unfolding sign_in
verify_mfa env code method st = sign_in env "/login/mfa" (pair "code" code "method" method) st

-- what `logout` throws
abbrev pub rethrown : Outcome → Option Outcome
rethrown (Outcome.returned _) = none
rethrown (Outcome.api_error e) = if e.status == 401 then none else some (Outcome.api_error e)
rethrown outcome = some outcome

unfoldable pub logout : Environment → AuthState → Option Outcome × AuthState
unfolding call
logout env st =
    let (outcome, st1) =
      call env (base_path env.plane ++ "/logout") (options env.plane "POST" none true) st in
    (rethrown outcome, record st1 { user = none; ended_reason = none })

unfoldable pub clear_ended_reason : AuthState → AuthState
clear_ended_reason st = record st { ended_reason = none }

unfoldable pub has_item : String → Items → Bool
has_item t Items.nil = false
has_item t (Items.cons j items) = if is_text t (some j) then true else has_item t items

-- `includes` of an array or of a text
abbrev pub includes_permission : String → Option Json → Bool
includes_permission p (some (Json.array items)) = has_item p items
includes_permission p (some (Json.text t)) = includes t p
includes_permission p _ = false

-- `can`, of a user whose permissions are absent, null, an array or a text
unfoldable pub can : AuthState → String → Bool
unfolding has_item includes property
can st permission = elim st.user [
  | none ↦ false
  | some me ↦ includes_permission permission (property "permissions" me)
]
