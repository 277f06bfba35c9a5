-- ===== src/Auth/State.antt =====
-- The state of `AuthProvider` (web/src/auth/AuthProvider.tsx), its handler of lost sessions, and a
-- request from it.
use mathlib.Core.List
use guardian_cloud.Prelude.{
  ℕ, Bool, true, false, Option, none, some, List, [], ◌∷◌, String, if◌then◌else◌, length,
}
use guardian_cloud.Client.Json.{Json, Body}
use guardian_cloud.Client.Request.{
  Plane, Browser, RequestOptions, SentRequest, Fetched, Outcome, prepare, request,
}

pub data InitState : Type 0 where
  loading ready error : InitState

-- `user` is the object that `/me` answers with. `sent` and `delays` are the traces of the requests
-- and of the waiting times, the oldest first.
pub record AuthState : Type 0 where
  pub user : Option Body
  pub init_state : InitState
  pub init_error : Option String
  pub setup_required : Bool
  pub ended_reason : Option Json
  pub sent : List SentRequest
  pub delays : List ℕ

-- what `useState` begins with
abbrev pub initial_state : AuthState
initial_state = record {
  user = none;
  init_state = InitState.loading;
  init_error = none;
  setup_required = false;
  ended_reason = none;
  sent = [];
  delays = [];
}

-- The plane of a provider, and what the browser and the network are at its request of a number:
-- the cookies and the answers change from one request to the next.
pub record Environment : Type 0 where
  pub plane : Plane
  pub browser : ℕ → Browser
  pub network : ℕ → SentRequest → Fetched

abbrev pub same_plane : Plane → Plane → Bool
same_plane Plane.admin Plane.admin = true
same_plane Plane.customer Plane.customer = true
same_plane _ _ = false

abbrev end_session : Json → Option Body → AuthState → AuthState
end_session reason none st = st
end_session reason (some _) st = record st { user = none; ended_reason = some reason }

-- The handler that the provider gives to `setUnauthorizedHandler`; its `userRef` is the user of
-- the last render, which here is the user.
unfoldable pub on_unauthorized : Plane → Plane → Json → AuthState → AuthState
on_unauthorized plane failed_plane reason st =
    if same_plane failed_plane plane then end_session reason st.user st else st

abbrev pub notified : Plane → Option (Plane × Json) → AuthState → AuthState
notified plane none st = st
notified plane (some (failed_plane, reason)) st = on_unauthorized plane failed_plane reason st

-- A request of the page, with the call of the handler that it makes.
unfoldable pub call : Environment → String → RequestOptions → AuthState → Outcome × AuthState
unfolding on_unauthorized
call env path o st =
    let k = length st.sent in
    let (outcome, notice) = request (env.browser k) (env.network k) path o in
    let q = prepare (env.browser k) path o in
    (outcome, notified env.plane notice (record st { sent = List.◌++◌ st.sent (q ∷ []) }))
