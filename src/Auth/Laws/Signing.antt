-- ===== src/Auth/Laws/Signing.antt =====
-- How a session begins and ends.
use Prim.Native.String.{◌++◌}
use mathlib.Core.List
use guardian_cloud.Prelude.{
  ◌≡◌, ◌↔◌, ◌⊎◌, refl, inl, inr, sym, ◌∙◌, Bool, true, false, Option, none, some, [], ◌∷◌, String,
  length, ◌otherwise◌, if◌then◌else◌, arith,
}
use guardian_cloud.Client.Json.{Json, Body}
use guardian_cloud.Client.Request.{
  Plane, RequestOptions, ApiError, Fetched, Outcome, prepare, request,
}
use guardian_cloud.Client.Laws.Branches.{request_unauthorized}
use guardian_cloud.Auth.State.{AuthState, Environment, on_unauthorized, notified, call}
use guardian_cloud.Auth.Provider.{
  base_path, options, is_authenticated, login_end, sign_in, rethrown, logout,
}
use guardian_cloud.Auth.Laws.Genuine.{IsAnswered, call_user, refresh-IsGenuine}

-- A sign-in without the result `authenticated` gives no user that was not there before. With it,
-- the user is one that `/me` answers with, and no reason of an earlier end is shown.
pub sign_in_user :
    (env : Environment) (path : String) (body : Json) (st : AuthState) (me : Body)
    → (sign_in env path body st).1.user ≡ some me
    → ((is_authenticated (sign_in env path body st).0 ≡ false) × (st.user ≡ some me))
      ⊎ ((is_authenticated (sign_in env path body st).0 ≡ true) × IsAnswered env me)
unfolding sign_in
sign_in_user env path body st me =
    let (outcome, st1) =
      call env (base_path env.plane ++ path) (options env.plane "POST" (some body) false) st in
    signed (is_authenticated (login_end outcome)) _ st1
      (refresh-IsGenuine env (record st1 { ended_reason = none }) me) (call_user env _ _ st)
  where
    signed :
        (b : Bool) (refreshed st1 : AuthState)
        → (refreshed.user ≡ some me → IsAnswered env me)
        → ((st1.user ≡ st.user) ⊎ (st1.user ≡ none))
        → (if b then refreshed else st1).user ≡ some me
        → ((b ≡ false) × (st.user ≡ some me)) ⊎ ((b ≡ true) × IsAnswered env me)
    signed true refreshed st1 w v e = inr (refl, w e)
    signed false refreshed st1 w (inl same) e = inl (refl, sym same ∙ e)
    signed false refreshed st1 w (inr gone) e = ground arith

-- A request leaves the phase of the start-up and the answer about the set-up as they were.
pub call_frame :
    (env : Environment) (path : String) (o : RequestOptions) (st : AuthState)
    → ((call env path o st).1.init_state ≡ st.init_state)
      × ((call env path o st).1.setup_required ≡ st.setup_required)
unfolding call on_unauthorized
call_frame env path o st = ground arith

rethrown_none :
    (x : Outcome)
    → (rethrown x ≡ none) ↔ (
        ((b : Option Body) × (x ≡ Outcome.returned b))
        ⊎ ((e : ApiError) × (x ≡ Outcome.api_error e) × (e.status ≡ 401)))
rethrown_none (Outcome.returned b) = (λ _. inl (b, refl), λ _. refl)
rethrown_none (Outcome.api_error e) = (λ h. inr (e, refl, ground arith), λ h. ground arith)
rethrown_none (Outcome.network_error m t) = (λ h. ground arith, λ h. ground arith)
rethrown_none Outcome.cancelled = (λ h. ground arith, λ h. ground arith)

-- Signing out leaves no user and no reason, whatever the API answers. It throws exactly where the
-- request has thrown something else than an error with status 401.
pub logout_lem :
    (env : Environment) (st : AuthState)
    → let outcome =
        (call env (base_path env.plane ++ "/logout") (options env.plane "POST" none true) st).0 in
      ((logout env st).1.user ≡ none)
      × ((logout env st).1.ended_reason ≡ none)
      × (((logout env st).0 ≡ none) ↔ (
          ((b : Option Body) × (outcome ≡ Outcome.returned b))
          ⊎ ((e : ApiError) × (outcome ≡ Outcome.api_error e) × (e.status ≡ 401))))
unfolding logout
logout_lem env st = (
  refl,
  refl,
  rethrown_none
      (call env (base_path env.plane ++ "/logout") (options env.plane "POST" none true) st).0,
)

notified_none :
    (p : Plane) (n : Option (Plane × Json)) (st : AuthState) (me : Body)
    → st.user ≡ some me
    → ((notified p n st).user ≡ none) ↔ ((reason : Json) × (n ≡ some (p, reason)))
unfolding on_unauthorized
notified_none p none st me u = (λ h. ground arith, λ h. ground arith)
notified_none Plane.admin (some (Plane.admin, r)) st me u = (λ h. (r, refl), λ h. ground arith)
notified_none Plane.customer (some (Plane.customer, r)) st me u =
    (λ h. (r, refl), λ h. ground arith)
notified_none Plane.admin (some (Plane.customer, r)) st me u =
    (λ h. ground arith, λ h. ground arith)
notified_none Plane.customer (some (Plane.admin, r)) st me u =
    (λ h. ground arith, λ h. ground arith)

-- With a user, a request ends the session exactly when it is of the provider's plane, does not
-- suppress the handler, and the API answers it with status 401.
pub call_ends_session :
    (env : Environment) (path : String) (o : RequestOptions) (st : AuthState) (me : Body)
    → st.user ≡ some me
    → let k = length st.sent in
      ((call env path o st).1.user ≡ none) ↔ (
        (raw : String) × (env.network k (prepare (env.browser k) path o) ≡ Fetched.response 401 raw)
        × (o.suppress_unauthorized ≡ false)
        × (env.plane ≡ (o.plane otherwise Plane.admin)))
unfolding call on_unauthorized
call_ends_session env path o st me u =
    let n = (request (env.browser (length st.sent)) (env.network (length st.sent)) path o).1 in
    let st1 = record st {
      sent = List.◌++◌ st.sent (prepare (env.browser (length st.sent)) path o ∷ []);
    } in
    let why = request_unauthorized _ _ path o env.plane in
    let (lost, told) = notified_none env.plane n st1 me u in
    (
      λ gone.
          let (reason, e) = lost gone in
          let (raw, answer, open', plane, _) = (why reason).0 e in (raw, answer, open', plane),
      λ h.
          let (raw, answer, open', plane) = h in
          told (_, (why _).1 (raw, answer, open', plane, refl)),
    )
