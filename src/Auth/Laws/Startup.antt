-- ===== src/Auth/Laws/Startup.antt =====
-- `bootstrap`: it always settles, within its budget of attempts.
use Prim.Native.String.{◌++◌}
use mathlib.Core.List
use guardian_cloud.Prelude.{
  ℕ, zero, suc, ◌+◌, ◌*◌, ◌≤◌, ◌≡◌, ◌⊎◌, refl, inl, inr, sym, ap, ◌∙◌, Bool, true, false, Option,
  none, some, List, [], ◌∷◌, String, length, length-append, arith,
}
use guardian_cloud.Client.Json.{Json}
use guardian_cloud.Client.Request.{Plane, RequestOptions}
use guardian_cloud.Auth.State.{InitState, AuthState, Environment, on_unauthorized, notified, call}
use guardian_cloud.Auth.Laws.Cases.{by_status}
use guardian_cloud.Auth.Provider.{
  init_retries, options, base_path, me_options, refresh, refusal_message, fetch_setup_status,
  settle, fail, attempt_from, bootstrap,
}

-- the waiting times of a number of attempts from one on
abbrev pub waits : ℕ → ℕ → List ℕ
waits k zero = []
waits k (suc n) = 1200 * (k + 1) ∷ waits (k + 1) n

-- The start-up has a result: the console, or an error with a text.
abbrev pub IsSettled : AuthState → Type 0
IsSettled st =
    ((st.init_state ≡ InitState.ready) × (st.init_error ≡ none))
    ⊎ ((st.init_state ≡ InitState.error) × ((m : String) × (st.init_error ≡ some m)))

notified_kept :
    (p : Plane) (n : Option (Plane × Json)) (st : AuthState)
    → ((notified p n st).delays ≡ st.delays)
      × ((notified p n st).sent ≡ st.sent)
      × ((notified p n st).init_error ≡ st.init_error)
unfolding on_unauthorized
notified_kept p none st = (refl, refl, refl)
notified_kept p (some (q, r)) st = ground arith

call_kept :
    (env : Environment) (path : String) (o : RequestOptions) (st : AuthState)
    → ((call env path o st).1.delays ≡ st.delays)
      × (length (call env path o st).1.sent ≡ suc (length st.sent))
      × ((call env path o st).1.init_error ≡ st.init_error)
unfolding call
call_kept env path o st =
    let (d, s, e) = notified_kept env.plane _ _ in
    (d, ap length s ∙ length-append st.sent _ ∙ omega arith, e)

fetch_setup_status_kept :
    (env : Environment) (st : AuthState)
    → ((fetch_setup_status env st).1.delays ≡ st.delays)
      × (length (fetch_setup_status env st).1.sent ≤ suc (length st.sent))
      × ((fetch_setup_status env st).1.init_error ≡ st.init_error)
unfolding fetch_setup_status
fetch_setup_status_kept env st =
    let o = record (options Plane.admin "GET" none true) { timeout_ms = some 10000 } in
    let (d, s, e) = call_kept env "/api/v1/admin/auth/setup-status" o st in ground arith

settle_kept :
    (env : Environment) (needs : Bool) (st : AuthState)
    → ((settle env needs st).delays ≡ st.delays)
      × (length (settle env needs st).sent ≤ suc (length st.sent))
      × ((settle env needs st).init_error ≡ st.init_error)
      × ((settle env needs st).init_state ≡ InitState.ready)
unfolding settle refresh
settle_kept env true st = (refl, omega arith, refl, refl)
settle_kept env false st =
    let known = record st { setup_required = false } in
    let (d, s, e) = call_kept env (base_path env.plane ++ "/me") (me_options env.plane) known in
    (d, omega arith, e, refl)

-- What the loop comes to with `left` attempts after the one numbered `k`.
record IsWithin (left k : ℕ) (st st' : AuthState) : Type 0 where
  settled : IsSettled st'
  waited : (n : ℕ) × (n ≤ left) × (st'.delays ≡ List.◌++◌ st.delays (waits k n))
  asked : length st'.sent ≤ length st.sent + (left + 2)

-- a last step that makes at most one request
last-IsWithin :
    (left k : ℕ) (st st1 st' : AuthState)
    → IsSettled st'
    → st1.delays ≡ st.delays
    → length st1.sent ≤ suc (length st.sent)
    → st'.delays ≡ st1.delays
    → length st'.sent ≤ suc (length st1.sent)
    → IsWithin left k st st'
last-IsWithin left k st st1 st' end d s d' s' = record {
  settled = end;
  waited = (0, omega arith, d' ∙ d ∙ sym (List.append-nil st.delays));
  asked = omega arith;
}

settle-IsWithin :
    (env : Environment) (left k : ℕ) (st : AuthState) (needs : Bool)
    → st.init_error ≡ none
    → let st1 = (fetch_setup_status env st).1 in IsWithin left k st (settle env needs st1)
settle-IsWithin env left k st needs clear =
    let st1 = (fetch_setup_status env st).1 in
    let (d, s, e) = fetch_setup_status_kept env st in
    let (d', s', e', r) = settle_kept env needs st1 in
    last-IsWithin left k st st1 (settle env needs st1) (inl (r, e' ∙ e ∙ clear)) d s d' s'

fail-IsWithin :
    (env : Environment) (left k : ℕ) (st : AuthState) (m : String)
    → let st1 = (fetch_setup_status env st).1 in IsWithin left k st (fail m st1)
unfolding fail
fail-IsWithin env left k st m =
    let st1 = (fetch_setup_status env st).1 in
    let (d, s, e) = fetch_setup_status_kept env st in
    last-IsWithin left k st st1 (fail m st1) (inr (refl, (m, refl))) d s refl (omega arith)

attempt_from-IsWithin :
    (env : Environment) (left k : ℕ) (st : AuthState)
    → st.init_error ≡ none
    → IsWithin left k st (attempt_from env left k st)
unfolding attempt_from
attempt_from-IsWithin env zero k st clear =
    by_status (IsWithin 0 k st) (fetch_setup_status env st).0 _ _ _
      (λ needs. settle-IsWithin env 0 k st needs clear)
      (λ c. fail-IsWithin env 0 k st (refusal_message c)) (λ m. fail-IsWithin env 0 k st m)
attempt_from-IsWithin env (suc left) k st clear =
    let (status, st1) = fetch_setup_status env st in
    let waited = record st1 { delays = List.◌++◌ st1.delays (1200 * (k + 1) ∷ []) } in
    let (d, s, e) = fetch_setup_status_kept env st in
    let rest = attempt_from-IsWithin env left (k + 1) waited (e ∙ clear) in
    by_status (IsWithin (suc left) k st) status _ _ _
      (λ needs. settle-IsWithin env (suc left) k st needs clear)
      (λ c. fail-IsWithin env (suc left) k st (refusal_message c))
      (λ m. again-IsWithin left k st st1 (attempt_from env left (k + 1) waited) d s rest)
  where
    again-IsWithin :
        (left k : ℕ) (st st1 st' : AuthState)
        → st1.delays ≡ st.delays
        → length st1.sent ≤ suc (length st.sent)
        → IsWithin left
            (k + 1)
            (record st1 { delays = List.◌++◌ st1.delays (1200 * (k + 1) ∷ []) })
            st'
        → IsWithin (suc left) k st st'
    again-IsWithin left k st st1 st' d s rest =
        let (n, le, w) = rest.waited in
        record {
          settled = rest.settled;
          waited = (
            suc n,
            omega arith,
            w
                ∙ List.append_assoc st1.delays (1200 * (k + 1) ∷ []) (waits (k + 1) n)
                ∙ ap (λ ds. List.◌++◌ ds (waits k (suc n))) d,
          );
          asked = omega (arith, rest.asked);
        }

-- The start-up ends with the console, without an error, or with an error and its text, whatever
-- the API does. It waits at most twice, for 1.2 and then 2.4 seconds, and makes at most four
-- requests.
pub bootstrap_settles :
    (env : Environment) (st : AuthState)
    → let st' = bootstrap env st in
      IsSettled st'
      × ((n : ℕ) × (n ≤ 2) × (st'.delays ≡ List.◌++◌ st.delays (waits 0 n)))
      × (length st'.sent ≤ length st.sent + 4)
unfolding bootstrap
bootstrap_settles env st =
    let within =
      attempt_from-IsWithin env init_retries 0
        (record st { init_state = InitState.loading; init_error = none }) refl in
    (within.settled, within.waited, within.asked)
