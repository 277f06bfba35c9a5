-- ===== src/Client/Laws/Branches.antt =====
-- How `request` ends, when it calls `onUnauthorized`, and which headers it sends.
use guardian_cloud.Prelude.{
  ℕ, ◌≤◌, ◌<◌, ◌≡◌, ◌≢◌, ◌↔◌, ◌⊎◌, refl, inl, inr, Bool, true, false, Option, none, some, List, [],
  ◌∷◌, String, if◌then◌else◌, ◌otherwise◌, str_eq, arith,
}
use guardian_cloud.Client.Json.{Json, Body, property}
use guardian_cloud.Client.Request.{
  Plane, Browser, RequestOptions, SentRequest, Fetched, Outcome, is_safe_method, csrf_cookie,
  read_cookie, prepare, parsed, reason_or_default, finish, new_api_error, request,
}

-- An answer's status is at most 599, so a class of statuses is a range.
abbrev pub IsSuccess : ℕ → Type 0
IsSuccess status = (200 ≤ status) × (status < 300)

-- What is thrown for an answer with a status.
abbrev pub IsErrorOf : ℕ → Body → Outcome → Type 0
IsErrorOf status body (Outcome.api_error e) =
    (e.status ≡ status) × (e.body ≡ body) × (e.reason ≡ property "reason" body)
IsErrorOf _ _ (Outcome.returned _) = ⊥
IsErrorOf _ _ (Outcome.network_error _ _) = ⊥
IsErrorOf _ _ Outcome.cancelled = ⊥

-- A request that is answered returns exactly on a status from 200 to 299: the body of the answer,
-- or nothing on 204. On each other status it throws the error with this status, body and reason.
pub request_answered :
    (b : Browser) (fetch : SentRequest → Fetched) (path : String) (o : RequestOptions) (status : ℕ)
    (raw : String)
    → fetch (prepare b path o) ≡ Fetched.response status raw
    → ((status ≡ 204) × ((request b fetch path o).0 ≡ Outcome.returned none))
      ⊎ ((IsSuccess status
            × (status ≢ 204)
            × ((request b fetch path o).0 ≡ Outcome.returned (some (parsed b raw))))
          ⊎ (((status < 200) ⊎ (300 ≤ status))
              × IsErrorOf status (parsed b raw) (request b fetch path o).0))
unfolding request finish new_api_error
request_answered b fetch path o status raw e = rw e (finish_answered status)
  where
    finish_answered :
        (status : ℕ)
        → ((status ≡ 204) × ((finish b o (Fetched.response status raw)).0 ≡ Outcome.returned none))
          ⊎ ((IsSuccess status
                × (status ≢ 204)
                × ((finish b o (Fetched.response status raw)).0
                    ≡ Outcome.returned (some (parsed b raw))))
              ⊎ (((status < 200) ⊎ (300 ≤ status))
                  × IsErrorOf status (parsed b raw) (finish b o (Fetched.response status raw)).0))
    finish_answered status = ground arith

-- `onUnauthorized` is called exactly when the answer has status 401 and the caller has not
-- suppressed the call. It is given the plane of the request, and the answer's reason or `no_session`.
pub request_unauthorized :
    (b : Browser) (fetch : SentRequest → Fetched) (path : String) (o : RequestOptions) (p : Plane)
    (reason : Json)
    → ((request b fetch path o).1 ≡ some (p, reason)) ↔ (
        (raw : String) × (fetch (prepare b path o) ≡ Fetched.response 401 raw)
        × (o.suppress_unauthorized ≡ false)
        × (p ≡ (o.plane otherwise Plane.admin))
        × (reason ≡ reason_or_default (property "reason" (parsed b raw))))
unfolding request finish
request_unauthorized b fetch path o p reason = finish_unauthorized (fetch (prepare b path o))
  where
    finish_unauthorized :
        (x : Fetched)
        → ((finish b o x).1 ≡ some (p, reason)) ↔ (
            (raw : String) × (x ≡ Fetched.response 401 raw)
            × (o.suppress_unauthorized ≡ false)
            × (p ≡ (o.plane otherwise Plane.admin))
            × (reason ≡ reason_or_default (property "reason" (parsed b raw))))
    finish_unauthorized (Fetched.rejected aborted) = (ground arith, ground arith)
    finish_unauthorized (Fetched.response status raw) = (
      λ h. (raw, ground arith, ground arith, ground arith, ground arith),
      λ h. let (r, e, n, q, z) = h in ground arith,
    )

-- A request that is not answered throws. It throws the rejection itself exactly where the fetch was
-- aborted and the caller's own signal was; else a network error, timed out exactly where the fetch
-- was aborted. It never calls `onUnauthorized`.
pub request_rejected :
    (b : Browser) (fetch : SentRequest → Fetched) (path : String) (o : RequestOptions)
    (aborted : Bool)
    → fetch (prepare b path o) ≡ Fetched.rejected aborted
    → ((request b fetch path o).1 ≡ none)
      × (((request b fetch path o).0 ≡ Outcome.cancelled)
          ↔ ((aborted ≡ true) × (o.signal_aborted ≡ true)))
      × (((request b fetch path o).0 ≡ Outcome.cancelled)
          ⊎ ((m : String) × ((request b fetch path o).0 ≡ Outcome.network_error m aborted)))
unfolding request finish
request_rejected b fetch path o true e = rw e (aborted_end o.signal_aborted _)
  where
    aborted_end :
        (signal : Bool) (m : String)
        → let x =
            if◌then◌else◌ {A = Outcome × Option (Plane × Json)} signal
              (Outcome.cancelled, none)
              (Outcome.network_error m true, none) in
          (x.1 ≡ none)
          × ((x.0 ≡ Outcome.cancelled) ↔ ((true ≡ true) × (signal ≡ true)))
          × ((x.0 ≡ Outcome.cancelled) ⊎ ((m : String) × (x.0 ≡ Outcome.network_error m true)))
    aborted_end true m = (refl, (λ _. (refl, refl), λ _. refl), inl refl)
    aborted_end false m = (refl, (λ e. ground arith, λ e. ground arith), inr (m, refl))
request_rejected b fetch path o false e =
    rw e (refl, (λ e. ground arith, λ e. ground arith), inr (_, refl))

-- the header with a name
abbrev pub header : String → List (String × String) → Option String
header name [] = none
header name ((k, v) ∷ hs) = if str_eq k name then some v else header name hs

-- A request carries `X-CSRF-Token` exactly when its method is none of GET, HEAD and OPTIONS in any
-- case and its plane's cookie is there with a decoded value that is not empty, which the header
-- has. It carries the content type exactly when it has a body, and the session's cookies always.
pub prepare_headers :
    (b : Browser) (path : String) (o : RequestOptions) (token : String)
    → ((header "X-CSRF-Token" (prepare b path o).headers ≡ some token) ↔ (
        (is_safe_method (o.method otherwise "GET") ≡ false)
        × (read_cookie b (csrf_cookie (o.plane otherwise Plane.admin)) ≡ some token)
        × (str_eq token "" ≡ false)))
      × ((header "Content-Type" (prepare b path o).headers ≡ none) ↔ (o.body ≡ none))
      × ((prepare b path o).include_credentials ≡ true)
unfolding prepare
prepare_headers b path o token = ground arith
