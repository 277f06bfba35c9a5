-- ===== src/Client/Request.antt =====
-- `request`, `ApiError` and the tables of web/src/lib/apiClient.ts.
use Prim.Native.Char.{code}
use Prim.Native.String.{◌++◌}
use mathlib.Core.List
use mathlib.Core.Option
use guardian_cloud.Prelude.{
  ℕ, ◌-◌, Bool, true, false, not, ◌&&◌, ◌||◌, Option, none, some, List, [], ◌∷◌, String, ltb, leb,
  ◌==◌, if◌then◌else◌, ◌otherwise◌, to_string, str_eq,
}
use guardian_cloud.Client.Json.{Json, Body, property}
use guardian_cloud.Client.Cookie.{match_cookie}

pub data Plane : Type 0 where
  admin customer : Plane

abbrev pub csrf_cookie : Plane → String
csrf_cookie Plane.admin = "guardian_admin_csrf"
csrf_cookie Plane.customer = "guardian_csrf"

unfoldable pub login_path_for : Plane → String
login_path_for Plane.admin = "/super/login"
login_path_for Plane.customer = "/login"

-- The code of a letter after `toUpperCase`, over ASCII.
abbrev upper : ℕ → ℕ
upper c = if leb b'a' c && leb c b'z' then c - 32 else c

-- `method.toUpperCase() === word`
unfoldable pub upper_is : String → String → Bool
upper_is String.[] String.[] = true
upper_is (String.◌∷◌ c s) (String.◌∷◌ d t) = upper (code c) == code d && upper_is s t
upper_is _ _ = false

-- `SAFE_METHODS.has(method.toUpperCase())`
unfoldable pub is_safe_method : String → Bool
unfolding upper_is
is_safe_method m = upper_is m "GET" || upper_is m "HEAD" || upper_is m "OPTIONS"

-- What the browser and JavaScript's runtime give: `document.cookie`, the two ends of the address,
-- `decodeURIComponent` on the escapes that it accepts, `JSON.stringify`, and `JSON.parse` on a text:
-- an object, or nothing where it throws.
pub record Browser : Type 0 where
  pub cookie : String
  pub api_base_url : String
  pub origin : String
  pub decode_uri_component : String → String
  pub stringify : Json → String
  pub parse : String → Option Body

pub record RequestOptions : Type 0 where
  pub method : Option String
  pub body : Option Json
  pub plane : Option Plane
  pub suppress_unauthorized : Bool
  pub signal_aborted : Bool  -- `signal?.aborted` when the request has failed
  pub timeout_ms : Option ℕ

-- what is handed to `fetch`, less the abort signal; `credentials: 'include'` is the flag
pub record SentRequest : Type 0 where
  pub url : String
  pub method : String
  pub headers : List (String × String)
  pub include_credentials : Bool
  pub body : Option String

-- how `fetch` ends: an answer with its status and text, or a rejection, by an `AbortError` or not
pub data Fetched : Type 0 where
  response : ℕ → String → Fetched
  rejected : Bool → Fetched

pub record ApiError : Type 0 where
  pub status : ℕ
  pub message : String
  pub reason : Option Json
  pub retry_after_seconds : Option ℕ
  pub body : Body

-- How `request` ends: with a body or with nothing, or by what it throws.
pub data Outcome : Type 0 where
  returned : Option Body → Outcome
  api_error : ApiError → Outcome
  network_error : String → Bool → Outcome
  cancelled : Outcome

abbrev is_text : Option Json → Option String
is_text (some (Json.text t)) = some t
is_text _ = none

abbrev is_num : Option Json → Option ℕ
is_num (some (Json.num n)) = some n
is_num _ = none

-- the constructor of `ApiError`
unfoldable pub new_api_error : ℕ → Body → ApiError
unfolding property
new_api_error status body = record {
  status = status;
  message = is_text (property "error" body) otherwise "Request failed (" ++ to_string status ++ ")";
  reason = property "reason" body;
  retry_after_seconds = is_num (property "retry_after_seconds" body);
  body = body;
}

unfoldable pub read_cookie : Browser → String → Option String
read_cookie b name = Option.map b.decode_uri_component (match_cookie name b.cookie)

-- a header for a token that is there and not empty
abbrev pub csrf_header : Option String → List (String × String)
csrf_header none = []
csrf_header (some token) = if str_eq token "" then [] else ("X-CSRF-Token", token) ∷ []

abbrev content_type : Option Json → List (String × String)
content_type none = []
content_type (some _) = ("Content-Type", "application/json") ∷ []

-- the request that goes out
unfoldable pub prepare : Browser → String → RequestOptions → SentRequest
prepare b path o =
    let method = o.method otherwise "GET" in
    let plane = o.plane otherwise Plane.admin in
    record {
      url = b.api_base_url ++ path;
      method = method;
      headers =
          List.◌++◌ (content_type o.body)
            (if is_safe_method method then [] else csrf_header (read_cookie b (csrf_cookie plane)));
      include_credentials = true;
      body = Option.map b.stringify o.body;
    }

-- `response.ok`
abbrev pub is_ok : ℕ → Bool
is_ok status = leb 200 status && ltb status 300

-- the `parsed` of an answer's text
abbrev pub parsed : Browser → String → Body
parsed b raw = if str_eq raw "" then [] else b.parse raw otherwise (("error", Json.text raw) ∷ [])

-- `parsed.reason ?? 'no_session'`
abbrev pub reason_or_default : Option Json → Json
reason_or_default none = Json.text "no_session"
reason_or_default (some Json.null) = Json.text "no_session"
reason_or_default (some j) = j

unreachable_message : Browser → String
unreachable_message b =
    "Could not reach the Guardian API at " ++ b.api_base_url
    ++ ". It may be stopped, or it may be rejecting this origin (" ++ b.origin
    ++ ") — check the API's CORS allowlist."

-- `request` after `fetch`: how it ends, and the call of `onUnauthorized` that it makes, if any
unfoldable pub finish : Browser → RequestOptions → Fetched → Outcome × Option (Plane × Json)
unfolding unreachable_message
finish b o (Fetched.rejected aborted) =
    if aborted && o.signal_aborted then (Outcome.cancelled, none) else (
      Outcome.network_error
          (if aborted then "The Guardian API did not respond in time." else unreachable_message b)
          aborted,
      none,
    )
finish b o (Fetched.response status raw) =
    if status == 204
    then (Outcome.returned none, none)
    else if is_ok status
    then (Outcome.returned (some (parsed b raw)), none)
    else (
      Outcome.api_error (new_api_error status (parsed b raw)),
      if status == 401 && not o.suppress_unauthorized
          then some
              (o.plane otherwise Plane.admin, reason_or_default (property "reason" (parsed b raw)))
          else none,
    )

-- `request`, where `fetch` is what the network does with a request
unfoldable pub request :
    Browser → (SentRequest → Fetched) → String → RequestOptions → Outcome × Option (Plane × Json)
unfolding prepare finish
request b fetch path o = finish b o (fetch (prepare b path o))
