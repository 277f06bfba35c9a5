-- ===== src/Client/Tests.antt =====
-- The client at concrete inputs.
use guardian_cloud.Prelude.{
  ◌≡◌, ◌↔◌, refl, true, false, none, some, List, [], ◌∷◌, String, str_eq, if◌then◌else◌,
}
use guardian_cloud.Client.Json.{Json, property}
use guardian_cloud.Client.Cookie.{strip, until_semicolon, after_first, match_cookie}
use guardian_cloud.Client.Request.{
  Plane, Browser, RequestOptions, SentRequest, Fetched, is_safe_method, read_cookie, upper_is,
  prepare, parsed, reason_or_default, request,
}
use guardian_cloud.Client.Laws.Branches.{header, request_unauthorized}
use guardian_cloud.Client.Laws.CookieJar.{match_cookie-document_cookie}

-- A page with the cookies of both planes; its texts are JSON where they say so.
abbrev browser : Browser
browser = record {
  cookie = "guardian_admin_csrf=a1; guardian_csrf=c2";
  api_base_url = "";
  origin = "http://localhost:5175";
  decode_uri_component = λ s. s;
  stringify = λ j. "{}";
  parse = λ s. if str_eq s "expired" then some (("reason", Json.text "expired") ∷ []) else none;
}

abbrev post : RequestOptions
post = record {
  method = some "post";
  body = some Json.null;
  plane = some Plane.customer;
  suppress_unauthorized = false;
  signal_aborted = false;
  timeout_ms = none;
}

-- Answers, and none in time.
abbrev refuse : SentRequest → Fetched
refuse q = Fetched.response 401 "expired"

abbrev forbid : SentRequest → Fetched
forbid q = Fetched.response 403 "no"

abbrev unreachable : SentRequest → Fetched
unreachable q = Fetched.rejected true

request_unauthorized_example :
    ((request browser refuse "/x" post).1 ≡ some (Plane.customer, Json.text "expired")) ↔ (
      (raw : String) × (refuse (prepare browser "/x" post) ≡ Fetched.response 401 raw)
      × (false ≡ false)
      × (Plane.customer ≡ Plane.customer)
      × (Json.text "expired" ≡ reason_or_default (property "reason" (parsed browser raw))))
request_unauthorized_example =
    request_unauthorized browser refuse "/x" post Plane.customer (Json.text "expired")

abbrev jar : List (String × String)
jar = ("guardian_admin_csrf", "a1") ∷ ("guardian_csrf", "c2") ∷ []

match_cookie-document_cookie_example :
    match_cookie "guardian_csrf" "guardian_admin_csrf=a1; guardian_csrf=c2" ≡ some "c2"
match_cookie-document_cookie_example =
    match_cookie-document_cookie "guardian_csrf" jar refl (refl, refl, refl, (refl, refl, refl, tt))

-- The tokens of the planes are not mixed up.
post_sends_customer_token : header "X-CSRF-Token" (prepare browser "/x" post).headers ≡ some "c2"
unfolding prepare is_safe_method upper_is read_cookie match_cookie strip until_semicolon after_first
post_sends_customer_token = refl
