-- ===== src/Theme/DashboardApi.antt =====
-- A user's own theme of the dashboard at the API (web/src/theme/adminTheme.tsx): what the answers
-- mean.
use Prim.Native.String.{◌++◌}
use guardian_cloud.Prelude.{
  ℕ, Bool, true, false, Option, none, some, [], ◌∷◌, String, str_eq, if◌then◌else◌, ◌otherwise◌,
  ◌>>=◌, to_string,
}
use guardian_cloud.Client.Json.{Json, Fields, Body, property}
use guardian_cloud.Theme.Tokens.{ColorScheme, ThemeTokens, ◌or_text◌}
use guardian_cloud.Theme.Platform.{Attempt, text_member}

pub data DashboardThemeMode : Type 0 where
  follow_brand personal : DashboardThemeMode

pub record DashboardThemeResponse : Type 0 where
  pub mode : DashboardThemeMode
  pub theme : Option ThemeTokens

abbrev pub brand : DashboardThemeResponse
brand = record { mode = DashboardThemeMode.follow_brand; theme = none }

abbrev pub is_personal_mode : DashboardThemeMode → Bool
is_personal_mode DashboardThemeMode.personal = true
is_personal_mode DashboardThemeMode.follow_brand = false

-- an object's members, in their order
unfoldable pub members : Fields → Body
members Fields.end = []
members (Fields.field k v rest) = (k, v) ∷ members rest

abbrev text_or_empty : String → Body → String
text_or_empty key body = text_member key body otherwise ""

-- `colorScheme`, where it is one of the two
abbrev known_scheme : Option String → Option ColorScheme
known_scheme none = none
known_scheme (some t) =
    if str_eq t "light"
    then some ColorScheme.light
    else if str_eq t "dark"
    then some ColorScheme.dark
    else none

-- The tokens that an object with a scheme stands for; the ones that it lacks are missing texts.
unfoldable pub tokens_of : ColorScheme → Body → ThemeTokens
unfolding text_member
tokens_of scheme body = record {
  ink = text_or_empty "ink" body;
  ink_soft = text_or_empty "inkSoft" body;
  mist = text_or_empty "mist" body;
  mist_deep = text_or_empty "mistDeep" body;
  signal = text_or_empty "signal" body;
  signal_soft = text_or_empty "signalSoft" body;
  alert = text_or_empty "alert" body;
  atmosphere_mode = text_or_empty "atmosphereMode" body;
  color_scheme = scheme;
  accent = text_or_empty "accent" body;
  accent2 = text_or_empty "accent2" body;
  radius = text_or_empty "radius" body;
  radius_sm = text_or_empty "radiusSm" body;
  radius_lg = text_or_empty "radiusLg" body;
  font_display = text_or_empty "fontDisplay" body;
  font_body = text_or_empty "fontBody" body;
  pack_id = text_member "packId" body;
}

-- `isThemeTokens` of the members of an object: the tokens, where it answers true
unfoldable pub theme_tokens_of : Body → Option ThemeTokens
unfolding tokens_of text_member
theme_tokens_of body = do
  scheme ← known_scheme (text_member "colorScheme" body)
  accent ← text_member "accent" body
  if str_eq accent "" then none else some (tokens_of scheme body)

-- `isThemeTokens` of any value: no text, number or array has a `colorScheme`
unfoldable pub is_theme_tokens : Json → Option ThemeTokens
unfolding members theme_tokens_of
is_theme_tokens (Json.object fields) = theme_tokens_of (members fields)
is_theme_tokens _ = none

abbrev pub is_some : Option ThemeTokens → Bool
is_some none = false
is_some (some _) = true

abbrev pub personal_or_brand : Option ThemeTokens → DashboardThemeResponse
personal_or_brand none = brand
personal_or_brand (some t) = record { mode = DashboardThemeMode.personal; theme = some t }

-- `res.mode === mode`
abbrev pub mode_is : String → Body → Bool
mode_is mode body = str_eq (text_member "mode" body otherwise "") mode

abbrev theme_member : Body → Option ThemeTokens
theme_member body = property "theme" body >>= is_theme_tokens

abbrev pub first_theme : Option ThemeTokens → Option ThemeTokens → Option ThemeTokens
first_theme none o = o
first_theme (some t) _ = some t

-- the theme that an object has, or is
abbrev pub theme_of_answer : Body → Option ThemeTokens
theme_of_answer body =
    first_theme (if mode_is "personal" body then theme_member body else none) (theme_tokens_of body)

-- `parseDashboardResponse`
unfoldable pub parse_dashboard_response : Json → DashboardThemeResponse
unfolding members text_member theme_tokens_of is_theme_tokens property
parse_dashboard_response (Json.object fields) =
    let body = members fields in
    if mode_is "follow_brand" body then brand else personal_or_brand (theme_of_answer body)
parse_dashboard_response _ = brand

abbrev scheme_text : ColorScheme → String
scheme_text ColorScheme.light = "light"
scheme_text ColorScheme.dark = "dark"

abbrev pack_field : Option String → Fields
pack_field none = Fields.end
pack_field (some id) = Fields.field "packId" (Json.text id) Fields.end

-- the second half of the members
abbrev colored : ThemeTokens → Fields
colored t = Fields.field "colorScheme" (Json.text (scheme_text t.color_scheme)) (
    Fields.field "accent" (Json.text t.accent) (
      Fields.field "accent2" (Json.text t.accent2) (
        Fields.field "radius" (Json.text t.radius) (
          Fields.field "radiusSm" (Json.text t.radius_sm) (
            Fields.field "radiusLg" (Json.text t.radius_lg) (
              Fields.field "fontDisplay" (Json.text t.font_display)
                (Fields.field "fontBody" (Json.text t.font_body) (pack_field t.pack_id))))))))

-- the tokens as an object, the body that `putDashboardTheme` sends
unfoldable pub dashboard_body : ThemeTokens → Fields
dashboard_body t = Fields.field "ink" (Json.text t.ink) (
    Fields.field "inkSoft" (Json.text t.ink_soft) (
      Fields.field "mist" (Json.text t.mist) (
        Fields.field "mistDeep" (Json.text t.mist_deep) (
          Fields.field "signal" (Json.text t.signal) (
            Fields.field "signalSoft" (Json.text t.signal_soft) (
              Fields.field "alert" (Json.text t.alert)
                (Fields.field "atmosphereMode" (Json.text t.atmosphere_mode) (colored t))))))))

-- How a request ends: with a value, with a status that is not `ok` and a text, or by a rejection
-- with a message, that of `fetch` or that of `json`.
pub data Reply : Type 0 where
  answered : Json → Reply
  refused : ℕ → String → Reply
  rejected : String → Reply

unfoldable pub fetch_dashboard_theme : Reply → DashboardThemeResponse
unfolding parse_dashboard_response
fetch_dashboard_theme (Reply.answered json) = parse_dashboard_response json
fetch_dashboard_theme (Reply.refused _ _) = brand
fetch_dashboard_theme (Reply.rejected _) = brand

unfoldable pub put_dashboard_theme : Reply → Attempt DashboardThemeResponse
unfolding parse_dashboard_response
put_dashboard_theme (Reply.answered json) = Attempt.got (parse_dashboard_response json)
put_dashboard_theme (Reply.refused status body) =
    Attempt.thrown (body or_text ("failed to save dashboard theme (" ++ (to_string status ++ ")")))
put_dashboard_theme (Reply.rejected message) = Attempt.thrown message

unfoldable pub delete_dashboard_theme : Reply → Attempt DashboardThemeResponse
unfolding parse_dashboard_response
delete_dashboard_theme (Reply.answered json) = Attempt.got (parse_dashboard_response json)
delete_dashboard_theme (Reply.refused status body) =
    Attempt.thrown (body or_text ("failed to clear dashboard theme (" ++ (to_string status ++ ")")))
delete_dashboard_theme (Reply.rejected message) = Attempt.thrown message
