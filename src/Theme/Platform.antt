-- ===== src/Theme/Platform.antt =====
-- The theme of the platform at the API (web/src/theme/ThemeProvider.tsx): what is sent, and how an
-- answer is read.
use Prim.Native.String.{◌++◌}
use guardian_cloud.Prelude.{
  ℕ, Option, none, some, [], ◌∷◌, String, str_eq, if◌then◌else◌, ◌otherwise◌, ◌>>=◌, to_string,
}
use guardian_cloud.Client.Json.{Json, Body, property}
use guardian_cloud.Theme.Tokens.{ColorScheme, ThemeTokens, PlatformTheme, ◌or_text◌}
use guardian_cloud.Theme.Schemes.{defaults_of, plain_atmosphere}

-- A member that is a text; one that is absent or null gives nothing. The API has no other values
-- here.
abbrev text_of : Json → Option String
text_of (Json.text t) = some t
text_of _ = none

unfoldable pub text_member : String → Body → Option String
unfolding property
text_member key body = property key body >>= text_of

abbrev number_of : Json → Option ℕ
number_of (Json.num n) = some n
number_of _ = none

unfoldable pub number_member : String → Body → Option ℕ
unfolding property
number_member key body = property key body >>= number_of

abbrev pub scheme_of : Option String → ColorScheme
scheme_of none = ColorScheme.dark
scheme_of (some t) = if str_eq t "light" then ColorScheme.light else ColorScheme.dark

-- the first of two that is there, `a ?? b`
abbrev first_of : Option String → Option String → Option String
first_of none b = b
first_of (some a) _ = some a

unfoldable pub map_theme : Body → PlatformTheme
unfolding text_member number_member
map_theme body =
    let scheme = scheme_of (text_member "color_scheme" body) in
    let base = defaults_of scheme in
    let signal = text_member "signal" body in
    let accent = first_of (text_member "accent" body) signal otherwise base.accent in
    record {
      tokens = record {
        ink = text_member "ink" body otherwise base.ink;
        ink_soft = text_member "ink_soft" body otherwise base.ink_soft;
        mist = text_member "mist" body otherwise base.mist;
        mist_deep = text_member "mist_deep" body otherwise base.mist_deep;
        signal = signal otherwise accent;
        signal_soft = text_member "signal_soft" body otherwise base.signal_soft;
        alert = text_member "alert" body otherwise base.alert;
        atmosphere_mode = text_member "atmosphere_mode" body otherwise base.atmosphere_mode;
        color_scheme = scheme;
        accent = accent;
        accent2 =
            first_of (text_member "accent2" body) (text_member "accent_2" body)
            otherwise base.accent2;
        radius = text_member "radius" body otherwise base.radius;
        radius_sm = text_member "radius_sm" body otherwise base.radius_sm;
        radius_lg = text_member "radius_lg" body otherwise base.radius_lg;
        font_display = text_member "font_display" body otherwise base.font_display;
        font_body = text_member "font_body" body otherwise base.font_body;
        pack_id = none;
      };
      version = number_member "version" body otherwise 0;
      updated_at = text_member "updated_at" body;
    }

-- How a request of the theme ends: with an object, with a status that is not `ok` and a text, or
-- by a rejection with a message.
pub data Answer : Type 0 where
  answered : Body → Answer
  refused : ℕ → String → Answer
  rejected : String → Answer

-- a value, or the message of what is thrown
pub data Attempt {ℓ} (A : Type ℓ) : Type ℓ where
  got : A → Attempt A
  thrown : String → Attempt A

unfoldable pub fetch_theme : Answer → Attempt PlatformTheme
unfolding map_theme
fetch_theme (Answer.answered body) = Attempt.got (map_theme body)
fetch_theme (Answer.refused status _) =
    Attempt.thrown ("theme fetch failed (" ++ (to_string status ++ ")"))
fetch_theme (Answer.rejected message) = Attempt.thrown message

abbrev scheme_text : ColorScheme → String
scheme_text ColorScheme.light = "light"
scheme_text ColorScheme.dark = "dark"

abbrev pub plain_soft : ColorScheme → String
plain_soft ColorScheme.dark = "rgba(129,140,248,0.15)"
plain_soft ColorScheme.light = "#e0e7ff"

-- the accent that `putTheme` sends
abbrev pub sent_accent : ThemeTokens → String
sent_accent tokens = tokens.accent or_text (tokens.signal or_text "#6366f1")

-- the body that `putTheme` sends
unfoldable pub theme_body : ThemeTokens → Body
theme_body tokens =
    let accent = sent_accent tokens in
    ("ink", Json.text tokens.ink)
    ∷ ("ink_soft", Json.text tokens.ink_soft)
    ∷ ("mist", Json.text tokens.mist)
    ∷ ("mist_deep", Json.text tokens.mist_deep)
    ∷ ("signal", Json.text (tokens.signal or_text accent))
    ∷ ("signal_soft", Json.text (tokens.signal_soft or_text plain_soft tokens.color_scheme))
    ∷ ("alert", Json.text tokens.alert)
    ∷ (
      "atmosphere_mode",
      Json.text (tokens.atmosphere_mode or_text plain_atmosphere tokens.color_scheme),
    )
    ∷ ("color_scheme", Json.text (scheme_text tokens.color_scheme))
    ∷ ("accent", Json.text accent)
    ∷ ("accent2", Json.text (tokens.accent2 or_text accent))
    ∷ ("radius", Json.text tokens.radius)
    ∷ ("radius_sm", Json.text tokens.radius_sm)
    ∷ ("radius_lg", Json.text tokens.radius_lg)
    ∷ ("font_display", Json.text tokens.font_display)
    ∷ ("font_body", Json.text tokens.font_body)
    ∷ []

-- `putTheme`, of the answers to the two requests that it makes
unfoldable pub put_theme : Answer → Answer → Attempt PlatformTheme
unfolding fetch_theme
put_theme (Answer.answered _) fetched = fetch_theme fetched
put_theme (Answer.refused status text) _ =
    Attempt.thrown (text or_text ("theme save failed (" ++ (to_string status ++ ")")))
put_theme (Answer.rejected message) _ = Attempt.thrown message
