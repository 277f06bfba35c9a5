-- ===== src/Theme/Provider.antt =====
-- `ThemeProvider` (web/src/theme/ThemeProvider.tsx). `THEME_DB_ONLY` is true, so nothing is kept in
-- the browser's storage: `readLocalScheme` and `readSavedTheme` give null, `persistTheme` does
-- nothing, `withLocalScheme` is the identity, and the listener of `storage` is not there.
use guardian_cloud.Prelude.{
  ℕ, ◌*◌, min, max, Bool, true, false, Option, none, some, List, [], ◌∷◌, String, ◌==◌,
  if◌then◌else◌, ◌otherwise◌,
}
use guardian_cloud.Theme.Tokens.{ColorScheme, ThemeTokens, PlatformTheme, watchline_defaults}
use guardian_cloud.Theme.Schemes.{apply_scheme_to_theme}
use guardian_cloud.Theme.Document.{Document, PaintOptions, apply_theme_tokens}
use guardian_cloud.Theme.Platform.{Answer, Attempt, fetch_theme, put_theme}

-- `delay` is the variable of the polling effect: how long it waits before its next request.
pub record ThemeState : Type 0 where
  pub theme : PlatformTheme
  pub local_scheme : Option ColorScheme
  pub loading : Bool
  pub error : Option String
  pub version_ref : ℕ
  pub delay : ℕ
  pub document : Document

abbrev pub theme_poll_ms : ℕ
theme_poll_ms = 15000

abbrev pub max_delay : ℕ
max_delay = 60000

unfoldable pub initial_theme : PlatformTheme
unfolding apply_scheme_to_theme
initial_theme = record {
  tokens = apply_scheme_to_theme watchline_defaults watchline_defaults.color_scheme;
  version = 0;
  updated_at = none;
}

abbrev pub no_options : PaintOptions
no_options = record { force = false; allow_while_personal = false }

-- `applyThemeTokens(tokens, options)` on the page
abbrev pub painted : ThemeTokens → PaintOptions → ThemeState → ThemeState
painted tokens o st = record st { document = apply_theme_tokens tokens o st.document }

-- The first part of the polling effect: the theme is painted, and a request goes out.
unfoldable pub mount_theme : Document → ThemeState
unfolding initial_theme apply_theme_tokens
mount_theme d = painted initial_theme.tokens no_options (record {
  theme = initial_theme;
  local_scheme = none;
  loading = true;
  error = none;
  version_ref = 0;
  delay = theme_poll_ms;
  document = d;
})

-- the updater that the changes of scheme give to `setTheme`
unfoldable pub with_scheme : ColorScheme → ThemeState → ThemeState
unfolding apply_scheme_to_theme apply_theme_tokens
with_scheme scheme st =
    let next = apply_scheme_to_theme st.theme.tokens scheme in
    painted next no_options (record st { theme = record st.theme { tokens = next } })

unfoldable pub set_local_scheme : Option ColorScheme → ThemeState → ThemeState
unfolding with_scheme
set_local_scheme scheme st =
    with_scheme (scheme otherwise st.theme.tokens.color_scheme)
      (record st { local_scheme = scheme })

unfoldable pub apply_local : ThemeTokens → Option ℕ → ThemeState → ThemeState
unfolding apply_theme_tokens
apply_local tokens version st =
    painted tokens (record no_options { force = true })
      (record st {
        local_scheme = some tokens.color_scheme;
        theme = record st.theme { tokens = tokens; version = version otherwise st.theme.version };
      })

-- what `refresh` and `save` do with the theme of the API
unfoldable pub take_remote : PlatformTheme → ThemeState → ThemeState
unfolding apply_theme_tokens
take_remote remote st = painted remote.tokens no_options (record st {
  local_scheme = some remote.tokens.color_scheme;
  version_ref = remote.version;
  theme = remote;
  error = none;
})

-- The catch of `refresh`. The theme that is set has no time of an update.
unfoldable pub fall_back : String → ThemeState → ThemeState
unfolding apply_theme_tokens
fall_back message st = painted watchline_defaults no_options (record st {
  error = some message;
  theme = record { tokens = watchline_defaults; version = st.version_ref; updated_at = none };
})

unfoldable pub refresh_theme : Answer → ThemeState → ThemeState
unfolding fetch_theme take_remote fall_back
refresh_theme answer st =
    let done : ThemeState = elim (fetch_theme answer) [
      | Attempt.got remote ↦ take_remote remote st
      | Attempt.thrown message ↦ fall_back message st
    ] in
    record done { loading = false }

-- `save`, with what it throws; the tokens are those of the first request.
unfoldable pub save_theme : Answer → Answer → ThemeState → Option String × ThemeState
unfolding put_theme take_remote
save_theme put fetched st = elim (put_theme put fetched) [
  | Attempt.got remote ↦ (none, take_remote remote st)
  | Attempt.thrown message ↦ (some message, st)
]

-- `resetDefaults`, which saves `WATCHLINE_DEFAULTS`
unfoldable pub reset_defaults : Answer → Answer → ThemeState → Option String × ThemeState
unfolding save_theme
reset_defaults put fetched st = save_theme put fetched (record st { local_scheme = none })

unfoldable pub apply_scheme_preset : ColorScheme → ThemeState → ThemeState
unfolding with_scheme
apply_scheme_preset scheme st = with_scheme scheme (record st { local_scheme = some scheme })

abbrev pub opposite : ColorScheme → ColorScheme
opposite ColorScheme.dark = ColorScheme.light
opposite ColorScheme.light = ColorScheme.dark

unfoldable pub toggle_color_mode : ThemeState → ThemeState
unfolding with_scheme
toggle_color_mode st =
    let next_scheme = opposite st.theme.tokens.color_scheme in
    with_scheme next_scheme (record st { local_scheme = some next_scheme })

-- a polled theme of another version
unfoldable pub take_polled : PlatformTheme → ThemeState → ThemeState
unfolding apply_theme_tokens
take_polled remote st =
    if remote.version == st.version_ref
    then st
    else painted remote.tokens no_options
        (record st { version_ref = remote.version; theme = remote; error = none })

-- One round of the polling effect, after its wait.
unfoldable pub poll : Answer → ThemeState → ThemeState
unfolding fetch_theme take_polled
poll answer st = elim (fetch_theme answer) [
  | Attempt.got remote ↦ take_polled remote (record st { delay = theme_poll_ms })
  | Attempt.thrown _ ↦ record st { delay = min max_delay (max theme_poll_ms (st.delay * 2)) }
]

unfoldable pub polls : List Answer → ThemeState → ThemeState
unfolding poll
polls [] st = st
polls (answer ∷ later) st = polls later (poll answer st)
