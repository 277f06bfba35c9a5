-- ===== src/Theme/CssVars.antt =====
-- `themeTokensToCssVars` and `TOKEN_CSS_VARS` (web/src/theme/tokens.ts).
use Prim.Native.String.{◌++◌}
use guardian_cloud.Prelude.{List, [], ◌∷◌, String, if◌then◌else◌}
use guardian_cloud.Theme.Tokens.{ColorScheme, ThemeTokens, same_scheme, ◌or_text◌}
use guardian_cloud.Theme.Colors.{hex_to_rgb, format_font_family, soft_accent}

-- the tokens that have a variable
pub data TokenKey : Type 0 where
  ink ink_soft mist mist_deep signal signal_soft alert atmosphere_mode accent accent2 radius
        radius_sm radius_lg font_display font_body :
      TokenKey

unfoldable pub token_css_vars : TokenKey → String
token_css_vars TokenKey.ink = "--g-ink"
token_css_vars TokenKey.ink_soft = "--g-ink-soft"
token_css_vars TokenKey.mist = "--g-mist"
token_css_vars TokenKey.mist_deep = "--g-mist-deep"
token_css_vars TokenKey.signal = "--g-signal"
token_css_vars TokenKey.signal_soft = "--g-signal-soft"
token_css_vars TokenKey.alert = "--g-alert"
token_css_vars TokenKey.atmosphere_mode = "--g-atmosphere-mode"
token_css_vars TokenKey.accent = "--g-accent"
token_css_vars TokenKey.accent2 = "--g-accent-2"
token_css_vars TokenKey.radius = "--g-radius"
token_css_vars TokenKey.radius_sm = "--g-radius-sm"
token_css_vars TokenKey.radius_lg = "--g-radius-lg"
token_css_vars TokenKey.font_display = "--g-font-display"
token_css_vars TokenKey.font_body = "--g-font-body"

-- The variables, in the order in which they are set; no key is set twice.
unfoldable pub theme_tokens_to_css_vars : ThemeTokens → List (String × String)
unfolding hex_to_rgb format_font_family soft_accent
theme_tokens_to_css_vars tokens =
    let scheme = tokens.color_scheme in
    let is_dark = same_scheme scheme ColorScheme.dark in
    let accent = tokens.accent or_text tokens.signal in
    let accent2 = tokens.accent2 or_text accent in
    let signal = tokens.signal or_text accent in
    let font_display = format_font_family tokens.font_display in
    let font_body = format_font_family tokens.font_body in
    let mist = tokens.mist in
    let mist_deep = tokens.mist_deep in
    ("--g-ink", tokens.ink)
    ∷ ("--g-ink-soft", tokens.ink_soft)
    ∷ ("--g-mist", mist)
    ∷ ("--g-mist-deep", mist_deep)
    ∷ ("--g-signal", signal)
    ∷ ("--g-signal-soft", tokens.signal_soft or_text soft_accent accent scheme)
    ∷ ("--g-alert", tokens.alert)
    ∷ ("--g-accent", accent)
    ∷ ("--g-accent-2", accent2)
    ∷ ("--g-accent-rgb", hex_to_rgb accent)
    ∷ ("--accent", accent)
    ∷ ("--accent-2", accent2)
    ∷ ("--accent-rgb", hex_to_rgb accent)
    ∷ ("--g-radius", tokens.radius)
    ∷ ("--g-radius-sm", tokens.radius_sm)
    ∷ ("--g-radius-lg", tokens.radius_lg)
    ∷ ("--radius", tokens.radius)
    ∷ ("--radius-sm", tokens.radius_sm)
    ∷ ("--radius-md", tokens.radius)
    ∷ ("--radius-lg", tokens.radius)
    ∷ ("--radius-xl", tokens.radius_lg)
    ∷ ("--radius-2xl", tokens.radius_lg)
    ∷ ("--radius-3xl", tokens.radius_lg)
    ∷ ("--g-font-display", font_display)
    ∷ ("--g-font-body", font_body)
    ∷ ("--font-display", font_display)
    ∷ ("--font-body", font_body)
    ∷ ("--font-sans", font_body)
    ∷ ("--g-text", tokens.ink)
    ∷ ("--g-text-2", tokens.ink_soft)
    ∷ ("--g-text-3", if is_dark then "#6b7590" else "#94a3b8")
    ∷ ("--g-border", if is_dark then "#262a3a" else "#e6e8ef")
    ∷ ("--g-border-strong", if is_dark then "#333a4f" else "#d5d9e4")
    ∷ (
      "--g-line",
      "color-mix(in srgb, "
          ++ (tokens.ink ++ (" " ++ ((if is_dark then "14" else "12") ++ "%, transparent)"))),
    )
    ∷ (
      "--g-surface",
      if is_dark
          then "color-mix(in srgb, " ++ (mist_deep ++ " 72%, #1a2332)")
          else "color-mix(in srgb, white 70%, " ++ (mist ++ ")"),
    )
    ∷ (
      "--g-surface-2",
      if is_dark
          then "color-mix(in srgb, " ++ (mist_deep ++ " 55%, #243044)")
          else "color-mix(in srgb, white 55%, " ++ (mist_deep ++ ")"),
    )
    ∷ (
      "--g-surface-3",
      if is_dark
          then "color-mix(in srgb, " ++ (mist_deep ++ " 35%, #2a374d)")
          else "color-mix(in srgb, white 35%, " ++ (mist_deep ++ ")"),
    )
    ∷ (
      "--g-glow",
      "color-mix(in srgb, "
          ++ (signal ++ (" " ++ ((if is_dark then "14" else "10") ++ "%, transparent)"))),
    )
    ∷ []
