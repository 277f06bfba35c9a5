-- ===== src/Theme/Laws/Remote.antt =====
-- A theme that is saved comes back.
use mathlib.Core.List
use guardian_cloud.Prelude.{◌≡◌, refl, none}
use guardian_cloud.Client.Json.{Body}
use guardian_cloud.Theme.Tokens.{ColorScheme, ThemeTokens, ◌or_text◌}
use guardian_cloud.Theme.Schemes.{plain_atmosphere}
use guardian_cloud.Theme.Platform.{map_theme, theme_body, sent_accent, plain_soft}

-- The tokens with the gaps filled in, and without the pack that they are from.
abbrev pub normalized : ThemeTokens → ThemeTokens
normalized tokens =
    let accent = sent_accent tokens in
    record tokens {
      accent = accent;
      accent2 = tokens.accent2 or_text accent;
      signal = tokens.signal or_text accent;
      signal_soft = tokens.signal_soft or_text plain_soft tokens.color_scheme;
      atmosphere_mode = tokens.atmosphere_mode or_text plain_atmosphere tokens.color_scheme;
      pack_id = none;
    }

-- An answer that begins with the members of a saved theme is read as this theme, with a missing
-- accent, signal, soft signal and atmosphere filled in, and without its pack.
pub map_theme-theme_body :
    (tokens : ThemeTokens) (rest : Body)
    → (map_theme (List.◌++◌ (theme_body tokens) rest)).tokens ≡ normalized tokens
unfolding map_theme theme_body
map_theme-theme_body tokens rest = by_scheme tokens.color_scheme
  where
    by_scheme :
        (s : ColorScheme)
        → (map_theme (List.◌++◌ (theme_body (record tokens { color_scheme = s })) rest)).tokens
          ≡ normalized (record tokens { color_scheme = s })
    by_scheme ColorScheme.light = refl
    by_scheme ColorScheme.dark = refl
