-- ===== src/Theme/Laws/Answers.antt =====
-- The theme of the dashboard, sent to the API and read from its answer.
use guardian_cloud.Prelude.{◌≡◌, refl, false, Option, none, some, String, str_eq}
use guardian_cloud.Client.Json.{Json, Fields, property}
use guardian_cloud.Theme.Tokens.{ColorScheme, ThemeTokens}
use guardian_cloud.Theme.Platform.{text_member}
use guardian_cloud.Theme.DashboardApi.{
  personal_or_brand, mode_is, members, tokens_of, theme_tokens_of, is_theme_tokens,
  parse_dashboard_response, dashboard_body,
}

with_pack : ThemeTokens → ColorScheme → Option String → ThemeTokens
with_pack t s pack = record t { color_scheme = s; pack_id = pack }

theme_tokens_of-with_pack :
    (t : ThemeTokens) (s : ColorScheme) (pack : Option String)
    → str_eq t.accent "" ≡ false
    → theme_tokens_of (members (dashboard_body (with_pack t s pack))) ≡ some (with_pack t s pack)
unfolding theme_tokens_of tokens_of members dashboard_body text_member property with_pack
theme_tokens_of-with_pack t ColorScheme.light none w = rw w refl
theme_tokens_of-with_pack t ColorScheme.light (some p) w = rw w refl
theme_tokens_of-with_pack t ColorScheme.dark none w = rw w refl
theme_tokens_of-with_pack t ColorScheme.dark (some p) w = rw w refl

theme_tokens_of-dashboard_body :
    (t : ThemeTokens)
    → str_eq t.accent "" ≡ false
    → theme_tokens_of (members (dashboard_body t)) ≡ some t
unfolding with_pack
theme_tokens_of-dashboard_body t w = theme_tokens_of-with_pack t t.color_scheme t.pack_id w

-- The tokens have no mode.
mode_is_whole :
    (m : String) (t : ThemeTokens) (s : ColorScheme) (pack : Option String)
    → str_eq "" m ≡ false
    → mode_is m (members (dashboard_body (with_pack t s pack))) ≡ false
unfolding members dashboard_body text_member property with_pack
mode_is_whole m t s none e = e
mode_is_whole m t s (some p) e = e

-- An answer with the mode of a personal theme and the tokens as they were sent, or with the tokens
-- alone, is read as that personal theme, whatever the tokens are, where there is an accent.
pub parse_dashboard_response-dashboard_body :
    (t : ThemeTokens)
    → str_eq t.accent "" ≡ false
    → (parse_dashboard_response (
          Json.object (
            Fields.field "mode"
              (Json.text "personal")
              (Fields.field "theme" (Json.object (dashboard_body t)) Fields.end)))
        ≡ personal_or_brand (some t))
      × (parse_dashboard_response (Json.object (dashboard_body t)) ≡ personal_or_brand (some t))
unfolding parse_dashboard_response is_theme_tokens with_pack
parse_dashboard_response-dashboard_body t w =
    let whole = theme_tokens_of-dashboard_body t w in
    let at_brand = mode_is_whole "follow_brand" t t.color_scheme t.pack_id refl in
    let at_personal = mode_is_whole "personal" t t.color_scheme t.pack_id refl in
    (rw whole refl, rw at_brand (rw at_personal (rw whole refl)))
