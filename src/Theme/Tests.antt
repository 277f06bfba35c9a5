-- ===== src/Theme/Tests.antt =====
-- The themes at concrete inputs.
use mathlib.Core.List
use guardian_cloud.Prelude.{
  List, ◌≡◌, ◌≢◌, ◌≤◌, refl, true, false, none, some, [], ◌∷◌, ◌++◌, arith, filter,
}
use guardian_cloud.Client.Json.{Json, Fields, Body}
use guardian_cloud.Theme.Tokens.{ColorScheme, ThemeTokens, light_defaults, dark_defaults}
use guardian_cloud.Theme.Colors.{hex_to_rgb, format_font_family}
use guardian_cloud.Theme.Schemes.{
  has, entry, pair_atmosphere_for_scheme, canvas_from_atmosphere_donor,
  apply_scheme_to_theme_preserve,
}
use guardian_cloud.Theme.CssVars.{TokenKey, token_css_vars}
use guardian_cloud.Theme.Document.{
  Document, PaintOptions, apply_theme_tokens_to_element, personal_dashboard_owns_theme_active,
  dashboard_shell_owns_theme,
}
use guardian_cloud.Theme.Platform.{Answer, map_theme, theme_body}
use guardian_cloud.Theme.Provider.{mount_theme, polls}
use guardian_cloud.Theme.DashboardApi.{
  DashboardThemeMode, Reply, is_personal_mode, personal_or_brand, parse_dashboard_response,
  dashboard_body,
}
use guardian_cloud.Theme.Personal.{
  PersonalState, initial_personal, persist_personal_end, handle_accent, is_personal, with_accent,
}
use guardian_cloud.Theme.NavTypes.{NavPresetId, default_prefs, navigation_body, admin_studio_body}
use guardian_cloud.Theme.Nav.{NavState, mount_nav, load_prefs}
use guardian_cloud.Theme.Shell.{effective, mount_shell, unmount_shell}
use guardian_cloud.Theme.Laws.Dashboard.{mount_shell_keeps}
use guardian_cloud.Theme.Laws.Moods.{IsAtHome, apply_scheme_to_theme_preserve_twice}
use guardian_cloud.Theme.Laws.Variables.{apply_theme_tokens_to_element_vars}
use guardian_cloud.Theme.Laws.Paints.{paints, apply_theme_tokens_owners}
use guardian_cloud.Theme.Laws.Remote.{map_theme-theme_body}
use guardian_cloud.Theme.Laws.Polling.{waited, polls_catch_up}
use guardian_cloud.Theme.Laws.Confirmed.{
  Edit, Event, edits, events, IsCoherent, personal-IsCoherent,
}
use guardian_cloud.Theme.Laws.Edits.{
  is_some_text, persist_personal_end_reverts, handle_accent_forgets,
}
use guardian_cloud.Theme.Laws.Answers.{parse_dashboard_response-dashboard_body}
use guardian_cloud.Theme.Laws.Preferences.{Choice, choose, load_prefs_late}
use guardian_cloud.Theme.Laws.Saved.{latest, answer_of, choose-load_prefs}

hex_to_rgb_six : hex_to_rgb "#6366f1" ≡ "99,102,241"
unfolding hex_to_rgb
hex_to_rgb_six = refl

font_with_quotes :
    format_font_family " 'Plus Jakarta Sans\" "
    ≡ "\"Plus Jakarta Sans\", ui-sans-serif, system-ui, sans-serif"
unfolding format_font_family
font_with_quotes = refl

-- the default theme as the user's own, with an atmosphere that has a twin
abbrev evening : ThemeTokens
evening = apply_scheme_to_theme_preserve light_defaults ColorScheme.dark

IsAtHome-evening : IsAtHome evening
unfolding apply_scheme_to_theme_preserve pair_atmosphere_for_scheme canvas_from_atmosphere_donor has
    entry
IsAtHome-evening = record {
  filled = (refl, refl, refl, refl, refl, refl, refl);
  has_atmosphere = refl;
  has_alert = refl;
  twin = refl;
  signal = refl;
  canvas = (refl, refl, refl, refl, refl);
}

apply_scheme_to_theme_preserve_twice_example :
    apply_scheme_to_theme_preserve
      (apply_scheme_to_theme_preserve evening ColorScheme.light)
      evening.color_scheme
    ≡ evening
unfolding apply_scheme_to_theme_preserve
apply_scheme_to_theme_preserve_twice_example =
    apply_scheme_to_theme_preserve_twice evening IsAtHome-evening

abbrev page : Document
page = record {
  paint = record {
    data_theme = "light";
    data_atmosphere = "mist";
    class_dark = false;
    style = ("--g-ink", "#000000") ∷ [];
  };
  fonts = [];
  dashboard_shell = true;
  personal_dashboard_owns_theme = true;
}

apply_theme_tokens_to_element_vars_example :
    let style = (apply_theme_tokens_to_element dark_defaults page).paint.style in
    (TokenKey.ink ≢ TokenKey.atmosphere_mode → entry "--g-ink" style ≡ some "#f1f5f9")
    × (entry "--g-atmosphere-mode" style ≡ none)
unfolding token_css_vars entry
apply_theme_tokens_to_element_vars_example =
    apply_theme_tokens_to_element_vars dark_defaults page TokenKey.ink

abbrev forced : PaintOptions
forced = record { force = true; allow_while_personal = false }

abbrev allowed : PaintOptions
allowed = record { force = true; allow_while_personal = true }

apply_theme_tokens_owners_example :
    paints ((light_defaults, forced) ∷ (dark_defaults, allowed) ∷ []) page
    ≡ apply_theme_tokens_to_element dark_defaults page
unfolding filter apply_theme_tokens_to_element personal_dashboard_owns_theme_active
    dashboard_shell_owns_theme
apply_theme_tokens_owners_example =
    apply_theme_tokens_owners ((light_defaults, forced) ∷ (dark_defaults, allowed) ∷ []) page

map_theme-theme_body_example :
    (map_theme (List.◌++◌ (theme_body light_defaults) (("version", Json.num 3) ∷ []))).tokens
    ≡ light_defaults
map_theme-theme_body_example = map_theme-theme_body light_defaults (("version", Json.num 3) ∷ [])

abbrev third : Body
third = ("color_scheme", Json.text "light") ∷ ("version", Json.num 3) ∷ []

polls_catch_up_example :
    let st = mount_theme page in
    let failures = Answer.refused 503 "" ∷ Answer.rejected "offline" ∷ [] in
    let st' = polls (failures ++ (Answer.answered third ∷ [])) st in
    ((polls failures st).theme ≡ st.theme)
    × (st'.theme ≡ map_theme third)
    × (st'.delay ≡ 15000)
    × (st'.error ≡ none)
    × (waited (failures ++ (Answer.answered third ∷ [])) st ≤ 180000)
unfolding mount_theme map_theme
polls_catch_up_example =
    polls_catch_up (Answer.refused 503 "" ∷ Answer.rejected "offline" ∷ []) third (mount_theme page)
      (tt, (tt, tt)) (omega arith) (omega arith, omega arith)

personal-IsCoherent_example :
    let es =
      Event.edited (Edit.pack "aurora-ops")
      ∷ Event.saved (Reply.refused 500 "")
      ∷ Event.loaded 1 (Reply.answered Json.null)
      ∷ [] in
    let st = events es (initial_personal []) in
    IsCoherent st × (is_personal st ≡ is_personal_mode st.mode)
personal-IsCoherent_example =
    personal-IsCoherent
      (Event.edited (Edit.pack "aurora-ops")
        ∷ Event.saved (Reply.refused 500 "")
        ∷ Event.loaded 1 (Reply.answered Json.null)
        ∷ [])
      []

-- a dashboard whose theme has been confirmed
abbrev confirmed : PersonalState
confirmed = record (initial_personal []) {
  loading = false;
  mode = DashboardThemeMode.personal;
  admin_theme = some light_defaults;
  snapshot = personal_or_brand (some light_defaults);
}

persist_personal_end_reverts_example :
    let st' =
      persist_personal_end
        (Reply.refused 500 "")
        (edits (Edit.scheme ColorScheme.dark ∷ Edit.pack "snow-ops" ∷ []) confirmed) in
    (st'.mode ≡ DashboardThemeMode.personal)
    × (st'.admin_theme ≡ some light_defaults)
    × (st'.snapshot ≡ personal_or_brand (some light_defaults))
    × (is_some_text st'.error ≡ true)
    × (st'.saving ≡ false)
    × (st'.sent ≡ (edits (Edit.scheme ColorScheme.dark ∷ Edit.pack "snow-ops" ∷ []) confirmed).sent)
persist_personal_end_reverts_example =
    persist_personal_end_reverts (Edit.scheme ColorScheme.dark ∷ Edit.pack "snow-ops" ∷ [])
      (Reply.refused 500 "") confirmed tt

handle_accent_forgets_example :
    ((handle_accent "#22d3ee" none
        (edits (Edit.scheme ColorScheme.dark ∷ []) confirmed)).admin_theme
      ≡ (handle_accent "#22d3ee" none confirmed).admin_theme)
    × ((handle_accent "#22d3ee" none confirmed).admin_theme
        ≡ some (with_accent "#22d3ee" none light_defaults))
handle_accent_forgets_example =
    handle_accent_forgets (Edit.scheme ColorScheme.dark ∷ []) "#22d3ee" none confirmed
      light_defaults refl

abbrev calls : List (ThemeTokens × PaintOptions)
calls = (dark_defaults, forced) ∷ []

mount_shell_keeps_example :
    let shown = paints calls (mount_shell confirmed dark_defaults page) in
    (shown ≡ mount_shell confirmed dark_defaults page)
    × (shown.paint ≡ (apply_theme_tokens_to_element light_defaults page).paint)
    × ((unmount_shell dark_defaults shown).paint
        ≡ (apply_theme_tokens_to_element dark_defaults shown).paint)
unfolding effective is_personal
mount_shell_keeps_example = mount_shell_keeps confirmed dark_defaults page calls (refl, tt)

parse_dashboard_response-dashboard_body_example :
    (parse_dashboard_response (
        Json.object (
          Fields.field "mode"
            (Json.text "personal")
            (Fields.field "theme" (Json.object (dashboard_body light_defaults)) Fields.end)))
      ≡ personal_or_brand (some light_defaults))
    × (parse_dashboard_response (Json.object (dashboard_body light_defaults))
        ≡ personal_or_brand (some light_defaults))
parse_dashboard_response-dashboard_body_example =
    parse_dashboard_response-dashboard_body light_defaults refl

abbrev nav : NavState
nav = mount_nav (some default_prefs) 4

load_prefs_late_example :
    load_prefs nav.prefs_write_gen none
      (answer_of (admin_studio_body default_prefs))
      (choose (Choice.favorite "/admin/audit") nav)
    ≡ choose (Choice.favorite "/admin/audit") nav
load_prefs_late_example =
    load_prefs_late (Choice.favorite "/admin/audit") [] none
      (answer_of (admin_studio_body default_prefs)) nav

choose-load_prefs_example :
    let p = (choose (Choice.preset NavPresetId.ops) nav).prefs in
    (latest (choose (Choice.preset NavPresetId.ops) nav).sent none
      ≡ some (navigation_body p, admin_studio_body p))
    × ((load_prefs 0
          (answer_of (navigation_body p))
          (answer_of (admin_studio_body p))
          (mount_nav none 0)).prefs
        ≡ p)
choose-load_prefs_example = choose-load_prefs (Choice.preset NavPresetId.ops) nav none 0
