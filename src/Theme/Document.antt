-- ===== src/Theme/Document.antt =====
-- Painting a theme on the page (web/src/theme/tokens.ts): `applyThemeTokens`, and the two flags that
-- say who may.
use Prim.Native.Char.{code}
use mathlib.Core.List
use guardian_cloud.Prelude.{
  ℕ, Bool, true, false, not, ◌&&◌, List, [], ◌∷◌, String, str_eq, ◌==◌, if◌then◌else◌, is_blank,
}
use guardian_cloud.Theme.Tokens.{ColorScheme, ThemeTokens, same_scheme, ◌or_text◌}
use guardian_cloud.Theme.Colors.{lower}
use guardian_cloud.Theme.CssVars.{theme_tokens_to_css_vars}
use guardian_cloud.Theme.Schemes.{plain_atmosphere}

-- What a painting writes of `<html>`.
pub record Paint : Type 0 where
  pub data_theme : String
  pub data_atmosphere : String
  pub class_dark : Bool
  pub style : List (String × String)

-- The page: `<html>`, with its attribute `data-dashboard-shell`, the ids of the fonts that it has a link to,
-- and the variable `personalDashboardOwnsTheme` of the module.
pub record Document : Type 0 where
  pub paint : Paint
  pub fonts : List (List ℕ)
  pub dashboard_shell : Bool
  pub personal_dashboard_owns_theme : Bool

-- `style.setProperty`: a variable that is set keeps its place.
unfoldable pub set_property : String → String → List (String × String) → List (String × String)
set_property k v [] = (k, v) ∷ []
set_property k v ((j, w) ∷ style) =
    if str_eq j k then (j, v) ∷ style else (j, w) ∷ set_property k v style

unfoldable pub set_properties :
    List (String × String) → List (String × String) → List (String × String)
set_properties [] style = style
set_properties ((k, v) ∷ vars) style = set_properties vars (set_property k v style)

abbrev scheme_text : ColorScheme → String
scheme_text ColorScheme.light = "light"
scheme_text ColorScheme.dark = "dark"

abbrev dash_if : Bool → List ℕ → List ℕ
dash_if true s = b'-' ∷ s
dash_if false s = s

-- The codes of `font.replace(/\s+/g, '-').toLowerCase()`, after a blank or not.
unfoldable pub slug : Bool → String → List ℕ
slug blank String.[] = dash_if blank []
slug blank (String.◌∷◌ c s) =
    let in_run = slug true s in
    let after_run = slug false s in
    if is_blank (code c) then in_run else dash_if blank (lower (code c) ∷ after_run)

-- the id of the link of a font, less `font-`
unfoldable pub font_id : String → List ℕ
unfolding slug
font_id font = slug false font

unfoldable pub same_codes : List ℕ → List ℕ → Bool
same_codes [] [] = true
same_codes (c ∷ s) (d ∷ t) = c == d && same_codes s t
same_codes _ _ = false

-- `document.getElementById(id)` finds a link
unfoldable pub has_link : List ℕ → List (List ℕ) → Bool
unfolding same_codes
has_link id [] = false
has_link id (f ∷ fonts) = if same_codes f id then true else has_link id fonts

unfoldable pub ensure_google_font_loaded : String → List (List ℕ) → List (List ℕ)
unfolding has_link font_id
ensure_google_font_loaded font fonts =
    if str_eq font ""
    then fonts
    else if has_link (font_id font) fonts
    then fonts
    else List.◌++◌ fonts (font_id font ∷ [])

unfoldable pub apply_theme_tokens_to_element : ThemeTokens → Document → Document
unfolding theme_tokens_to_css_vars set_property set_properties ensure_google_font_loaded
apply_theme_tokens_to_element tokens d =
    let scheme = tokens.color_scheme in
    record d {
      paint = record {
        data_theme = scheme_text scheme;
        data_atmosphere = tokens.atmosphere_mode or_text plain_atmosphere scheme;
        class_dark = same_scheme scheme ColorScheme.dark;
        style = set_properties (theme_tokens_to_css_vars tokens) d.paint.style;
      };
      fonts =
          ensure_google_font_loaded tokens.font_body
            (ensure_google_font_loaded tokens.font_display d.fonts);
    }

unfoldable pub set_dashboard_shell_owns_theme : Bool → Document → Document
set_dashboard_shell_owns_theme owns d = record d { dashboard_shell = owns }

unfoldable pub dashboard_shell_owns_theme : Document → Bool
dashboard_shell_owns_theme d = d.dashboard_shell

unfoldable pub set_personal_dashboard_owns_theme : Bool → Document → Document
set_personal_dashboard_owns_theme owns d = record d { personal_dashboard_owns_theme = owns }

unfoldable pub personal_dashboard_owns_theme_active : Document → Bool
personal_dashboard_owns_theme_active d = d.personal_dashboard_owns_theme

-- the options `force` and `allowWhilePersonal`, which are false where they are left out
pub record PaintOptions : Type 0 where
  pub force : Bool
  pub allow_while_personal : Bool

unfoldable pub apply_theme_tokens : ThemeTokens → PaintOptions → Document → Document
unfolding apply_theme_tokens_to_element dashboard_shell_owns_theme
apply_theme_tokens tokens o d =
    if d.personal_dashboard_owns_theme && not o.allow_while_personal
    then d
    else if not o.force && dashboard_shell_owns_theme d
    then d
    else apply_theme_tokens_to_element tokens d
