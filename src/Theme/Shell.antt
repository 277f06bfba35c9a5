-- ===== src/Theme/Shell.antt =====
-- The theme of the dashboard's shell (web/src/layouts/SuperAdminShell.tsx): which theme it shows, and
-- what its effects do to the page. The shell's own element, which is painted like the page, is left
-- out.
use guardian_cloud.Prelude.{
  true, false, not, ◌&&◌, List, [], ◌∷◌, String, if◌then◌else◌, ◌otherwise◌,
}
use guardian_cloud.Theme.Tokens.{ThemeTokens}
use guardian_cloud.Theme.Document.{
  Document, PaintOptions, set_properties, apply_theme_tokens, set_dashboard_shell_owns_theme,
  set_personal_dashboard_owns_theme,
}
use guardian_cloud.Theme.Personal.{PersonalState, is_personal}

-- the properties that `applyRadiusCssVars` sets, in its order
abbrev pub radius_vars : String → String → String → List (String × String)
radius_vars radius radius_sm radius_lg =
    ("--g-radius", radius)
    ∷ ("--g-radius-sm", radius_sm)
    ∷ ("--g-radius-lg", radius_lg)
    ∷ ("--radius", radius)
    ∷ ("--radius-sm", radius_sm)
    ∷ ("--radius-md", radius)
    ∷ ("--radius-lg", radius)
    ∷ ("--radius-xl", radius_lg)
    ∷ ("--radius-2xl", radius_lg)
    ∷ ("--radius-3xl", radius_lg)
    ∷ []

unfoldable pub apply_radius_css_vars : ThemeTokens → Document → Document
unfolding set_properties
apply_radius_css_vars t d = record d {
  paint = record d.paint {
    style = set_properties (radius_vars t.radius t.radius_sm t.radius_lg) d.paint.style;
  };
}

-- `effective`, of the user's own theme and the platform's
unfoldable pub effective : PersonalState → ThemeTokens → ThemeTokens
unfolding is_personal
effective p global_theme =
    if not p.loading && is_personal p then p.admin_theme otherwise global_theme else global_theme

abbrev pub shell_options : PaintOptions
shell_options = record { force = true; allow_while_personal = true }

-- the effect that keeps the page at the effective theme
unfoldable pub sync_shell : PersonalState → ThemeTokens → Document → Document
unfolding effective apply_theme_tokens apply_radius_css_vars
sync_shell p global_theme d =
    let theme = effective p global_theme in
    apply_radius_css_vars theme (apply_theme_tokens theme shell_options d)

-- The three effects of the first rendering, and those of a rendering with another personal theme.
unfoldable pub mount_shell : PersonalState → ThemeTokens → Document → Document
unfolding is_personal sync_shell set_dashboard_shell_owns_theme set_personal_dashboard_owns_theme
mount_shell p global_theme d =
    sync_shell p global_theme
      (set_personal_dashboard_owns_theme (is_personal p) (set_dashboard_shell_owns_theme true d))

unfoldable pub update_shell : PersonalState → ThemeTokens → Document → Document
unfolding is_personal sync_shell set_personal_dashboard_owns_theme
update_shell p global_theme d =
    sync_shell p global_theme (
      set_personal_dashboard_owns_theme (is_personal p) (set_personal_dashboard_owns_theme false d))

-- the clean-up of the effects
unfoldable pub unmount_shell : ThemeTokens → Document → Document
unfolding apply_theme_tokens set_dashboard_shell_owns_theme set_personal_dashboard_owns_theme
unmount_shell global_theme d = set_personal_dashboard_owns_theme false (
    apply_theme_tokens global_theme (record { force = true; allow_while_personal = false })
      (set_dashboard_shell_owns_theme false (set_personal_dashboard_owns_theme false d)))
