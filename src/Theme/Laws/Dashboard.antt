-- ===== src/Theme/Laws/Dashboard.antt =====
-- The page while the dashboard's shell is there.
use mathlib.Core.Path.{subst}
use guardian_cloud.Prelude.{
  Option, none, ◌≡◌, refl, inl, inr, ap, ◌∙◌, sym, Bool, true, false, some, List, [], ◌∷◌, String,
  str_eq, Bool-cases, arith,
}
use guardian_cloud.Theme.Tokens.{ThemeTokens}
use guardian_cloud.Theme.CssVars.{theme_tokens_to_css_vars}
use guardian_cloud.Theme.Schemes.{entry}
use guardian_cloud.Theme.Document.{
  Document, PaintOptions, set_property, set_properties, apply_theme_tokens,
  apply_theme_tokens_to_element, dashboard_shell_owns_theme, set_dashboard_shell_owns_theme,
  set_personal_dashboard_owns_theme,
}
use guardian_cloud.Theme.DashboardApi.{DashboardThemeMode}
use guardian_cloud.Theme.Personal.{PersonalState, is_personal}
use guardian_cloud.Theme.Shell.{
  radius_vars, apply_radius_css_vars, effective, shell_options, sync_shell, mount_shell,
  unmount_shell,
}
use guardian_cloud.Theme.Laws.Variables.{last_of, entry-set_properties}
use guardian_cloud.Theme.Laws.Paints.{paints}

set_property_same :
    (k v : String) (style : List (String × String))
    → entry k style ≡ some v
    → set_property k v style ≡ style
unfolding entry set_property
set_property_same k v [] e = ground arith
set_property_same k v ((j, w) ∷ style) e = elim (Bool-cases (str_eq j k)) [
  | inl f ↦ let same : w ≡ v = ground arith in rw f (ap (λ u. (j, u) ∷ style) (sym same))
  | inr f ↦
      let later : entry k style ≡ some v = ground arith in
      rw f (ap (λ rest. (j, w) ∷ rest) (set_property_same k v style later))
]

-- the values are there already
abbrev AllSet : List (String × String) → List (String × String) → Type 0
AllSet [] style = Unit
AllSet ((k, v) ∷ vars) style = (entry k style ≡ some v) × AllSet vars style

set_properties_same :
    (vars style : List (String × String)) → AllSet vars style → set_properties vars style ≡ style
unfolding set_properties
set_properties_same [] style w = refl
set_properties_same ((k, v) ∷ vars) style w =
    ap (set_properties vars) (set_property_same k v style w.0) ∙ set_properties_same vars style w.1

radius_vars_set :
    (t : ThemeTokens) (style : List (String × String))
    → AllSet
        (radius_vars t.radius t.radius_sm t.radius_lg)
        (set_properties (theme_tokens_to_css_vars t) style)
unfolding theme_tokens_to_css_vars
radius_vars_set t style =
    let at : (k : String)
        → entry k (set_properties (theme_tokens_to_css_vars t) style)
          ≡ last_of k (theme_tokens_to_css_vars t) (entry k style) =
      λ k. entry-set_properties k (theme_tokens_to_css_vars t) style in
    (
      at "--g-radius",
      (
        at "--g-radius-sm",
        (
          at "--g-radius-lg",
          (
            at "--radius",
            (
              at "--radius-sm",
              (
                at "--radius-md",
                (
                  at "--radius-lg",
                  (at "--radius-xl", (at "--radius-2xl", (at "--radius-3xl", tt))),
                ),
              ),
            ),
          ),
        ),
      ),
    )

with_style :
    (t : ThemeTokens) (d : Document)
    → set_properties (radius_vars t.radius t.radius_sm t.radius_lg) d.paint.style ≡ d.paint.style
    → apply_radius_css_vars t d ≡ d
unfolding apply_radius_css_vars
with_style t d e = ap (λ s. record d { paint = record d.paint { style = s } }) e

element_style :
    (t : ThemeTokens) (d : Document)
    → (apply_theme_tokens_to_element t d).paint.style
      ≡ set_properties (theme_tokens_to_css_vars t) d.paint.style
unfolding apply_theme_tokens_to_element
element_style t d = refl

-- After a painting the corners are there already.
apply_radius_css_vars-element :
    (t : ThemeTokens) (d : Document)
    → apply_radius_css_vars t (apply_theme_tokens_to_element t d)
      ≡ apply_theme_tokens_to_element t d
apply_radius_css_vars-element t d = with_style t (apply_theme_tokens_to_element t d) (
    subst (λ s. set_properties (radius_vars t.radius t.radius_sm t.radius_lg) s ≡ s)
      (sym (element_style t d))
      (set_properties_same (radius_vars t.radius t.radius_sm t.radius_lg) _
        (radius_vars_set t d.paint.style)))

allowed_paint :
    (t : ThemeTokens) (d : Document)
    → apply_theme_tokens t shell_options d ≡ apply_theme_tokens_to_element t d
unfolding apply_theme_tokens dashboard_shell_owns_theme
allowed_paint t d = ground arith

sync_shell_lem :
    (p : PersonalState) (g : ThemeTokens) (d : Document)
    → sync_shell p g d ≡ apply_theme_tokens_to_element (effective p g) d
unfolding sync_shell
sync_shell_lem p g d =
    ap (apply_radius_css_vars (effective p g)) (allowed_paint (effective p g) d)
    ∙ apply_radius_css_vars-element (effective p g) d

owned : Bool → Document → Document
owned personal d = record d { dashboard_shell = true; personal_dashboard_owns_theme = personal }

mount_shell_lem :
    (p : PersonalState) (g : ThemeTokens) (d : Document)
    → mount_shell p g d ≡ apply_theme_tokens_to_element (effective p g) (owned (is_personal p) d)
unfolding mount_shell set_dashboard_shell_owns_theme set_personal_dashboard_owns_theme owned
mount_shell_lem p g d = sync_shell_lem p g (owned (is_personal p) d)

-- the options that do not get past the shell: with a personal theme those that are not allowed then,
-- and without one those that do not force
abbrev pub IsBarred : Bool → PaintOptions → Type 0
IsBarred true o = o.allow_while_personal ≡ false
IsBarred false o = o.force ≡ false

abbrev pub AllBarred : Bool → List (ThemeTokens × PaintOptions) → Type 0
AllBarred personal [] = Unit
AllBarred personal ((_, o) ∷ later) = IsBarred personal o × AllBarred personal later

barred_paint :
    (t : ThemeTokens) (o : PaintOptions) (u : ThemeTokens) (personal : Bool) (d : Document)
    → IsBarred personal o
    → let e = apply_theme_tokens_to_element u (owned personal d) in apply_theme_tokens t o e ≡ e
unfolding apply_theme_tokens dashboard_shell_owns_theme apply_theme_tokens_to_element owned
barred_paint t o u true d w = rw w refl
barred_paint t o u false d w = rw w refl

barred_paints :
    (calls : List (ThemeTokens × PaintOptions)) (u : ThemeTokens) (personal : Bool) (d : Document)
    → AllBarred personal calls
    → let e = apply_theme_tokens_to_element u (owned personal d) in paints calls e ≡ e
barred_paints [] u personal d w = refl
barred_paints ((t, o) ∷ later) u personal d w =
    ap (paints later) (barred_paint t o u personal d w.0) ∙ barred_paints later u personal d w.1

unmount_paint :
    (g : ThemeTokens) (d : Document)
    → (unmount_shell g d).paint ≡ (apply_theme_tokens_to_element g d).paint
unfolding unmount_shell apply_theme_tokens dashboard_shell_owns_theme set_dashboard_shell_owns_theme
    set_personal_dashboard_owns_theme apply_theme_tokens_to_element
unmount_paint g d = refl

mount_paint :
    (t : ThemeTokens) (personal : Bool) (d : Document)
    → (apply_theme_tokens_to_element t (owned personal d)).paint
      ≡ (apply_theme_tokens_to_element t d).paint
unfolding apply_theme_tokens_to_element owned
mount_paint t personal d = refl

-- the user's own theme once it is loaded and the mode is personal, else the platform's
abbrev pub shown_theme : Bool → DashboardThemeMode → Option ThemeTokens → ThemeTokens → ThemeTokens
shown_theme false DashboardThemeMode.personal (some t) g = t
shown_theme _ _ _ g = g

effective_lem :
    (p : PersonalState) (g : ThemeTokens)
    → effective p g ≡ shown_theme p.loading p.mode p.admin_theme g
unfolding effective is_personal
effective_lem p g = by_state p.loading p.mode p.admin_theme
  where
    by_state :
        (loading : Bool) (mode : DashboardThemeMode) (own : Option ThemeTokens)
        → effective (record p { loading = loading; mode = mode; admin_theme = own }) g
          ≡ shown_theme loading mode own g
    by_state true DashboardThemeMode.personal none = refl
    by_state true DashboardThemeMode.personal (some t) = refl
    by_state true DashboardThemeMode.follow_brand none = refl
    by_state true DashboardThemeMode.follow_brand (some t) = refl
    by_state false DashboardThemeMode.personal none = refl
    by_state false DashboardThemeMode.personal (some t) = refl
    by_state false DashboardThemeMode.follow_brand none = refl
    by_state false DashboardThemeMode.follow_brand (some t) = refl

-- While the dashboard is there, its page shows the effective theme: the user's own once it is loaded
-- and while the user has one, else the platform's. Calls to paint it that the shell bars, those of
-- the platform's provider among them, change nothing. When the dashboard goes, the page shows the
-- platform's theme again.
pub mount_shell_keeps :
    (p : PersonalState) (g : ThemeTokens) (d : Document) (calls : List (ThemeTokens × PaintOptions))
    → AllBarred (is_personal p) calls
    → let page = paints calls (mount_shell p g d) in
      (page ≡ mount_shell p g d)
      × (page.paint
          ≡ (apply_theme_tokens_to_element (shown_theme p.loading p.mode p.admin_theme g) d).paint)
      × ((unmount_shell g page).paint ≡ (apply_theme_tokens_to_element g page).paint)
mount_shell_keeps p g d calls w =
    let theme = effective p g in
    let same =
      ap (paints calls) (mount_shell_lem p g d)
      ∙ barred_paints calls theme (is_personal p) d w
      ∙ sym (mount_shell_lem p g d) in
    (
      same,
      ap (λ (e : Document). e.paint) (same ∙ mount_shell_lem p g d)
          ∙ mount_paint theme (is_personal p) d
          ∙ ap (λ t. (apply_theme_tokens_to_element t d).paint) (effective_lem p g),
      unmount_paint g (paints calls (mount_shell p g d)),
    )
