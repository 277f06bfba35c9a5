-- ===== src/Theme/Laws/Paints.antt =====
-- Who may paint the page.
use guardian_cloud.Prelude.{
  ◌≡◌, refl, inl, inr, ap, ◌∙◌, Bool, not, ◌&&◌, ◌||◌, List, [], ◌∷◌, if◌then◌else◌, Bool-cases,
  arith, filter,
}
use guardian_cloud.Theme.Tokens.{ThemeTokens}
use guardian_cloud.Theme.Document.{
  Document, PaintOptions, apply_theme_tokens_to_element, apply_theme_tokens,
  dashboard_shell_owns_theme, personal_dashboard_owns_theme_active,
}

-- the calls of `applyThemeTokens`, in their order
abbrev pub paints : List (ThemeTokens × PaintOptions) → Document → Document
paints [] d = d
paints ((t, o) ∷ later) d = paints later (apply_theme_tokens t o d)

-- a call whose options get past those who own the theme of the page
abbrev pub may_paint : Document → ThemeTokens × PaintOptions → Bool
may_paint d (t, o) =
    (not (personal_dashboard_owns_theme_active d) || o.allow_while_personal)
    && (not (dashboard_shell_owns_theme d) || o.force)

-- the themes, painted by whoever asks
abbrev pub painted_all : List (ThemeTokens × PaintOptions) → Document → Document
painted_all [] d = d
painted_all ((t, o) ∷ later) d = painted_all later (apply_theme_tokens_to_element t d)

apply_theme_tokens_if :
    (t : ThemeTokens) (o : PaintOptions) (d : Document)
    → apply_theme_tokens t o d
      ≡ (if may_paint d (t, o) then apply_theme_tokens_to_element t d else d)
unfolding apply_theme_tokens dashboard_shell_owns_theme personal_dashboard_owns_theme_active
apply_theme_tokens_if t o d = ground arith

-- A painting leaves the owners.
may_paint-element :
    (t : ThemeTokens) (d : Document) → may_paint (apply_theme_tokens_to_element t d) ≡ may_paint d
unfolding apply_theme_tokens_to_element dashboard_shell_owns_theme
    personal_dashboard_owns_theme_active
may_paint-element t d = refl

-- Whatever is painted, the page is as if only the calls were made that get past its owners: while
-- a personal theme owns it those that are allowed then, and while the shell owns it the forced
-- ones.
pub apply_theme_tokens_owners :
    (calls : List (ThemeTokens × PaintOptions)) (d : Document)
    → paints calls d ≡ painted_all (filter (may_paint d) calls) d
unfolding filter
apply_theme_tokens_owners [] d = refl
apply_theme_tokens_owners ((t, o) ∷ later) d =
    rw (apply_theme_tokens_if t o d) (elim (Bool-cases (may_paint d (t, o))) [
      | inl e ↦ rw e (
          apply_theme_tokens_owners later (apply_theme_tokens_to_element t d)
          ∙ ap (λ f. painted_all (filter f later) (apply_theme_tokens_to_element t d))
              (may_paint-element t d))
      | inr e ↦ rw e (apply_theme_tokens_owners later d)
    ])
