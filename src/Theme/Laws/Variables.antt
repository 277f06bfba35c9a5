-- ===== src/Theme/Laws/Variables.antt =====
-- The variables of CSS that a painting sets.
use guardian_cloud.Prelude.{
  ◌≡◌, ◌≢◌, refl, inl, inr, ap, ◌∙◌, false, Option, some, List, [], ◌∷◌, String, str_eq, eq_iff,
  if◌then◌else◌, Bool-cases, arith,
}
use guardian_cloud.Theme.Tokens.{ThemeTokens, ◌or_text◌}
use guardian_cloud.Theme.Colors.{format_font_family, soft_accent}
use guardian_cloud.Theme.CssVars.{TokenKey, token_css_vars, theme_tokens_to_css_vars}
use guardian_cloud.Theme.Schemes.{entry}
use guardian_cloud.Theme.Document.{
  Document, set_property, set_properties, apply_theme_tokens_to_element,
}

-- what a key is set to, where the last of its settings holds
abbrev pub last_of : String → List (String × String) → Option String → Option String
last_of key [] o = o
last_of key ((k, v) ∷ vars) o = last_of key vars (if str_eq k key then some v else o)

ne_keys :
    (key k v j w : String) (style : List (String × String))
    → str_eq j k ≡ false
    → (if str_eq j key then some w else if str_eq k key then some v else entry key style)
      ≡ (if str_eq k key then some v else if str_eq j key then some w else entry key style)
ne_keys key k v j w style e = elim (Bool-cases (str_eq k key)) [
  | inl f ↦ let apart : str_eq j key ≡ false = rw (← (eq_iff k key).0 f) e in ground arith
  | inr f ↦ ground arith
]

pub entry-set_property :
    (key k v : String) (style : List (String × String))
    → entry key (set_property k v style) ≡ (if str_eq k key then some v else entry key style)
unfolding entry set_property
entry-set_property key k v [] = refl
entry-set_property key k v ((j, w) ∷ style) = elim (Bool-cases (str_eq j k)) [
  | inl e ↦ rw e (rw ((eq_iff j k).0 e) (ground arith))
  | inr e ↦ rw e (rw (entry-set_property key k v style) (ne_keys key k v j w style e))
]

pub entry-set_properties :
    (key : String) (vars style : List (String × String))
    → entry key (set_properties vars style) ≡ last_of key vars (entry key style)
unfolding set_properties
entry-set_properties key [] style = refl
entry-set_properties key ((k, v) ∷ vars) style =
    entry-set_properties key vars (set_property k v style)
    ∙ ap (last_of key vars) (entry-set_property key k v style)

-- The value of a token on the page: missing accents and signals stand in for each other, and the
-- fonts are written for CSS.
abbrev pub shown_value : ThemeTokens → TokenKey → String
shown_value t TokenKey.ink = t.ink
shown_value t TokenKey.ink_soft = t.ink_soft
shown_value t TokenKey.mist = t.mist
shown_value t TokenKey.mist_deep = t.mist_deep
shown_value t TokenKey.signal = t.signal or_text (t.accent or_text t.signal)
shown_value t TokenKey.signal_soft =
    t.signal_soft or_text soft_accent (t.accent or_text t.signal) t.color_scheme
shown_value t TokenKey.alert = t.alert
shown_value t TokenKey.atmosphere_mode = t.atmosphere_mode
shown_value t TokenKey.accent = t.accent or_text t.signal
shown_value t TokenKey.accent2 = t.accent2 or_text (t.accent or_text t.signal)
shown_value t TokenKey.radius = t.radius
shown_value t TokenKey.radius_sm = t.radius_sm
shown_value t TokenKey.radius_lg = t.radius_lg
shown_value t TokenKey.font_display = format_font_family t.font_display
shown_value t TokenKey.font_body = format_font_family t.font_body

last_of-vars :
    (t : ThemeTokens) (k : TokenKey) (o : Option String)
    → k ≢ TokenKey.atmosphere_mode
    → last_of (token_css_vars k) (theme_tokens_to_css_vars t) o ≡ some (shown_value t k)
unfolding token_css_vars theme_tokens_to_css_vars
last_of-vars t TokenKey.ink o n = refl
last_of-vars t TokenKey.ink_soft o n = refl
last_of-vars t TokenKey.mist o n = refl
last_of-vars t TokenKey.mist_deep o n = refl
last_of-vars t TokenKey.signal o n = refl
last_of-vars t TokenKey.signal_soft o n = refl
last_of-vars t TokenKey.alert o n = refl
last_of-vars t TokenKey.atmosphere_mode o n = absurd (n refl)
last_of-vars t TokenKey.accent o n = refl
last_of-vars t TokenKey.accent2 o n = refl
last_of-vars t TokenKey.radius o n = refl
last_of-vars t TokenKey.radius_sm o n = refl
last_of-vars t TokenKey.radius_lg o n = refl
last_of-vars t TokenKey.font_display o n = refl
last_of-vars t TokenKey.font_body o n = refl

last_of_atmosphere :
    (t : ThemeTokens) (o : Option String)
    → last_of (token_css_vars TokenKey.atmosphere_mode) (theme_tokens_to_css_vars t) o ≡ o
unfolding token_css_vars theme_tokens_to_css_vars
last_of_atmosphere t o = refl

-- After a theme is painted on the page, whatever was painted on it before, the variable of each
-- token but the atmosphere has the value of the token, and the variable of the atmosphere is left as
-- it was.
pub apply_theme_tokens_to_element_vars :
    (t : ThemeTokens) (d : Document) (k : TokenKey)
    → let style = (apply_theme_tokens_to_element t d).paint.style in
      (k ≢ TokenKey.atmosphere_mode → entry (token_css_vars k) style ≡ some (shown_value t k))
      × (entry (token_css_vars TokenKey.atmosphere_mode) style
          ≡ entry (token_css_vars TokenKey.atmosphere_mode) d.paint.style)
unfolding apply_theme_tokens_to_element
apply_theme_tokens_to_element_vars t d k =
    let vars = theme_tokens_to_css_vars t in
    let style = d.paint.style in
    (
      λ n.
          entry-set_properties (token_css_vars k) vars style
          ∙ last_of-vars t k (entry (token_css_vars k) style) n,
      entry-set_properties (token_css_vars TokenKey.atmosphere_mode) vars style
          ∙ last_of_atmosphere t (entry (token_css_vars TokenKey.atmosphere_mode) style),
    )
