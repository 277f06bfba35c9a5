-- ===== src/Theme/Schemes.antt =====
-- Light and dark (web/src/theme/tokens.ts): the atmospheres of each, and themes that change scheme.
use guardian_cloud.Prelude.{
  Bool, true, false, ◌&&◌, Option, none, some, List, [], ◌∷◌, String, str_eq, find, if◌then◌else◌,
  ◌>>=◌,
}
use guardian_cloud.Theme.Tokens.{
  ColorScheme, ThemeTokens, ThemePack, same_scheme, ◌or_text◌, text_or, light_defaults,
  dark_defaults,
}
use guardian_cloud.Theme.Colors.{soft_accent}
use guardian_cloud.Theme.Packs.{theme_packs}

-- `set.has(text)`
unfoldable pub has : String → List String → Bool
has t [] = false
has t (x ∷ xs) = if str_eq x t then true else has t xs

abbrev pub light_atmos : List String
light_atmos = "mist" ∷ "daylight" ∷ "paper" ∷ "frost" ∷ "sunrise" ∷ "lagoon" ∷ "blush" ∷ []

abbrev pub dark_atmos : List String
dark_atmos =
    "void" ∷ "obsidian" ∷ "aurora" ∷ "nebula" ∷ "ember" ∷ "ocean" ∷ "grid" ∷ "snow" ∷ "mesh"
    ∷ "starfield" ∷ []

abbrev pub atmosphere_scheme_pair : List (String × String)
atmosphere_scheme_pair =
    ("mist", "void")
    ∷ ("void", "mist")
    ∷ ("daylight", "aurora")
    ∷ ("aurora", "daylight")
    ∷ ("paper", "obsidian")
    ∷ ("obsidian", "paper")
    ∷ ("frost", "snow")
    ∷ ("snow", "frost")
    ∷ ("sunrise", "ember")
    ∷ ("ember", "sunrise")
    ∷ ("lagoon", "ocean")
    ∷ ("ocean", "lagoon")
    ∷ ("blush", "nebula")
    ∷ ("nebula", "blush")
    ∷ ("grid", "daylight")
    ∷ ("mesh", "blush")
    ∷ ("starfield", "daylight")
    ∷ []

-- `table[key]`
unfoldable pub entry : String → List (String × String) → Option String
entry key [] = none
entry key ((k, v) ∷ table) = if str_eq k key then some v else entry key table

-- the atmospheres of a scheme, and the one that stands for it
abbrev pub atmospheres_of : ColorScheme → List String
atmospheres_of ColorScheme.light = light_atmos
atmospheres_of ColorScheme.dark = dark_atmos

abbrev pub plain_atmosphere : ColorScheme → String
plain_atmosphere ColorScheme.light = "mist"
plain_atmosphere ColorScheme.dark = "void"

abbrev pub paired_or : ColorScheme → Option String → String
paired_or scheme none = plain_atmosphere scheme
paired_or scheme (some paired) =
    if has paired (atmospheres_of scheme) then paired else plain_atmosphere scheme

unfoldable pub pair_atmosphere_for_scheme : String → ColorScheme → String
pair_atmosphere_for_scheme atmosphere scheme =
    if has atmosphere (atmospheres_of scheme)
    then atmosphere
    else paired_or scheme (entry atmosphere atmosphere_scheme_pair)

abbrev pub defaults_of : ColorScheme → ThemeTokens
defaults_of ColorScheme.light = light_defaults
defaults_of ColorScheme.dark = dark_defaults

pub record Canvas : Type 0 where
  pub mist : String
  pub mist_deep : String
  pub ink : String
  pub ink_soft : String
  pub alert : String
  pub signal_soft : String

-- the canvas of a donor pack, `donor?.field || defaults.field`
abbrev pub canvas_of : Option ThemePack → ThemeTokens → String → ColorScheme → Canvas
canvas_of donor defaults accent scheme = record {
  mist = text_or (donor >>= λ p. p.mist) defaults.mist;
  mist_deep = text_or (donor >>= λ p. p.mist_deep) defaults.mist_deep;
  ink = text_or (donor >>= λ p. p.ink) defaults.ink;
  ink_soft = text_or (donor >>= λ p. p.ink_soft) defaults.ink_soft;
  alert = text_or (donor >>= λ p. p.alert) defaults.alert;
  signal_soft = soft_accent accent scheme;
}

unfoldable pub canvas_from_atmosphere_donor : String → ColorScheme → String → Canvas
unfolding find soft_accent
canvas_from_atmosphere_donor atmosphere scheme accent =
    canvas_of
      (find (λ p. str_eq p.atmosphere atmosphere && same_scheme p.scheme scheme) theme_packs)
      (defaults_of scheme) accent scheme

unfoldable pub apply_scheme_to_theme : ThemeTokens → ColorScheme → ThemeTokens
unfolding soft_accent
apply_scheme_to_theme base scheme =
    let defaults = defaults_of scheme in
    let accent = base.accent or_text defaults.accent in
    record base {
      color_scheme = scheme;
      ink = defaults.ink;
      ink_soft = defaults.ink_soft;
      mist = defaults.mist;
      mist_deep = defaults.mist_deep;
      alert = defaults.alert;
      atmosphere_mode = defaults.atmosphere_mode;
      signal_soft = soft_accent accent scheme;
      accent = accent;
      accent2 = base.accent2 or_text defaults.accent2;
      signal = accent;
      radius = base.radius or_text defaults.radius;
      radius_sm = base.radius_sm or_text defaults.radius_sm;
      radius_lg = base.radius_lg or_text defaults.radius_lg;
      font_display = base.font_display or_text defaults.font_display;
      font_body = base.font_body or_text defaults.font_body;
    }

unfoldable pub apply_scheme_to_theme_preserve : ThemeTokens → ColorScheme → ThemeTokens
apply_scheme_to_theme_preserve base scheme =
    let defaults = defaults_of scheme in
    let accent = base.accent or_text defaults.accent in
    let atmosphere_mode =
      pair_atmosphere_for_scheme (base.atmosphere_mode or_text defaults.atmosphere_mode) scheme in
    let canvas = canvas_from_atmosphere_donor atmosphere_mode scheme accent in
    let changed = record base {
      color_scheme = scheme;
      atmosphere_mode = atmosphere_mode;
      mist = canvas.mist;
      mist_deep = canvas.mist_deep;
      ink = canvas.ink;
      ink_soft = canvas.ink_soft;
      alert = base.alert or_text canvas.alert;
      signal_soft = canvas.signal_soft;
      accent = accent;
      accent2 = base.accent2 or_text defaults.accent2;
      signal = accent;
      radius = base.radius or_text defaults.radius;
      radius_sm = base.radius_sm or_text defaults.radius_sm;
      radius_lg = base.radius_lg or_text defaults.radius_lg;
      font_display = base.font_display or_text defaults.font_display;
      font_body = base.font_body or_text defaults.font_body;
    } in
    if same_scheme base.color_scheme scheme then base else changed

-- the function gives a new object of the same tokens
unfoldable pub preset_for_scheme : ColorScheme → ThemeTokens
preset_for_scheme scheme = defaults_of scheme

unfoldable pub theme_pack_to_tokens : ThemePack → ThemeTokens
unfolding soft_accent
theme_pack_to_tokens p =
    let base = defaults_of p.scheme in
    record base {
      color_scheme = p.scheme;
      accent = p.accent;
      accent2 = p.accent2;
      signal = p.accent;
      signal_soft = soft_accent p.accent p.scheme;
      font_display = p.font_display;
      font_body = p.font_body;
      radius = p.radius;
      radius_sm = p.radius_sm;
      radius_lg = p.radius_lg;
      atmosphere_mode = p.atmosphere;
      mist = text_or p.mist base.mist;
      mist_deep = text_or p.mist_deep base.mist_deep;
      ink = text_or p.ink base.ink;
      ink_soft = text_or p.ink_soft base.ink_soft;
      alert = text_or p.alert base.alert;
      pack_id = some p.id;
    }
