-- ===== src/Theme/Tokens.antt =====
-- The types and the default tokens of web/src/theme/tokens.ts.
use guardian_cloud.Prelude.{ℕ, Bool, true, false, Option, none, some, String, str_eq, if◌then◌else◌}

pub data ColorScheme : Type 0 where
  light dark : ColorScheme

-- `pack_id` is the optional `packId`. A text that is missing at runtime is the empty one: the code
-- replaces both alike, by `||`.
pub record ThemeTokens : Type 0 where
  pub ink : String
  pub ink_soft : String
  pub mist : String
  pub mist_deep : String
  pub signal : String
  pub signal_soft : String
  pub alert : String
  pub atmosphere_mode : String
  pub color_scheme : ColorScheme
  pub accent : String
  pub accent2 : String
  pub radius : String
  pub radius_sm : String
  pub radius_lg : String
  pub font_display : String
  pub font_body : String
  pub pack_id : Option String

-- `ThemeTokens & { version, updatedAt? }`
pub record PlatformTheme : Type 0 where
  pub tokens : ThemeTokens
  pub version : ℕ
  pub updated_at : Option String

pub data ThemePackKind : Type 0 where
  standard mood : ThemePackKind

pub record ThemePack : Type 0 where
  pub id : String
  pub label : String
  pub description : String
  pub mood : String
  pub kind : ThemePackKind
  pub scheme : ColorScheme
  pub accent : String
  pub accent2 : String
  pub font_display : String
  pub font_body : String
  pub radius : String
  pub radius_sm : String
  pub radius_lg : String
  pub atmosphere : String
  pub mist : Option String
  pub mist_deep : Option String
  pub ink : Option String
  pub ink_soft : Option String
  pub alert : Option String

abbrev pub same_scheme : ColorScheme → ColorScheme → Bool
same_scheme ColorScheme.light ColorScheme.light = true
same_scheme ColorScheme.dark ColorScheme.dark = true
same_scheme _ _ = false

-- `a || b` on texts
infixr 6 ◌or_text◌
abbrev pub ◌or_text◌ : String → String → String
a or_text b = if str_eq a "" then b else a

-- `a || b`, where the first text may be absent
abbrev pub text_or : Option String → String → String
text_or none b = b
text_or (some a) b = a or_text b

abbrev pub light_defaults : ThemeTokens
light_defaults = record {
  ink = "#0f172a";
  ink_soft = "#475569";
  mist = "#f6f7fb";
  mist_deep = "#f1f3f9";
  signal = "#6366f1";
  signal_soft = "#e0e7ff";
  alert = "#dc2626";
  atmosphere_mode = "mist";
  color_scheme = ColorScheme.light;
  accent = "#6366f1";
  accent2 = "#8b5cf6";
  radius = "14px";
  radius_sm = "10px";
  radius_lg = "22px";
  font_display = "Sora";
  font_body = "Inter";
  pack_id = none;
}

abbrev pub dark_defaults : ThemeTokens
dark_defaults = record {
  ink = "#f1f5f9";
  ink_soft = "#a2acc4";
  mist = "#0a0b14";
  mist_deep = "#12141f";
  signal = "#818cf8";
  signal_soft = "rgba(129,140,248,0.15)";
  alert = "#f87171";
  atmosphere_mode = "void";
  color_scheme = ColorScheme.dark;
  accent = "#818cf8";
  accent2 = "#a78bfa";
  radius = "14px";
  radius_sm = "10px";
  radius_lg = "22px";
  font_display = "Sora";
  font_body = "Inter";
  pack_id = none;
}

-- `WATCHLINE_DEFAULTS`
abbrev pub watchline_defaults : ThemeTokens
watchline_defaults = dark_defaults
