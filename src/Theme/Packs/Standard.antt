-- ===== src/Theme/Packs/Standard.antt =====
-- `THEME_PACKS` (web/src/theme/tokens.ts): the standards.
use guardian_cloud.Prelude.{some, none, List, [], ◌∷◌}
use guardian_cloud.Theme.Tokens.{ColorScheme, ThemePackKind, ThemePack}

abbrev pub standard_packs : List ThemePack
standard_packs =
    record {
      id = "watchline-dark";
      label = "Watchline Dark";
      description = "Default Guardian ops shell";
      mood = "Calm · reliable · SOC-ready";
      kind = ThemePackKind.standard;
      scheme = ColorScheme.dark;
      accent = "#818cf8";
      accent2 = "#a78bfa";
      font_display = "Sora";
      font_body = "Inter";
      radius = "14px";
      radius_sm = "10px";
      radius_lg = "22px";
      atmosphere = "void";
      mist = some "#0a0b14";
      mist_deep = some "#12141f";
      ink = none;
      ink_soft = none;
      alert = none;
    }
    ∷ record {
      id = "watchline-light";
      label = "Watchline Light";
      description = "Bright daytime ops shell";
      mood = "Clear · airy · focused";
      kind = ThemePackKind.standard;
      scheme = ColorScheme.light;
      accent = "#6366f1";
      accent2 = "#8b5cf6";
      font_display = "Sora";
      font_body = "Inter";
      radius = "14px";
      radius_sm = "10px";
      radius_lg = "22px";
      atmosphere = "mist";
      mist = some "#f6f7fb";
      mist_deep = some "#eef0f7";
      ink = none;
      ink_soft = none;
      alert = none;
    }
    ∷ []
