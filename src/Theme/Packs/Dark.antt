-- ===== src/Theme/Packs/Dark.antt =====
-- `THEME_PACKS` (web/src/theme/tokens.ts): the dark moods.
use guardian_cloud.Prelude.{some, none, List, [], ◌∷◌}
use guardian_cloud.Theme.Tokens.{ColorScheme, ThemePackKind, ThemePack}

abbrev pub dark_moods : List ThemePack
dark_moods =
    record {
      id = "aurora-ops";
      label = "Aurora Ops";
      description = "Neon night watch — cyan aurora over deep navy";
      mood = "Electric · neon";
      kind = ThemePackKind.mood;
      scheme = ColorScheme.dark;
      accent = "#22d3ee";
      accent2 = "#a78bfa";
      font_display = "Space Grotesk";
      font_body = "Space Grotesk";
      radius = "18px";
      radius_sm = "12px";
      radius_lg = "28px";
      atmosphere = "aurora";
      mist = some "#070a1a";
      mist_deep = some "#0c122c";
      ink = some "#e0f7ff";
      ink_soft = some "#7dd3fc";
      alert = some "#fb7185";
    }
    ∷ record {
      id = "snow-ops";
      label = "Snow Ops";
      description = "Winter night desk — frost flakes on charcoal";
      mood = "Cold · quiet · winter";
      kind = ThemePackKind.mood;
      scheme = ColorScheme.dark;
      accent = "#e2e8f0";
      accent2 = "#94a3b8";
      font_display = "Sora";
      font_body = "Inter";
      radius = "16px";
      radius_sm = "12px";
      radius_lg = "24px";
      atmosphere = "snow";
      mist = some "#070a14";
      mist_deep = some "#0c1424";
      ink = some "#f8fafc";
      ink_soft = some "#cbd5e1";
      alert = none;
    }
    ∷ record {
      id = "starfield-night";
      label = "Starfield";
      description = "Deep space ops — pinpoint stars, silver signal";
      mood = "Cosmic · quiet · night";
      kind = ThemePackKind.mood;
      scheme = ColorScheme.dark;
      accent = "#f8fafc";
      accent2 = "#a78bfa";
      font_display = "Archivo";
      font_body = "Inter";
      radius = "12px";
      radius_sm = "8px";
      radius_lg = "18px";
      atmosphere = "starfield";
      mist = some "#050714";
      mist_deep = some "#080a1a";
      ink = some "#f1f5f9";
      ink_soft = some "#a5b4fc";
      alert = none;
    }
    ∷ record {
      id = "nebula-pulse";
      label = "Nebula Pulse";
      description = "Violet nebula clouds — magenta energy";
      mood = "Dream · violet · pulse";
      kind = ThemePackKind.mood;
      scheme = ColorScheme.dark;
      accent = "#e879f9";
      accent2 = "#818cf8";
      font_display = "Plus Jakarta Sans";
      font_body = "DM Sans";
      radius = "16px";
      radius_sm = "12px";
      radius_lg = "26px";
      atmosphere = "nebula";
      mist = some "#0b0614";
      mist_deep = some "#130a24";
      ink = some "#fdf4ff";
      ink_soft = some "#e9d5ff";
      alert = none;
    }
    ∷ record {
      id = "mesh-midnight";
      label = "Mesh Midnight";
      description = "Soft mesh blur — indigo haze, modern type";
      mood = "Soft · midnight · haze";
      kind = ThemePackKind.mood;
      scheme = ColorScheme.dark;
      accent = "#8b5cf6";
      accent2 = "#6366f1";
      font_display = "Plus Jakarta Sans";
      font_body = "DM Sans";
      radius = "14px";
      radius_sm = "10px";
      radius_lg = "22px";
      atmosphere = "mesh";
      mist = some "#070a14";
      mist_deep = some "#0e1430";
      ink = some "#ede9fe";
      ink_soft = some "#c4b5fd";
      alert = none;
    }
    ∷ record {
      id = "ember-forge";
      label = "Ember Forge";
      description = "Warm forge floor — amber heat on charcoal";
      mood = "Warm · urgent";
      kind = ThemePackKind.mood;
      scheme = ColorScheme.dark;
      accent = "#f59e0b";
      accent2 = "#f97316";
      font_display = "Archivo";
      font_body = "Inter";
      radius = "8px";
      radius_sm = "6px";
      radius_lg = "12px";
      atmosphere = "ember";
      mist = some "#140a06";
      mist_deep = some "#1a0f0a";
      ink = some "#fff7ed";
      ink_soft = some "#fdba74";
      alert = some "#ef4444";
    }
    ∷ record {
      id = "grid-tactical";
      label = "Grid Tactical";
      description = "Mission grid — mono type, tight corners";
      mood = "Tactical · precise";
      kind = ThemePackKind.mood;
      scheme = ColorScheme.dark;
      accent = "#6366f1";
      accent2 = "#818cf8";
      font_display = "JetBrains Mono";
      font_body = "Inter";
      radius = "6px";
      radius_sm = "4px";
      radius_lg = "10px";
      atmosphere = "grid";
      mist = some "#070a14";
      mist_deep = some "#0d1020";
      ink = some "#e2e8f0";
      ink_soft = some "#94a3b8";
      alert = none;
    }
    ∷ record {
      id = "ocean-depth";
      label = "Ocean Depth";
      description = "Deep water ops — teal pressure, soft curves";
      mood = "Deep · fluid";
      kind = ThemePackKind.mood;
      scheme = ColorScheme.dark;
      accent = "#2dd4bf";
      accent2 = "#38bdf8";
      font_display = "Outfit";
      font_body = "Manrope";
      radius = "20px";
      radius_sm = "14px";
      radius_lg = "32px";
      atmosphere = "ocean";
      mist = some "#04121a";
      mist_deep = some "#081a24";
      ink = some "#ecfeff";
      ink_soft = some "#5eead4";
      alert = none;
    }
    ∷ record {
      id = "obsidian-ink";
      label = "Obsidian Ink";
      description = "High-contrast ink black — razor edges";
      mood = "Sharp · ink · contrast";
      kind = ThemePackKind.mood;
      scheme = ColorScheme.dark;
      accent = "#fbbf24";
      accent2 = "#f97316";
      font_display = "Archivo";
      font_body = "Inter";
      radius = "4px";
      radius_sm = "2px";
      radius_lg = "8px";
      atmosphere = "obsidian";
      mist = some "#040510";
      mist_deep = some "#0a0c1a";
      ink = some "#f8fafc";
      ink_soft = some "#94a3b8";
      alert = none;
    }
    ∷ []
