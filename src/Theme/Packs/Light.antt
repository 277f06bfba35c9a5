-- ===== src/Theme/Packs/Light.antt =====
-- `THEME_PACKS` (web/src/theme/tokens.ts): the light moods.
use guardian_cloud.Prelude.{some, none, List, [], ◌∷◌}
use guardian_cloud.Theme.Tokens.{ColorScheme, ThemePackKind, ThemePack}

abbrev pub light_moods : List ThemePack
light_moods =
    record {
      id = "paper-board";
      label = "Paper Boardroom";
      description = "Editorial slate — cream paper, crisp type";
      mood = "Formal · editorial";
      kind = ThemePackKind.mood;
      scheme = ColorScheme.light;
      accent = "#0f172a";
      accent2 = "#334155";
      font_display = "Epilogue";
      font_body = "Inter";
      radius = "10px";
      radius_sm = "6px";
      radius_lg = "16px";
      atmosphere = "paper";
      mist = some "#fffcf5";
      mist_deep = some "#f5efe3";
      ink = some "#0f172a";
      ink_soft = some "#475569";
      alert = none;
    }
    ∷ record {
      id = "lagoon-tide";
      label = "Lagoon Tide";
      description = "Coastal calm — soft teal wash, rounded glass";
      mood = "Airy · coastal";
      kind = ThemePackKind.mood;
      scheme = ColorScheme.light;
      accent = "#0d9488";
      accent2 = "#06b6d4";
      font_display = "Outfit";
      font_body = "Manrope";
      radius = "18px";
      radius_sm = "12px";
      radius_lg = "28px";
      atmosphere = "lagoon";
      mist = some "#f0fdfa";
      mist_deep = some "#ccfbf1";
      ink = some "#134e4a";
      ink_soft = some "#0f766e";
      alert = none;
    }
    ∷ record {
      id = "sunrise-studio";
      label = "Sunrise Studio";
      description = "Morning studio — peach glow, serif headers";
      mood = "Warm · dawn";
      kind = ThemePackKind.mood;
      scheme = ColorScheme.light;
      accent = "#e11d48";
      accent2 = "#f97316";
      font_display = "Lora";
      font_body = "Inter";
      radius = "16px";
      radius_sm = "12px";
      radius_lg = "26px";
      atmosphere = "sunrise";
      mist = some "#fff8f6";
      mist_deep = some "#ffe4d6";
      ink = some "#4c0519";
      ink_soft = some "#9f1239";
      alert = none;
    }
    ∷ record {
      id = "frost-lab";
      label = "Frost Lab";
      description = "Clinical frost — ice blue, sharp geometry";
      mood = "Cool · clinical";
      kind = ThemePackKind.mood;
      scheme = ColorScheme.light;
      accent = "#0284c7";
      accent2 = "#06b6d4";
      font_display = "Sora";
      font_body = "Inter";
      radius = "8px";
      radius_sm = "4px";
      radius_lg = "12px";
      atmosphere = "frost";
      mist = some "#f8fffe";
      mist_deep = some "#e0f2fe";
      ink = some "#0c4a6e";
      ink_soft = some "#0369a1";
      alert = none;
    }
    ∷ record {
      id = "daylight-sky";
      label = "Daylight Sky";
      description = "Bright open sky — crisp blue wash";
      mood = "Bright · open · sky";
      kind = ThemePackKind.mood;
      scheme = ColorScheme.light;
      accent = "#2563eb";
      accent2 = "#0ea5e9";
      font_display = "Inter";
      font_body = "Inter";
      radius = "14px";
      radius_sm = "10px";
      radius_lg = "22px";
      atmosphere = "daylight";
      mist = some "#ffffff";
      mist_deep = some "#e6efff";
      ink = some "#1e3a8a";
      ink_soft = some "#3b82f6";
      alert = none;
    }
    ∷ record {
      id = "orchid-blush";
      label = "Orchid Blush";
      description = "Soft lavender blush — modern rounded chrome";
      mood = "Soft · orchid · blush";
      kind = ThemePackKind.mood;
      scheme = ColorScheme.light;
      accent = "#a78bfa";
      accent2 = "#ec4899";
      font_display = "Plus Jakarta Sans";
      font_body = "DM Sans";
      radius = "20px";
      radius_sm = "14px";
      radius_lg = "30px";
      atmosphere = "blush";
      mist = some "#fdf8ff";
      mist_deep = some "#ede6ff";
      ink = some "#4c1d95";
      ink_soft = some "#7c3aed";
      alert = none;
    }
    ∷ record {
      id = "honey-paper";
      label = "Honey Paper";
      description = "Warm honey cream — amber accents on parchment";
      mood = "Warm · honey · paper";
      kind = ThemePackKind.mood;
      scheme = ColorScheme.light;
      accent = "#d97706";
      accent2 = "#f59e0b";
      font_display = "Lora";
      font_body = "Inter";
      radius = "14px";
      radius_sm = "10px";
      radius_lg = "22px";
      atmosphere = "paper";
      mist = some "#fffbeb";
      mist_deep = some "#fde68a";
      ink = some "#78350f";
      ink_soft = some "#b45309";
      alert = none;
    }
    ∷ record {
      id = "mint-breeze";
      label = "Mint Breeze";
      description = "Fresh mint glass — soft green lagoon light";
      mood = "Fresh · mint · breeze";
      kind = ThemePackKind.mood;
      scheme = ColorScheme.light;
      accent = "#059669";
      accent2 = "#14b8a6";
      font_display = "Outfit";
      font_body = "Manrope";
      radius = "16px";
      radius_sm = "12px";
      radius_lg = "24px";
      atmosphere = "lagoon";
      mist = some "#f0fdf4";
      mist_deep = some "#bbf7d0";
      ink = some "#14532d";
      ink_soft = some "#15803d";
      alert = none;
    }
    ∷ []
