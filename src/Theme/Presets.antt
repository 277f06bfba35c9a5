-- ===== src/Theme/Presets.antt =====
-- The presets of web/src/theme/tokens.ts, and the searches in them.
use guardian_cloud.Prelude.{◌&&◌, Option, List, [], ◌∷◌, String, str_eq, find, ◌otherwise◌}
use guardian_cloud.Theme.Colors.{eq_ignore_case}

pub record AccentPreset : Type 0 where
  pub id : String
  pub label : String
  pub accent : String
  pub accent2 : String

abbrev pub accent_presets : List AccentPreset
accent_presets =
    record {
      id = "indigo-violet";
      label = "Indigo Violet";
      accent = "#6366f1";
      accent2 = "#8b5cf6";
    }
    ∷ record { id = "violet"; label = "Violet"; accent = "#8b5cf6"; accent2 = "#d946ef" }
    ∷ record { id = "blue"; label = "Blue"; accent = "#3b82f6"; accent2 = "#06b6d4" }
    ∷ record { id = "emerald"; label = "Emerald"; accent = "#10b981"; accent2 = "#14b8a6" }
    ∷ record { id = "rose"; label = "Rose"; accent = "#f43f5e"; accent2 = "#fb7185" }
    ∷ record { id = "amber"; label = "Amber"; accent = "#f59e0b"; accent2 = "#f97316" }
    ∷ record { id = "slate"; label = "Slate"; accent = "#64748b"; accent2 = "#475569" }
    ∷ record { id = "cyan"; label = "Cyan"; accent = "#06b6d4"; accent2 = "#22d3ee" }
    ∷ record { id = "orange"; label = "Orange"; accent = "#f97316"; accent2 = "#fb923c" }
    ∷ record { id = "pink"; label = "Pink"; accent = "#ec4899"; accent2 = "#f472b6" }
    ∷ record { id = "forest"; label = "Forest"; accent = "#16a34a"; accent2 = "#22c55e" }
    ∷ record { id = "midnight"; label = "Midnight"; accent = "#0ea5e9"; accent2 = "#6366f1" }
    ∷ record { id = "coral"; label = "Coral"; accent = "#ff6b6b"; accent2 = "#f97316" }
    ∷ record { id = "lavender"; label = "Lavender"; accent = "#a78bfa"; accent2 = "#c4b5fd" }
    ∷ record { id = "graphite"; label = "Graphite"; accent = "#334155"; accent2 = "#64748b" }
    ∷ record { id = "teal"; label = "Teal"; accent = "#14b8a6"; accent2 = "#06b6d4" }
    ∷ []

pub record FontPair : Type 0 where
  pub id : String
  pub label : String
  pub display : String
  pub body : String
  pub desc : String

abbrev pub font_pairs : List FontPair
font_pairs =
    record {
      id = "inter-sora";
      label = "Classic";
      display = "Sora";
      body = "Inter";
      desc = "Sora + Inter";
    }
    ∷ record {
      id = "jakarta-dm";
      label = "Modern";
      display = "Plus Jakarta Sans";
      body = "DM Sans";
      desc = "Jakarta + DM Sans";
    }
    ∷ record {
      id = "space-grotesk";
      label = "Space";
      display = "Space Grotesk";
      body = "Space Grotesk";
      desc = "Space Grotesk";
    }
    ∷ record {
      id = "manrope-outfit";
      label = "Sleek";
      display = "Outfit";
      body = "Manrope";
      desc = "Outfit + Manrope";
    }
    ∷ record {
      id = "archivo";
      label = "Sharp";
      display = "Archivo";
      body = "Inter";
      desc = "Archivo + Inter";
    }
    ∷ record {
      id = "epilogue";
      label = "Elegant";
      display = "Epilogue";
      body = "Inter";
      desc = "Epilogue + Inter";
    }
    ∷ record {
      id = "jetbrains";
      label = "Technical";
      display = "JetBrains Mono";
      body = "Inter";
      desc = "JetBrains Mono + Inter";
    }
    ∷ record {
      id = "lora";
      label = "Editorial";
      display = "Lora";
      body = "Inter";
      desc = "Lora + Inter";
    }
    ∷ []

pub record RadiusPreset : Type 0 where
  pub id : String
  pub label : String
  pub sm : String
  pub md : String
  pub lg : String

abbrev pub radius_presets : List RadiusPreset
radius_presets =
    record { id = "none"; label = "None"; sm = "2px"; md = "4px"; lg = "6px" }
    ∷ record { id = "subtle"; label = "Subtle"; sm = "6px"; md = "8px"; lg = "12px" }
    ∷ record { id = "medium"; label = "Medium"; sm = "10px"; md = "14px"; lg = "22px" }
    ∷ record { id = "rounded"; label = "Rounded"; sm = "14px"; md = "18px"; lg = "28px" }
    ∷ record { id = "full"; label = "Full"; sm = "20px"; md = "24px"; lg = "36px" }
    ∷ []

-- `FONT_PAIRS[0]`
abbrev pub first_font_pair : FontPair
first_font_pair = record {
  id = "inter-sora";
  label = "Classic";
  display = "Sora";
  body = "Inter";
  desc = "Sora + Inter";
}

-- `RADIUS_PRESETS[2]`
abbrev pub medium_radius : RadiusPreset
medium_radius = record { id = "medium"; label = "Medium"; sm = "10px"; md = "14px"; lg = "22px" }

unfoldable pub find_accent_preset : String → Option AccentPreset
unfolding find eq_ignore_case
find_accent_preset accent = find (λ p. eq_ignore_case p.accent accent) accent_presets

unfoldable pub find_font_pair : String → String → FontPair
unfolding find
find_font_pair display body =
    find (λ p. str_eq p.display display && str_eq p.body body) font_pairs otherwise first_font_pair

unfoldable pub find_radius_preset : String → String → String → RadiusPreset
unfolding find
find_radius_preset sm md lg =
    find (λ p. str_eq p.sm sm && (str_eq p.md md && str_eq p.lg lg)) radius_presets
    otherwise medium_radius
