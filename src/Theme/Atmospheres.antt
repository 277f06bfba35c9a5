-- ===== src/Theme/Atmospheres.antt =====
-- `ATMOSPHERE_PRESETS` (web/src/theme/tokens.ts).
use guardian_cloud.Prelude.{List, [], ◌∷◌, String}

pub record AtmospherePreset : Type 0 where
  pub id : String
  pub label : String
  pub desc : String
  pub bg : String

abbrev pub atmosphere_presets : List AtmospherePreset
atmosphere_presets =
    record {
      id = "void";
      label = "Void";
      desc = "Deep cosmic black, indigo glow";
      bg =
          "radial-gradient(900px 340px at 50% -12%, rgba(129,140,248,0.22), transparent 68%), radial-gradient(700px 260px at 80% 0%, rgba(99,102,241,0.12), transparent 60%), linear-gradient(180deg,#07080f 0%, #0a0b14 45%, #0c0f1e 100%)";
    }
    ∷ record {
      id = "obsidian";
      label = "Obsidian";
      desc = "High contrast, sharp edges";
      bg = "linear-gradient(180deg,#040510 0%, #0a0c1a 55%, #0f1226 100%)";
    }
    ∷ record {
      id = "aurora";
      label = "Aurora";
      desc = "Cyberpunk aurora hues";
      bg =
          "radial-gradient(700px 340px at 12% -8%, rgba(6,182,214,0.26), transparent 64%), radial-gradient(800px 360px at 88% -12%, rgba(139,92,246,0.22), transparent 66%), linear-gradient(180deg,#070a1a 0%, #0c122c 100%)";
    }
    ∷ record {
      id = "nebula";
      label = "Nebula";
      desc = "Violet nebula clouds, superadmin";
      bg =
          "radial-gradient(650px 320px at 18% -6%, rgba(217,70,239,0.22), transparent 62%), radial-gradient(720px 340px at 82% -10%, rgba(99,102,241,0.18), transparent 64%), linear-gradient(180deg,#0b0614 0%, #130a24 55%, #0a0b1e 100%)";
    }
    ∷ record {
      id = "ember";
      label = "Ember";
      desc = "Warm ember, amber glow";
      bg =
          "radial-gradient(750px 320px at 30% -10%, rgba(249,115,22,0.20), transparent 64%), radial-gradient(600px 280px at 78% -6%, rgba(244,63,94,0.16), transparent 62%), linear-gradient(180deg,#160a06 0%, #1a0f0a 50%, #0f0a14 100%)";
    }
    ∷ record {
      id = "ocean";
      label = "Ocean";
      desc = "Deep ocean teal, superadmin";
      bg =
          "radial-gradient(760px 340px at 22% -10%, rgba(20,184,166,0.22), transparent 64%), radial-gradient(700px 300px at 86% -8%, rgba(14,165,233,0.18), transparent 62%), linear-gradient(180deg,#04121a 0%, #081a24 55%, #0a0f1e 100%)";
    }
    ∷ record {
      id = "grid";
      label = "Grid";
      desc = "Tactical grid + glow — dark";
      bg =
          "linear-gradient(rgba(129,140,248,0.06) 1px, transparent 1px), linear-gradient(90deg, rgba(129,140,248,0.06) 1px, transparent 1px), radial-gradient(700px 320px at 50% -10%, rgba(129,140,248,0.16), transparent 70%), linear-gradient(180deg,#070a14,#0d1020)";
    }
    ∷ record {
      id = "snow";
      label = "Snow";
      desc = "Winter snow, falling dots — dark";
      bg =
          "radial-gradient(900px 340px at 50% -12%, rgba(255,255,255,0.10), transparent 68%), radial-gradient(2px 2px at 15% 20%, white 60%, transparent), linear-gradient(180deg,#070a14 0%, #0c1424 55%, #0a0f1e 100%)";
    }
    ∷ record {
      id = "mesh";
      label = "Mesh";
      desc = "Mesh gradient, soft blur — dark";
      bg =
          "radial-gradient(760px 320px at 20% -10%, rgba(99,102,241,0.18), transparent 62%), radial-gradient(700px 340px at 80% -8%, rgba(217,70,239,0.14), transparent 64%), linear-gradient(180deg,#070a14 0%, #0e1430 100%)";
    }
    ∷ record {
      id = "starfield";
      label = "Starfield";
      desc = "Starfield twinkle — dark";
      bg =
          "radial-gradient(1.5px 1.5px at 12% 18%, white 70%, transparent), radial-gradient(1px 1px at 42% 32%, white 60%, transparent), linear-gradient(180deg,#050714 0%, #080a1a 100%)";
    }
    ∷ record {
      id = "mist";
      label = "Mist";
      desc = "Diffused ambient glow — light";
      bg =
          "radial-gradient(800px 320px at 20% -12%, rgba(99,102,241,0.10), transparent 62%), radial-gradient(700px 280px at 85% -8%, rgba(139,92,246,0.08), transparent 64%), linear-gradient(180deg,#f8f9ff 0%, #f1f3f9 55%, #eef0f7 100%)";
    }
    ∷ record {
      id = "daylight";
      label = "Daylight";
      desc = "Bright sky, light blue — light";
      bg =
          "radial-gradient(820px 320px at 18% -12%, rgba(14,165,233,0.14), transparent 62%), radial-gradient(720px 300px at 84% -8%, rgba(99,102,241,0.10), transparent 64%), linear-gradient(180deg,#ffffff 0%, #f0f6ff 55%, #e6efff 100%)";
    }
    ∷ record {
      id = "paper";
      label = "Paper";
      desc = "Warm paper cream — light";
      bg =
          "radial-gradient(760px 300px at 22% -10%, rgba(245,158,11,0.12), transparent 62%), radial-gradient(640px 280px at 82% -6%, rgba(251,146,60,0.08), transparent 64%), linear-gradient(180deg,#fffcf5 0%, #fef7eb 55%, #fdf1d8 100%)";
    }
    ∷ record {
      id = "frost";
      label = "Frost";
      desc = "Icy frost aqua — light";
      bg =
          "radial-gradient(760px 320px at 20% -10%, rgba(6,182,214,0.12), transparent 62%), radial-gradient(680px 280px at 86% -8%, rgba(20,184,166,0.10), transparent 64%), linear-gradient(180deg,#f8fffe 0%, #ecf8f5 55%, #e0f2ee 100%)";
    }
    ∷ record {
      id = "sunrise";
      label = "Sunrise";
      desc = "Peach sunrise coral — light";
      bg =
          "radial-gradient(780px 320px at 24% -10%, rgba(251,113,133,0.14), transparent 62%), radial-gradient(700px 300px at 84% -8%, rgba(249,115,22,0.10), transparent 64%), linear-gradient(180deg,#fff8f6 0%, #fff1e8 55%, #ffe4d6 100%)";
    }
    ∷ record {
      id = "lagoon";
      label = "Lagoon";
      desc = "Tropical lagoon teal — light";
      bg =
          "radial-gradient(780px 320px at 20% -12%, rgba(20,184,166,0.14), transparent 62%), radial-gradient(700px 300px at 85% -8%, rgba(6,182,214,0.12), transparent 64%), linear-gradient(180deg,#f0fdfa 0%, #e0f7f3 55%, #ccfbf1 100%)";
    }
    ∷ record {
      id = "blush";
      label = "Blush";
      desc = "Soft blush pink lavender — light";
      bg =
          "radial-gradient(780px 320px at 20% -10%, rgba(167,139,250,0.14), transparent 62%), radial-gradient(700px 300px at 85% -8%, rgba(236,72,153,0.10), transparent 64%), linear-gradient(180deg,#fdf8ff 0%, #f5f0ff 55%, #ede6ff 100%)";
    }
    ∷ []
