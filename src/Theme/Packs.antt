-- ===== src/Theme/Packs.antt =====
-- `THEME_PACKS` (web/src/theme/tokens.ts).
mod Standard
mod Dark
mod Light
use guardian_cloud.Prelude.{List, ◌++◌}
use guardian_cloud.Theme.Tokens.{ThemePack}
use guardian_cloud.Theme.Packs.Standard.{standard_packs}
use guardian_cloud.Theme.Packs.Dark.{dark_moods}
use guardian_cloud.Theme.Packs.Light.{light_moods}

abbrev pub theme_packs : List ThemePack
theme_packs = standard_packs ++ (dark_moods ++ light_moods)
