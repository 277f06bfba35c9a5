-- ===== src/Theme.antt =====
-- web/src/theme: the tokens of a theme, and who paints them on the page.
pub mod Tokens
pub mod Colors
pub mod Packs
pub mod Presets
pub mod Atmospheres
pub mod Schemes
pub mod CssVars
pub mod Document
pub mod Platform
pub mod Provider
pub mod DashboardApi
pub mod Personal
pub mod NavTypes
pub mod Nav
pub mod Shell
pub mod Laws
mod Tests
