-- ===== src/Theme/Laws.antt =====
-- What holds of the themes.
pub mod Hex
pub mod Moods
pub mod Variables
pub mod Paints
pub mod Confirmed
pub mod Edits
pub mod Answers
pub mod Remote
pub mod Polling
pub mod Preferences
pub mod Saved
pub mod Favorites
pub mod Dashboard
