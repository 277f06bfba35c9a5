-- ===== src/Admin/Laws.antt =====
-- What holds of the store: its audit trail, its ids, its look-ups, its figures and its settings.
pub mod Trail
pub mod Frame
pub mod Ids
pub mod Unique
pub mod Collision
pub mod Lookup
pub mod Figures
pub mod Merging
pub mod Timeline
pub mod Category
pub mod Toggles
