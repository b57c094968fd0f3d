-- ===== src/Ui.antt =====
-- The UI store: store/ui.ts, store/ui.types.ts and store/ui.persistence.ts.
pub mod Views
pub mod Types
pub mod Themes
pub mod Persistence
pub mod State
pub mod Contexts
pub mod Inspector
pub mod Appearance
pub mod Sidebar
pub mod Tags
pub mod Groups
pub mod Actions
pub mod Fixtures
