-- ===== src/Collation.antt =====
-- Sorting names by `localeCompare`: `dedupeSorted` of store/ui.ts, and the same expression in
-- store/namespaceFavorites.ts. The collation is the runtime's (ICU) and enters as a parameter.
mod Defs
pub mod Order
pub mod Canonical
pub mod CodePoints
mod Tests
pub use Defs.{Collation, IsAntisymm}
unfoldable pub use Defs.{insert, sort, dedupe_sorted}
