-- ===== src/ResourceTable.antt =====
-- features/_shared/ResourceTable.tsx: the table that shows the resources of one kind.
pub mod Columns
pub mod Rows
pub mod Selection
pub mod Bulk
pub mod Loading
mod Tests
