-- ===== src/TablePrefs/Tests.antt =====
-- Hiding a column of a table.
