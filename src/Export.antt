-- ===== src/Export.antt =====
-- The tables that are exported (src/export).
pub mod Tables
