-- ===== src/Schemas.antt =====
-- The canonical records and what their classes check (src/schemas).
pub mod Common
