-- ===== src/Parsing.antt =====
-- src/parsing
pub mod FullText
