-- ===== src/Entities.antt =====
-- Resolution of entity names against a seeded table (src/entities).
pub mod Normalizer
pub mod Aliases
pub mod Matcher
pub mod MappingStore
