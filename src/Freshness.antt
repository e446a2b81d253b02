-- ===== src/Freshness.antt =====
-- Which records are fresh enough to keep, and which are new (src/freshness).
pub mod Policies
pub mod Dates
pub mod Watermark
pub mod Dedupe
