-- ===== src/Crawlers.antt =====
-- The sources' candidates and what the adapters make of a page (src/crawlers).
pub mod Candidates
pub mod GitHub
pub mod PapersWithCode
pub mod YCombinator
