-- ===== src/Fetch.antt =====
-- src/fetch: how sources are asked, how often, and how failures are retried.
pub mod Retry
pub mod RateLimiter
pub mod Client
