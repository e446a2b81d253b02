-- ===== src/Tests.antt =====
-- Runs on small inputs, and each theorem with hypotheses at an input that meets them.
mod Breaker
mod Limiting
mod Retrying
mod Chunking
mod Merging
mod Orchestrating
mod Working
mod Freshening
mod Ingesting
mod Storing
mod Resolving
mod Exporting
mod Persisting
mod Providing
mod Fetching
mod Archiving
mod Enriching
mod Importing
mod Parsing
mod Sharing
mod Logging
mod Crawling
