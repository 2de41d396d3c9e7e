-- ===== src/Search.antt =====
-- The search tool for agents (internal/search).
pub mod Results
pub mod Tool
pub mod Answers
pub mod Cached
