-- ===== src/Graph.antt =====
-- The in-memory decision graph (internal/core/memory_graph.go).
pub mod State
pub mod Queries
pub mod Access
pub mod Ranking
pub mod Consistency
pub mod Calls
pub mod Topics
pub mod Search
