-- ===== src/Decision.antt =====
-- Decisions, their relation edges and objections (internal/decision).
pub mod Types
pub mod Node
pub mod Edges
