-- ===== src/Conflict.antt =====
-- The arbitration of conflicting decisions (internal/core/conflict_resolver.go).
pub mod Resolver
pub mod Decisions
