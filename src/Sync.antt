-- ===== src/Sync.antt =====
-- The reconciliation of Git with Bitable (internal/sync/sync.go).
pub mod Manager
pub mod Forward
