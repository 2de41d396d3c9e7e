-- ===== src/Pipeline.antt =====
-- The pipeline that applies mutations to the stores (internal/core/pipeline.go).
pub mod Engine
pub mod Handlers
pub mod Errors
pub mod Actions
pub mod Consistency
pub mod Effects
pub mod Revert
pub mod Conflicts
pub mod Batches
pub mod Updates
pub mod Tokens
pub mod Aging
