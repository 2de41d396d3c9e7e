-- ===== src/Signal/Extracts.antt =====
-- The decisions that the model extracted from a text (internal/signal/engine.go).
pub mod Filter
pub mod Merge
pub mod Merged
