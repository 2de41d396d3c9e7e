-- ===== src/Signal/Detector.antt =====
-- The decision detector (internal/signal/detector.go).
pub mod Details
pub mod Lexical
pub mod Structural
pub mod Patterns
pub mod AntiSignals
pub mod Documents
pub mod Analysis
pub mod Bounds
pub mod Verdicts
