-- ===== src/Signal.antt =====
-- Signals, mutations and the state machine (internal/signal).
pub mod Types
pub mod Texts
pub mod StateMachine
pub mod Transitions
pub mod Router
pub mod Plans
pub mod Ids
pub mod Uniqueness
pub mod Updater
pub mod Settling
pub mod Detector
pub mod Emitter
pub mod Emitting
pub mod Extracts
