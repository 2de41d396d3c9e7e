-- ===== src/Lark.antt =====
-- The parts of the Feishu adapters that keep a state.
pub mod Debounce
pub mod Quiet
pub mod Once
pub mod Batcher
pub mod Grouping
pub mod Caching
pub mod Noise
pub mod Discussions
pub mod Conservation
