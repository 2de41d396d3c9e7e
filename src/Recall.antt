-- ===== src/Recall.antt =====
-- The recall of decisions (internal/recall).
pub mod HotScore
pub mod Decay
pub mod Engine
pub mod Answers
