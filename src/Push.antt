-- ===== src/Push.antt =====
-- The pushes of decisions into chats (internal/push).
pub mod Engine
pub mod Cooldown
