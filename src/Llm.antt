-- ===== src/Llm.antt =====
-- The error handling and the budgets of the language model's agent (internal/llm).
pub mod Breaker
pub mod Breaking
pub mod Recovery
pub mod Recovering
pub mod Budget
pub mod Spending
