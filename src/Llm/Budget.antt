-- ===== src/Llm/Budget.antt =====
-- The token budget and the cost estimator of the model calls (internal/llm/budget/tracker.go and
-- cost_estimator.go). An int is its 64-bit pattern.
use feishu_agent_mem.Prelude.{
  ℕ, String, List, [], ◌∷◌, ◌++◌, Bool, none, some, Map, lookup, insert, add_int, sub_int, int_leb,
}

pub record TokenBudget : Type 0 where
  pub search_tool : ℕ
  pub file_read : ℕ
  pub total_per_agent : ℕ
  pub max_total : ℕ

abbrev pub default_budget : TokenBudget
default_budget = record {
  search_tool = 20000;
  file_read = 10000;
  total_per_agent = 8000;
  max_total = 50000;
}

pub record BudgetTracker : Type 0 where
  pub used : ℕ
  pub limits : TokenBudget
  pub history : List String

unfoldable pub new_budget_tracker : TokenBudget → BudgetTracker
new_budget_tracker limits = record { used = 0; limits = limits; history = [] }

unfoldable pub can_use : ℕ → BudgetTracker → Bool
can_use estimated_tokens bt = int_leb (add_int bt.used estimated_tokens) bt.limits.max_total

unfoldable pub consume : String → ℕ → BudgetTracker → BudgetTracker
consume tool tokens bt = record bt {
  used = add_int bt.used tokens;
  history = bt.history ++ tool ∷ [];
}

unfoldable pub get_remaining : BudgetTracker → ℕ
get_remaining bt = sub_int bt.limits.max_total bt.used

abbrev pub new_cost_estimator : Map ℕ
new_cost_estimator =
    ("mcp.search", 500)
    ∷ ("mcp.topic", 1000)
    ∷ ("mcp.decision", 300)
    ∷ ("mcp.timeline", 600)
    ∷ ("mcp.conflict", 400)
    ∷ ("mcp.signal", 300)
    ∷ ("llm.call", 2000)
    ∷ []

unfoldable pub estimate : String → Map ℕ → ℕ
estimate tool costs = elim (lookup tool costs) [ none ↦ 0 | some cost ↦ cost ]

unfoldable pub register_cost : String → ℕ → Map ℕ → Map ℕ
register_cost tool cost costs = insert tool cost costs
