-- ===== src/Llm/Spending.antt =====
-- The budget test and the spending behind it (internal/llm/budget/tracker.go).
use feishu_agent_mem.Prelude.{
  ℕ, ◌+◌, ◌≤◌, ◌<◌, String, List, [], ◌∷◌, true, ◌≡◌, ◌↔◌, ◌⊎◌, ◌∙◌, ap, refl, arith, sign_bit,
  if◌then◌else◌, All,
}
use feishu_agent_mem.Llm.Budget.{
  TokenBudget, BudgetTracker, new_budget_tracker, can_use, consume, get_remaining,
}

-- For amounts that are not negative, the test admits a use exactly when the sum stays within the total
-- or passes 2 ^ 63, where it wraps around to a negative number.
can_use_iff :
    (estimated_tokens : ℕ) (bt : BudgetTracker)
    → bt.used < sign_bit
    → estimated_tokens < sign_bit
    → bt.limits.max_total < sign_bit
    → (can_use estimated_tokens bt ≡ true) ↔ (
        (bt.used + estimated_tokens ≤ bt.limits.max_total)
        ⊎ (sign_bit ≤ bt.used + estimated_tokens))
unfolding can_use
can_use_iff estimated_tokens bt u e m = (λ h. ground arith, λ h. ground arith)

-- Each use is tested and, if it is admitted, consumed.
unfoldable pub spend : String × ℕ → BudgetTracker → BudgetTracker
unfolding can_use consume
spend (tool, tokens) bt = if can_use tokens bt then consume tool tokens bt else bt

unfoldable pub spend_all : List (String × ℕ) → BudgetTracker → BudgetTracker
unfolding spend
spend_all [] bt = bt
spend_all (use_of ∷ uses) bt = spend_all uses (spend use_of bt)

-- Within the total, with what remains; both as plain numbers.
pub record IsWithin (limits : TokenBudget) (bt : BudgetTracker) : Type 0 where
  pub same : bt.limits ≡ limits
  pub used : bt.used ≤ limits.max_total
  pub remaining : get_remaining bt + bt.used ≡ limits.max_total

-- 2 ^ 62: two such amounts add up without a wrap.
abbrev pub quarter : ℕ
quarter = 4611686018427387904

get_remaining_within :
    (bt : BudgetTracker)
    → bt.used ≤ bt.limits.max_total
    → bt.limits.max_total < quarter
    → get_remaining bt + bt.used ≡ bt.limits.max_total
unfolding get_remaining
get_remaining_within bt u m = omega arith

spend-fields :
    (tool : String) (tokens : ℕ) (bt : BudgetTracker)
    → bt.used ≤ bt.limits.max_total
    → bt.limits.max_total < quarter
    → tokens < quarter
    → ((spend (tool, tokens) bt).limits ≡ bt.limits)
      × ((spend (tool, tokens) bt).used ≤ bt.limits.max_total)
unfolding spend can_use consume
spend-fields tool tokens bt u m t = (ground arith, ground arith)

spend_all-keeps :
    (limits : TokenBudget) (uses : List (String × ℕ)) (bt : BudgetTracker)
    → limits.max_total < quarter
    → All (λ u. u.1 < quarter) uses
    → bt.limits ≡ limits
    → bt.used ≤ limits.max_total
    → IsWithin limits (spend_all uses bt)
unfolding spend_all
spend_all-keeps limits [] bt m t same u =
    let total : bt.limits.max_total ≡ limits.max_total = ap (λ l. l.max_total) same in
    record {
      same = same;
      used = u;
      remaining =
          get_remaining_within bt (omega (arith, u, total)) (omega (arith, m, total)) ∙ total;
    }
spend_all-keeps limits ((tool, tokens) ∷ uses) bt m t same u =
    let total : bt.limits.max_total ≡ limits.max_total = ap (λ l. l.max_total) same in
    let fields =
      spend-fields tool tokens bt (omega (arith, u, total)) (omega (arith, m, total)) t.0 in
    spend_all-keeps limits uses (spend (tool, tokens) bt) m t.1 (fields.0 ∙ same)
      (omega (arith, fields.1, total))

-- When every use is tested before it is consumed, what a new tracker has used never exceeds the total
-- and, with what it says remains, makes up the total, for amounts and a total below 2 ^ 62.
pub spend_all-IsWithin :
    (limits : TokenBudget) (uses : List (String × ℕ))
    → limits.max_total < quarter
    → All (λ u. u.1 < quarter) uses
    → IsWithin limits (spend_all uses (new_budget_tracker limits))
unfolding new_budget_tracker
spend_all-IsWithin limits uses m t =
    spend_all-keeps limits uses (new_budget_tracker limits) m t refl (omega arith)
