-- ===== src/Signal/Plans.antt =====
-- The query plans of the router (internal/signal/router.go).
use feishu_agent_mem.Prelude.{
  ℕ, ◌+◌, ◌≤◌, String, str_eq, List, [], ◌∷◌, ◌≡◌, ◌≢◌, ◌↔◌, refl, Bool, true, false, All, arith,
  Bool-cases, inl, inr,
}
use feishu_agent_mem.Signal.Types.{
  AdapterType, im, SignalStrength, strong, medium, weak, StateChangeSignal,
}
use feishu_agent_mem.Signal.Router.{
  adapter_text, ActivationPriority, skip, may, should, must, ContextQuery, route_one, route_from,
  route, adapters, get_priority, matrix_weight,
}

-- The sum of the budgets of the queries.
abbrev pub planned_tokens : List ContextQuery → ℕ
planned_tokens [] = 0
planned_tokens (q ∷ qs) = q.token_budget + planned_tokens qs

-- The priorities count up from a number.
abbrev pub AreNumbered : ℕ → List ContextQuery → Type 0
AreNumbered n [] = Unit
AreNumbered n (q ∷ qs) = (q.priority ≡ n) × AreNumbered (n + 1) qs

abbrev IsOther : AdapterType → ContextQuery → Type 0
IsOther source q = str_eq (adapter_text q.target_adapter) (adapter_text source) ≡ false

-- Each query goes to another adapter than the signal's and has tokens, and they are numbered in order.
abbrev IsPlan : AdapterType → ℕ → List ContextQuery → Type 0
IsPlan source n qs = All (λ q. IsOther source q × (500 ≤ q.token_budget)) qs × AreNumbered n qs

route_one-IsPlan :
    (source adapter : AdapterType) (priority : ActivationPriority) (n : ℕ)
    (rest : ℕ → List ContextQuery)
    → str_eq (adapter_text adapter) (adapter_text source) ≡ false
    → ((m : ℕ) → IsPlan source m (rest m))
    → IsPlan source n (route_one adapter priority n rest)
unfolding route_one
route_one-IsPlan source adapter skip n rest h plan = plan n
route_one-IsPlan source adapter may n rest h plan =
    (((h, omega arith), (plan (n + 1)).0), (refl, (plan (n + 1)).1))
route_one-IsPlan source adapter should n rest h plan =
    (((h, omega arith), (plan (n + 1)).0), (refl, (plan (n + 1)).1))
route_one-IsPlan source adapter must n rest h plan =
    (((h, omega arith), (plan (n + 1)).0), (refl, (plan (n + 1)).1))

route_from-IsPlan :
    (source : AdapterType) (strength : SignalStrength) (targets : List AdapterType) (n : ℕ)
    → IsPlan source n (route_from source strength targets n)
unfolding route_from
route_from-IsPlan source strength [] n = (tt, tt)
route_from-IsPlan source strength (a ∷ targets) n =
    elim (Bool-cases (str_eq (adapter_text a) (adapter_text source))) [
      | inl h ↦ rw h (route_from-IsPlan source strength targets n)
      | inr h ↦ rw h (
          route_one-IsPlan source a (get_priority (matrix_weight source strength a)) n
            (route_from source strength targets) h (route_from-IsPlan source strength targets))
    ]

-- Whatever the signal, no query of its plan goes back to the adapter that the signal came from, each
-- has at least 500 tokens, and the priorities count up from 0 in the order of the queries.
pub route_lem :
    (signal : StateChangeSignal)
    → let queries = (route signal).queries in
      All
        (λ q.
          (str_eq (adapter_text q.target_adapter) (adapter_text signal.adapter) ≡ false)
          × (500 ≤ q.token_budget))
        queries
      × AreNumbered 0 queries
unfolding route
route_lem signal = route_from-IsPlan signal.adapter signal.strength adapters 0

abbrev pub is_known_adapter : AdapterType → Bool
is_known_adapter (AdapterType.other s) = false
is_known_adapter _ = true

abbrev plan_tokens : AdapterType → SignalStrength → ℕ
plan_tokens source strength = planned_tokens (route_from source strength adapters 0)

strong_tokens :
    (source : AdapterType) → is_known_adapter source ≡ true → plan_tokens source strong ≡ 14000
unfolding route_from
strong_tokens im k = refl
strong_tokens (AdapterType.other s) k = cc
strong_tokens _ k = refl

medium_tokens :
    (source : AdapterType) → is_known_adapter source ≡ true → plan_tokens source medium ≤ 8000
unfolding route_from
medium_tokens im k = omega arith
medium_tokens (AdapterType.other s) k = cc
medium_tokens _ k = omega arith

weak_tokens :
    (source : AdapterType) → is_known_adapter source ≡ true → plan_tokens source weak ≤ 8000
unfolding route_from
weak_tokens im k = omega arith
weak_tokens (AdapterType.other s) k = cc
weak_tokens _ k = omega arith

other_tokens :
    (source : AdapterType) (s : String)
    → is_known_adapter source ≡ true
    → plan_tokens source (SignalStrength.other s) ≤ 8000
unfolding route_from
other_tokens im s k = omega arith
other_tokens (AdapterType.other s) t k = cc
other_tokens _ s k = omega arith

tokens_fit :
    (source : AdapterType) (strength : SignalStrength)
    → is_known_adapter source ≡ true
    → (plan_tokens source strength ≤ 8000) ↔ (strength ≢ strong)
tokens_fit source strong k =
    (λ h. absurd (omega (arith, strong_tokens source k)), λ h. absurd (h refl))
tokens_fit source medium k = (λ h e. cc, λ h. medium_tokens source k)
tokens_fit source weak k = (λ h e. cc, λ h. weak_tokens source k)
tokens_fit source (SignalStrength.other s) k = (λ h e. cc, λ h. other_tokens source s k)

-- For a signal of one of the eight adapters, the budgets of the plan's queries together stay within
-- the total token budget that the plan states exactly when the signal is not a strong one.
pub route_fits_budget_iff :
    (signal : StateChangeSignal)
    → is_known_adapter signal.adapter ≡ true
    → (planned_tokens (route signal).queries ≤ (route signal).total_token_budget)
      ↔ (signal.strength ≢ strong)
unfolding route
route_fits_budget_iff signal k = tokens_fit signal.adapter signal.strength k
