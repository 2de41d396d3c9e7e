-- ===== src/Examples/OnServices.antt =====
-- The theorems on signals, conflicts and the handling of failures at sample calls.
use feishu_agent_mem.Graph.Search.{Occurs}
use feishu_agent_mem.Llm.Recovery.{contains}
use feishu_agent_mem.Llm.Recovering.{contains_iff}
use feishu_agent_mem.Prelude.{
  codes, ◌↔◌, ℕ, zero, suc, err, ◌+◌, ◌≤◌, ◌<◌, str_eq, [], ◌∷◌, ◌≡◌, ◌≢◌, ◌↔◌, refl, true, false,
  not, ◌&&◌, All, some, none, ok, known, arith, if◌then◌else◌,
}
use feishu_agent_mem.Decision.Types.{pending, in_discussion}
use feishu_agent_mem.Signal.Types.{strong, medium, im, StateTransition}
use feishu_agent_mem.Signal.Router.{adapter_text, route}
use feishu_agent_mem.Signal.Plans.{planned_tokens, AreNumbered, route_lem, route_fits_budget_iff}
use feishu_agent_mem.Conflict.Resolver.{
  Client, score_of, supersedes, blocked, impact_level_weight, resolve, detect_conflicts,
}
use feishu_agent_mem.Conflict.Decisions.{IsJustified, resolve_symmetric, detect_conflicts_sound}
use feishu_agent_mem.Llm.Breaker.{
  CircuitBreaker, new_circuit_breaker, Attempt, closed, open_, execute, execute_all,
}
use feishu_agent_mem.Llm.Breaking.{IsSettled, execute_all-IsSettled, execute_open}
use feishu_agent_mem.Examples.Samples.{decision_a, decision_b, signal, signal_of, tenths}

abbrev attempt : Attempt
attempt = record { start = 100; result = some "timeout"; finish = 110 }

execute_all-IsSettled_example :
    IsSettled (execute_all (attempt ∷ attempt ∷ []) (new_circuit_breaker 60 2))
execute_all-IsSettled_example = execute_all-IsSettled 60 2 (attempt ∷ attempt ∷ []) (ground arith)

abbrev opened : CircuitBreaker
opened = record { timeout = 60; max_retries = 2; state = open_; fail_count = 2; last_fail = 110 }

-- Ten units after the last failure the operation is not run.
execute_open_example :
    (((execute attempt opened).ran ≡ true) ↔ (110 + 60 < 100))
    × ((execute attempt opened).error
        ≡ (if (execute attempt opened).ran then some "timeout" else none))
    × ((execute attempt opened).after.state
        ≡ (if (execute attempt opened).ran && not (known attempt.result) then closed else open_))
    × ((execute attempt opened).after.fail_count
        ≡ (if (execute attempt opened).ran then (if known attempt.result then 2 + 1 else 0) else 2))
    × ((execute attempt opened).after.last_fail
        ≡ (if (execute attempt opened).ran && known attempt.result then 110 else 110))
execute_open_example = execute_open attempt opened refl (ground arith)

-- Every pair contradicts one another.
abbrev harsh : Client tenths
harsh = some (λ new old. ok 9)

resolve_symmetric_example :
    (((resolve tenths harsh decision_a decision_b).action ≡ supersedes)
      ↔ ((resolve tenths harsh decision_b decision_a).action ≡ blocked))
    × (((resolve tenths harsh decision_a decision_b).needs_user ≡ true) ↔ (
        impact_level_weight decision_a.impact_level ≡ impact_level_weight decision_b.impact_level))
    × ((resolve tenths harsh decision_a decision_b).needs_user
        ≡ (resolve tenths harsh decision_b decision_a).needs_user)
unfolding score_of
resolve_symmetric_example =
    resolve_symmetric tenths harsh harsh decision_a decision_b (refl, refl) (refl, refl)

-- A client that fails in every round but the first.
abbrev moody : ℕ → Client tenths
moody zero = harsh
moody (suc round) = some (λ new old. err "busy")

detect_conflicts_sound_example :
    All
      (IsJustified tenths moody (λ d. "0") decision_b (decision_a ∷ []))
      (detect_conflicts tenths moody (λ d. "0") decision_b (decision_a ∷ []))
detect_conflicts_sound_example =
    detect_conflicts_sound tenths moody (λ d. "0") decision_b (decision_a ∷ [])

route_lem_example :
    All
      (λ q.
        (str_eq (adapter_text q.target_adapter) (adapter_text im) ≡ false) × (500 ≤ q.token_budget))
      (route signal).queries
    × AreNumbered 0 (route signal).queries
route_lem_example = route_lem signal

route_fits_budget_iff_example :
    (planned_tokens (route (signal_of im medium)).queries
      ≤ (route (signal_of im medium)).total_token_budget)
    ↔ (medium ≢ strong)
route_fits_budget_iff_example = route_fits_budget_iff (signal_of im medium) refl

abbrev discussion : StateTransition
discussion = record {
  sdr_id = "b";
  from_status = pending;
  to_status = in_discussion;
  reason = "Strong signal detected";
  trigger_signal = "s1";
}

contains_iff_example :
    (contains (codes "dial timeout") (codes "timeout") ≡ true)
    ↔ Occurs (codes "timeout") (codes "dial timeout")
contains_iff_example = contains_iff (codes "dial timeout") (codes "timeout")
