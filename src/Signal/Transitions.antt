-- ===== src/Signal/Transitions.antt =====
-- The transitions of the state machine (internal/signal/state_machine.go).
use feishu_agent_mem.Prelude.{[], ◌∷◌, some, ◌≡◌, ◌↔◌, arith}
use feishu_agent_mem.Decision.Types.{DecisionNode, pending, in_discussion}
use feishu_agent_mem.Signal.Types.{StateChangeSignal, strong, StateTransition}
use feishu_agent_mem.Signal.StateMachine.{evaluate_transition}

-- A signal moves an existing decision exactly when the signal is strong and the decision is pending,
-- and then by one transition, of that decision, from pending to in discussion.
evaluate_transition_iff :
    (current : DecisionNode) (signal : StateChangeSignal) (t : StateTransition)
    → (evaluate_transition (some current) signal ≡ t ∷ []) ↔ (
        (signal.strength ≡ strong)
        × (current.status ≡ pending)
        × (t ≡ record {
          sdr_id = current.sdr_id;
          from_status = pending;
          to_status = in_discussion;
          reason = "Strong signal detected";
          trigger_signal = signal.signal_id;
        }))
unfolding evaluate_transition
evaluate_transition_iff current signal t = (λ h. ground arith, λ h. ground arith)
