-- ===== src/Signal/StateMachine.antt =====
-- The decision state machine: the transition that a signal causes, and the mutations that it makes
-- (internal/signal/state_machine.go). A builder that writes through its node or objection pointer
-- returns the mutation with the changed value, which is the only one that the callers read on.
use Prim.Native.String.{slice}
use feishu_agent_mem.Prelude.{String, str_append, List, [], ◌∷◌, ◌++◌, Option, some, none}
use feishu_agent_mem.Decision.Types.{
  DecisionNode, DecisionStatus, pending, in_discussion, conflicts_with, Objection, ObjectionStatus,
}
use feishu_agent_mem.Signal.Types.{
  StateChangeSignal, SignalStrength, strong, StateTransition, MutationType, create, update,
  conflict, deprecate, revert, Any, text, DecisionMutation, zero_mutation,
}
use feishu_agent_mem.Signal.Texts.{impact_text, status_text}

-- The inner `switch current.Status`.
unfoldable pub transition_of :
    DecisionStatus → DecisionNode → StateChangeSignal → List StateTransition
transition_of pending current signal =
    record {
      sdr_id = current.sdr_id;
      from_status = current.status;
      to_status = in_discussion;
      reason = "Strong signal detected";
      trigger_signal = signal.signal_id;
    }
    ∷ []
transition_of _ current signal = []

unfoldable pub on_strength :
    SignalStrength → DecisionNode → StateChangeSignal → List StateTransition
unfolding transition_of
on_strength strong current signal = transition_of current.status current signal
on_strength _ current signal = []

unfoldable pub evaluate_transition : Option DecisionNode → StateChangeSignal → List StateTransition
unfolding on_strength
evaluate_transition none signal = []
evaluate_transition (some current) signal = on_strength signal.strength current signal

unfoldable pub create_mutation_for_new_decision :
    DecisionNode → StateChangeSignal → DecisionMutation
create_mutation_for_new_decision node signal = record (zero_mutation create) {
  sdr_id = node.sdr_id;
  node = some node;
  commit_message = str_append "Create decision from signal: " signal.signal_id;
}

unfoldable pub update_fields : DecisionNode → List (String × Any)
unfolding impact_text status_text
update_fields node =
    ("title", text node.title)
    ∷ ("decision", text node.decision)
    ∷ ("rationale", text node.rationale)
    ∷ ("impact_level", text (impact_text node.impact_level))
    ∷ ("executor", text node.executor)
    ∷ ("proposer", text node.proposer)
    ∷ ("status", text (status_text node.status))
    ∷ []

unfoldable pub create_mutation_for_update :
    String → DecisionNode → StateChangeSignal → DecisionMutation
unfolding update_fields
create_mutation_for_update sdr_id node signal = record (zero_mutation update) {
  sdr_id = sdr_id;
  node = some node;
  field_changes = update_fields node;
  commit_message =
      str_append "Update decision "
        (str_append sdr_id (str_append " from signal: " signal.signal_id));
}

abbrev with_conflict : DecisionNode → String → String → DecisionNode
with_conflict node target description = record node {
  relations =
      node.relations
      ++ record { type = conflicts_with; target_sdr_id = target; description = description } ∷ [];
}

unfoldable pub create_mutation_for_conflict :
    DecisionNode → String → StateChangeSignal → DecisionMutation
create_mutation_for_conflict node target signal = record (zero_mutation conflict) {
  sdr_id = node.sdr_id;
  node =
      some
        (with_conflict node target "Decision content changed significantly from previous version");
  conflict_sdr_id = target;
  commit_message =
      str_append "Conflict detected with "
        (str_append target (str_append " from signal: " signal.signal_id));
}

abbrev with_signal : String → String → StateChangeSignal → String
with_signal context reason signal =
    str_append context
      (str_append reason (str_append " (signal: " (str_append signal.signal_id ")")))

-- The arguments `resolveAction` and `mergedDecision` of the source are not used there.
unfoldable pub create_mutation_for_conflict_merge :
    String → DecisionNode → StateChangeSignal → String → DecisionMutation
create_mutation_for_conflict_merge sdr_id node signal reason = record (zero_mutation conflict) {
  sdr_id = sdr_id;
  node = some node;
  conflict_sdr_id = sdr_id;
  conflict_action = "merge";
  conflict_reason = reason;
  commit_message = with_signal "Conflict auto-merged: " reason signal;
}

unfoldable pub create_mutation_for_conflict_keep_both :
    DecisionNode → String → StateChangeSignal → String → DecisionMutation
create_mutation_for_conflict_keep_both node target signal reason = record (zero_mutation conflict) {
  sdr_id = node.sdr_id;
  node = some (
      with_conflict node target
        (str_append "Conflicts with " (str_append target (str_append ": " reason))));
  conflict_sdr_id = target;
  conflict_action = "keep_both";
  conflict_reason = reason;
  commit_message = with_signal "Conflict needs manual resolution: " reason signal;
}

unfoldable pub create_mutation_for_status_change :
    String → DecisionStatus → DecisionStatus → String → DecisionMutation
unfolding status_text
create_mutation_for_status_change sdr_id from to reason =
    record (zero_mutation MutationType.status_change) {
      sdr_id = sdr_id;
      new_status = to;
      commit_message = str_append "Status change: " (
          str_append (status_text from) (
            str_append " -> "
              (str_append (status_text to) (str_append " (" (str_append reason ")")))));
    }

unfoldable pub create_mutation_for_new_objection : Objection → StateChangeSignal → DecisionMutation
create_mutation_for_new_objection obj signal = record (zero_mutation MutationType.objection) {
  sdr_id = obj.oid;
  objection = some obj;
  commit_message = str_append "Create objection from signal: " signal.signal_id;
}

unfoldable pub create_mutation_for_objection_status_change :
    Objection → ObjectionStatus → String → DecisionMutation
create_mutation_for_objection_status_change obj new_status reason =
    record (zero_mutation MutationType.objection) {
      sdr_id = obj.oid;
      objection = some (record obj { status = new_status });
      commit_message = str_append "Objection status changed: " reason;
    }

unfoldable pub create_mutation_for_deprecation : String → DecisionStatus → String → DecisionMutation
create_mutation_for_deprecation sdr_id new_status reason = record (zero_mutation deprecate) {
  sdr_id = sdr_id;
  new_status = new_status;
  commit_message = str_append "Deprecation: " reason;
}

-- `slice` stops at the end of the text, as `[:min(7, len)]` does.
unfoldable pub create_mutation_for_revert : String → String → String → DecisionMutation
create_mutation_for_revert sdr_id target_commit_hash reason = record (zero_mutation revert) {
  sdr_id = sdr_id;
  target_commit_hash = target_commit_hash;
  commit_message =
      str_append "Revert to " (str_append (slice target_commit_hash 0 7) (str_append ": " reason));
}
