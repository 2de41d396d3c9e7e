-- ===== src/Pipeline/Updates.antt =====
-- `runCheck` of the status updater (internal/signal/status_updater.go) over the pipeline. The updater
-- asks the graph once and then changes the decisions one by one; a failed change is only logged.
use feishu_agent_mem.Prelude.{
  ℕ, suc, List, [], ◌∷◌, Bool, ◌&&◌, Bool-cases, inl, inr, if◌then◌else◌,
}
use feishu_agent_mem.Decision.Types.{DecisionNode, DecisionStatus}
use feishu_agent_mem.Decision.Node.{is_active}
use feishu_agent_mem.Graph.Queries.{get_all_decisions}
use feishu_agent_mem.Graph.Consistency.{IsConsistent}
use feishu_agent_mem.Signal.Types.{DecisionMutation, MutationType, zero_mutation}
use feishu_agent_mem.Signal.Updater.{Calendar, evaluate_status, is_change}
use feishu_agent_mem.Signal.Settling.{Check, verdict}
use feishu_agent_mem.Pipeline.Engine.{Outcome, done, failed, panicked, GitStorage, Engine}
use feishu_agent_mem.Pipeline.Handlers.{apply_mutation}
use feishu_agent_mem.Pipeline.Consistency.{apply_mutation-IsConsistent}

-- The mutation of `runCheck`: neither a node nor a commit message.
unfoldable pub status_mutation : DecisionNode → DecisionStatus → DecisionMutation
status_mutation d status = record (zero_mutation MutationType.status_change) {
  sdr_id = d.sdr_id;
  new_status = status;
}

module _ (G : GitStorage) (cal : Calendar) (at : DecisionNode → Check) where
  unfoldable pub is_due : DecisionNode → Bool
  unfolding is_active is_change evaluate_status
  is_due d = is_active d && is_change (verdict cal (at d) d) d

  -- How a change of one decision ends, and the engine behind it.
  unfoldable pub update_one : DecisionNode → Engine G → Outcome × Engine G
  unfolding status_mutation apply_mutation
  update_one d e = apply_mutation G (status_mutation d (verdict cal (at d) d)) e

  -- The count behind one change: a panic ends the loop, a failure is only logged.
  unfoldable pub tally : Outcome → ℕ × Engine G → Engine G → ℕ × Engine G
  tally done after e = (suc after.0, after.1)
  tally (failed x) after e = after
  tally panicked after e = (0, e)

  -- The loop: how many changes were accepted, and the engine.
  unfoldable pub update_all : List DecisionNode → Engine G → ℕ × Engine G
  unfolding is_due update_one tally
  update_all [] e = (0, e)
  update_all (d ∷ decisions) e =
      let applied = update_one d e in
      let after = update_all decisions applied.1 in
      let skipped = update_all decisions e in
      if is_due d then tally applied.0 after applied.1 else skipped

  unfoldable pub run_check : Engine G → ℕ × Engine G
  unfolding update_all get_all_decisions
  run_check e = update_all (get_all_decisions e.graph) e

  tally-IsConsistent :
      (outcome : Outcome) (after : ℕ × Engine G) (e : Engine G)
      → IsConsistent after.1.graph
      → IsConsistent e.graph
      → IsConsistent (tally outcome after e).1.graph
  unfolding tally
  tally-IsConsistent done after e a c = a
  tally-IsConsistent (failed x) after e a c = a
  tally-IsConsistent panicked after e a c = c

  update_all-IsConsistent :
      (decisions : List DecisionNode) (e : Engine G)
      → IsConsistent e.graph
      → IsConsistent (update_all decisions e).1.graph
  unfolding update_all
  update_all-IsConsistent [] e c = c
  update_all-IsConsistent (d ∷ decisions) e c =
      let mutation = status_mutation d (verdict cal (at d) d) in
      let applied = apply_mutation-IsConsistent G mutation e c in
      let after = update_all-IsConsistent decisions (apply_mutation G mutation e).1 applied in
      elim (Bool-cases (is_due d)) [
        | inl h ↦ rw h (tally-IsConsistent (update_one d e).0 _ _ after applied)
        | inr h ↦ rw h (update_all-IsConsistent decisions e c)
      ]

  -- A check of all decisions keeps the graph consistent, whatever Git answers.
  pub run_check-IsConsistent :
      (e : Engine G) → IsConsistent e.graph → IsConsistent (run_check e).1.graph
  unfolding run_check
  run_check-IsConsistent e c = update_all-IsConsistent (get_all_decisions e.graph) e c
