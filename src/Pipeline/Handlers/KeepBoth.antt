-- ===== src/Pipeline/Handlers/KeepBoth.antt =====
-- The handler of a conflict that keeps both decisions (internal/core/pipeline.go).
use feishu_agent_mem.Prelude.{
  String, str_eq, [], ◌∷◌, ◌++◌, some, none, ok, err, insert, if◌then◌else◌,
}
use feishu_agent_mem.Decision.Types.{DecisionNode}
use feishu_agent_mem.Decision.Node.{set_conflict}
use feishu_agent_mem.Signal.Types.{DecisionMutation}
use feishu_agent_mem.Graph.Queries.{get_decision}
use feishu_agent_mem.Pipeline.Engine.{
  failed, GitStorage, upsert_with_conflict, update_conflict_fields, Engine, Handler, sync, stamped,
  commit, remember,
}

module _ (G : GitStorage) where
  open G use {write_decision, read_decision, write_objection, read_decision_at_commit}

  -- Step 2: the decision in the graph is marked and written; the graph holds the pointer that
  -- `SetConflict` and `WriteDecision` write through, and an error of the write is only logged.
  unfoldable pub mark_existing : String → String → Engine G → Engine G
  unfolding get_decision set_conflict stamped
  mark_existing conflict_sdr_id sdr_id e = elim (get_decision conflict_sdr_id e.graph) [
    | none ↦ e
    | some existing ↦
        let marked = set_conflict existing sdr_id in
        let w = write_decision marked e.repo in
        record e {
          repo = w.repo;
          graph = record e.graph {
            decisions = insert conflict_sdr_id (stamped G marked w) e.graph.decisions;
          };
        }
  ]

  -- Step 3: the new decision, read afresh, is marked and written; `mut.Node` becomes that node.
  unfoldable pub mark_fresh : DecisionNode → DecisionMutation → Engine G → DecisionNode × Engine G
  unfolding set_conflict stamped
  mark_fresh node mut e = elim (read_decision node.project node.topic mut.sdr_id e.repo) [
    | err x ↦ (node, e)
    | ok fresh ↦
        let marked = set_conflict fresh mut.conflict_sdr_id in
        let w = write_decision marked e.repo in (stamped G marked w, record e { repo = w.repo })
  ]

  unfoldable pub mark_both : DecisionNode → DecisionMutation → Engine G → DecisionNode × Engine G
  unfolding mark_existing mark_fresh
  mark_both node mut e =
      if str_eq mut.conflict_sdr_id ""
      then (node, e)
      else mark_fresh node mut (mark_existing mut.conflict_sdr_id mut.sdr_id e)

  -- if pe.ConflictNotifier != nil && mut.ConflictSDRID != "" { … }
  unfoldable pub notify : DecisionNode → DecisionMutation → Engine G → Engine G
  unfolding get_decision
  notify node mut e = elim e.notifier [
    | none ↦ e
    | some notices ↦
        if str_eq mut.conflict_sdr_id ""
        then e
        else elim (get_decision mut.conflict_sdr_id e.graph) [
          | none ↦ e
          | some existing ↦ record e {
            notifier = some (
                notices
                ++ record { node_a = existing; node_b = node; reason = mut.conflict_reason } ∷ []);
          }
        ]
  ]

  -- What `applyConflictKeepBoth` does behind the first write.
  unfoldable pub after_keep_both : DecisionMutation → DecisionNode → Engine G → Engine G
  unfolding mark_both sync remember notify
  after_keep_both mut written e =
      let (fresh, marked) = mark_both written mut e in
      let calls =
        upsert_with_conflict fresh mut.conflict_sdr_id
        ∷ (if str_eq mut.conflict_sdr_id ""
            then []
            else update_conflict_fields mut.conflict_sdr_id mut.sdr_id ∷ []) in
      notify fresh mut (remember G fresh (sync G calls marked))

  unfoldable pub apply_conflict_keep_both : DecisionMutation → Handler G
  unfolding commit after_keep_both
  apply_conflict_keep_both mut e = elim mut.node [
    | none ↦ (failed "node is required for keep_both mutation", e)
    | some node ↦ commit G "git write new decision failed: " node (after_keep_both mut) e
  ]
