-- ===== src/Pipeline/Handlers.antt =====
-- `ApplyMutation` and its handlers, `BatchApply` and `ValidateDecision` (internal/core/pipeline.go).
mod Places
mod Writes
mod KeepBoth
mod Restore
pub use Places.{Place}
unfoldable pub use Places.{place_of_node, place_in_graph}
unfoldable pub use Writes.{
  apply_create, apply_update, apply_status_change, after_merge, apply_conflict_merge,
  apply_create_objection, apply_deprecate,
}
unfoldable pub use KeepBoth.{
  mark_existing, mark_fresh, mark_both, notify, after_keep_both, apply_conflict_keep_both,
}
unfoldable pub use Restore.{own_branch, supersede, next_version, after_revert, apply_revert}
use feishu_agent_mem.Prelude.{
  ◌+◌, String, str_append, str_eq, List, [], ◌∷◌, ◌++◌, some, none, ◌||◌, Result, ok, err, insert,
  if◌then◌else◌,
}
use feishu_agent_mem.Decision.Types.{DecisionNode, superseded, supersedes}
use feishu_agent_mem.Decision.Node.{
  branch_prefix_decision, add_relation, set_conflict, status_is_valid, impact_is_valid,
}
use feishu_agent_mem.Signal.Types.{
  MutationType, create, update, status_change, conflict, objection, deprecate, revert,
  DecisionMutation,
}
use feishu_agent_mem.Graph.State.{MemoryGraph}
use feishu_agent_mem.Graph.Queries.{get_decision}
use feishu_agent_mem.Pipeline.Engine.{
  Outcome, done, failed, panicked, GitStorage, upsert, upsert_with_conflict, update_conflict_fields,
  clear_conflict_fields, apply_fields, merge_doc_tokens, or_default, Engine, Handler, sync, stamped,
  commit, remember, publish,
}

module _ (G : GitStorage) where
  -- The `switch mut.Type` of `ApplyMutation`.
  unfoldable pub dispatch : MutationType → DecisionMutation → Handler G
  unfolding apply_create apply_update apply_status_change apply_conflict_merge
      apply_conflict_keep_both apply_create_objection apply_deprecate apply_revert
  dispatch create mut e = apply_create G mut e
  dispatch update mut e = apply_update G mut e
  dispatch status_change mut e = apply_status_change G mut e
  dispatch conflict mut e =
      if str_eq mut.conflict_action "merge"
      then apply_conflict_merge G mut e
      else apply_conflict_keep_both G mut e
  dispatch objection mut e = apply_create_objection G mut e
  dispatch deprecate mut e = apply_deprecate G mut e
  dispatch revert mut e = apply_revert G mut e
  dispatch (MutationType.other s) mut e = (failed (str_append "unknown mutation type: " s), e)

  unfoldable pub apply_mutation : DecisionMutation → Handler G
  unfolding dispatch
  apply_mutation mut e = dispatch mut.type mut e

  -- if err := …; err != nil { return err }
  abbrev pub proceed : Outcome × Engine G → Handler G → Outcome × Engine G
  proceed (done, e) next = next e
  proceed (failed x, e) next = (failed x, e)
  proceed (panicked, e) next = (panicked, e)

  unfoldable pub batch_apply : List DecisionMutation → Handler G
  unfolding apply_mutation
  batch_apply [] e = (done, e)
  batch_apply (mut ∷ rest) e = proceed (apply_mutation mut e) (batch_apply rest)

-- One check of `ValidateDecision`.
abbrev issue : String → String → List String
issue field message = if str_eq field "" then message ∷ [] else []

unfoldable pub validate_decision : DecisionNode → List String
unfolding status_is_valid impact_is_valid
validate_decision node =
    issue node.sdr_id "SDRID is required"
    ++ (issue node.title "Title is required"
        ++ (issue node.topic "Topic is required"
            ++ ((if status_is_valid node.status then [] else "Invalid status" ∷ [])
                ++ (if impact_is_valid node.impact_level
                    then []
                    else "Invalid impact level" ∷ []))))
