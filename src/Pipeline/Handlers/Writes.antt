-- ===== src/Pipeline/Handlers/Writes.antt =====
-- The handlers of create, update, status change, merge, objection and deprecation
-- (internal/core/pipeline.go).
use feishu_agent_mem.Prelude.{str_append, [], ◌∷◌, some, none, ok, err}
use feishu_agent_mem.Decision.Types.{DecisionNode}
use feishu_agent_mem.Signal.Types.{DecisionMutation}
use feishu_agent_mem.Pipeline.Engine.{
  done, failed, panicked, GitStorage, upsert, clear_conflict_fields, apply_fields, merge_doc_tokens,
  Engine, Handler, sync, commit, remember, publish,
}
use feishu_agent_mem.Pipeline.Handlers.Places.{place_of_node, place_in_graph, read_at}

module _ (G : GitStorage) where
  open G use {write_decision, read_decision, write_objection, read_decision_at_commit}

  unfoldable pub apply_create : DecisionMutation → Handler G
  unfolding commit publish
  apply_create mut e = elim mut.node [
    | none ↦ (failed "node is required for create mutation", e)
    | some node ↦ commit G "git write failed: " node (publish G) e
  ]

  unfoldable pub apply_update : DecisionMutation → Handler G
  unfolding commit publish apply_fields merge_doc_tokens place_of_node
  apply_update mut e = elim mut.node [
    | none ↦ (panicked, e)
    | some node ↦ elim (read_at G (place_of_node node) mut.sdr_id e) [
      | err x ↦ (failed (str_append "read existing decision failed: " x), e)
      | ok existing ↦ elim (apply_fields mut.field_changes existing) [
        | none ↦ (panicked, e)
        | some changed ↦
            commit G "git write update failed: " (merge_doc_tokens changed node) (publish G) e
      ]
    ]
  ]

  unfoldable pub apply_status_change : DecisionMutation → Handler G
  unfolding commit remember place_in_graph
  apply_status_change mut e = elim (read_at G (place_in_graph mut.sdr_id e.graph) mut.sdr_id e) [
    | err x ↦ (failed x, e)
    | ok existing ↦ commit G "" (record existing { status = mut.new_status }) (remember G) e
  ]

  abbrev overwrite : DecisionNode → DecisionNode → DecisionNode
  overwrite existing node = record existing {
    title = node.title;
    decision = node.decision;
    rationale = node.rationale;
    impact_level = node.impact_level;
    executor = node.executor;
  }

  -- The calls on the Bitable store and the graph behind the write.
  unfoldable pub after_merge : DecisionMutation → DecisionNode → Engine G → Engine G
  unfolding remember sync
  after_merge mut written e =
      remember G written (sync G (upsert written ∷ clear_conflict_fields mut.sdr_id ∷ []) e)

  unfoldable pub apply_conflict_merge : DecisionMutation → Handler G
  unfolding commit after_merge place_of_node
  apply_conflict_merge mut e = elim mut.node [
    | none ↦ (failed "node is required for conflict merge mutation", e)
    | some node ↦ elim (read_at G (place_of_node node) mut.sdr_id e) [
      | err x ↦ (failed (str_append "read existing decision for merge failed: " x), e)
      | ok existing ↦
          commit G "git write merge failed: " (overwrite existing node) (after_merge mut) e
    ]
  ]

  unfoldable pub apply_create_objection : DecisionMutation → Handler G
  apply_create_objection mut e = elim mut.objection [
    | none ↦ (failed "objection is required for objection mutation", e)
    | some obj ↦
        let (result, repo) = write_objection obj e.repo in
        (
          elim result [
            | err x ↦ failed (str_append "git write objection failed: " x)
            | ok hash ↦ done
          ],
          record e { repo = repo },
        )
  ]

  unfoldable pub apply_deprecate : DecisionMutation → Handler G
  unfolding commit publish place_in_graph
  apply_deprecate mut e = elim (read_at G (place_in_graph mut.sdr_id e.graph) mut.sdr_id e) [
    | err x ↦ (failed (str_append "read decision for deprecation failed: " x), e)
    | ok existing ↦
        commit G "git write deprecation failed: " (record existing { status = mut.new_status })
          (publish G) e
  ]
