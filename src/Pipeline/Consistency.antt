-- ===== src/Pipeline/Consistency.antt =====
-- The handlers and the invariant of the graph (internal/core/pipeline.go).
use feishu_agent_mem.Prelude.{
  List, [], ◌∷◌, str_eq, Bool-cases, Option-cases, Result-cases, inl, inr,
}
use feishu_agent_mem.Signal.Types.{
  MutationType, create, update, status_change, conflict, objection, deprecate, revert,
  DecisionMutation,
}
use feishu_agent_mem.Graph.Consistency.{IsConsistent}
use feishu_agent_mem.Pipeline.Actions.{
  Sound, commit-Sound, publish-Sound, remember-Sound, after_merge-Sound, after_keep_both-Sound,
  after_revert-Sound,
}
use feishu_agent_mem.Pipeline.Engine.{
  Outcome, done, failed, panicked, GitStorage, Engine, Handler, apply_fields, remember, publish,
}
use feishu_agent_mem.Pipeline.Handlers.{
  apply_create, apply_update, apply_status_change, apply_conflict_merge, apply_conflict_keep_both,
  apply_create_objection, apply_deprecate, apply_revert, dispatch, apply_mutation, batch_apply,
  proceed, supersede, place_of_node, place_in_graph, after_merge, after_keep_both, after_revert,
  next_version,
}

module _ (G : GitStorage) where
  apply_create-Sound :
      (mut : DecisionMutation) (e : Engine G) → Sound G e → Sound G (apply_create G mut e).1
  unfolding apply_create
  apply_create-Sound mut e c = elim (Option-cases mut.node) [
    | inl h ↦ rw (h, apply_create) c
    | inr (node, h) ↦ rw (h, apply_create) (commit-Sound G _ node (publish G) e (publish-Sound G) c)
  ]

  apply_update-Sound :
      (mut : DecisionMutation) (e : Engine G) → Sound G e → Sound G (apply_update G mut e).1
  unfolding apply_update
  apply_update-Sound mut e c = elim (Option-cases mut.node) [
    | inl h ↦ rw (h, apply_update) c
    | inr (node, h) ↦
        elim (Result-cases (
          G.read_decision (place_of_node node).project (place_of_node node).topic mut.sdr_id
            e.repo)) [
              | inl (x, r) ↦ rw (h, apply_update, r) c
              | inr (existing, r) ↦ elim (Option-cases (apply_fields mut.field_changes existing)) [
                | inl f ↦ rw (h, apply_update, r, f) c
                | inr (changed, f) ↦
                    rw (h, apply_update, r, f)
                      (commit-Sound G _ _ (publish G) e (publish-Sound G) c)
              ]
            ]
  ]

  apply_status_change-Sound :
      (mut : DecisionMutation) (e : Engine G) → Sound G e → Sound G (apply_status_change G mut e).1
  unfolding apply_status_change
  apply_status_change-Sound mut e c =
      let place = place_in_graph mut.sdr_id e.graph in
      elim (Result-cases (G.read_decision place.project place.topic mut.sdr_id e.repo)) [
        | inl (x, r) ↦ rw (r, apply_status_change) c
        | inr (existing, r) ↦
            rw (r, apply_status_change) (commit-Sound G _ _ (remember G) e (remember-Sound G) c)
      ]

  apply_conflict_merge-Sound :
      (mut : DecisionMutation) (e : Engine G) → Sound G e → Sound G (apply_conflict_merge G mut e).1
  unfolding apply_conflict_merge
  apply_conflict_merge-Sound mut e c = elim (Option-cases mut.node) [
    | inl h ↦ rw (h, apply_conflict_merge) c
    | inr (node, h) ↦
        let place = place_of_node node in
        elim (Result-cases (G.read_decision place.project place.topic mut.sdr_id e.repo)) [
          | inl (x, r) ↦ rw (h, apply_conflict_merge, r) c
          | inr (existing, r) ↦
              rw (h, apply_conflict_merge, r)
                (commit-Sound G _ _ (after_merge G mut) e (after_merge-Sound G mut) c)
        ]
  ]

  apply_conflict_keep_both-Sound :
      (mut : DecisionMutation) (e : Engine G)
      → Sound G e
      → Sound G (apply_conflict_keep_both G mut e).1
  unfolding apply_conflict_keep_both
  apply_conflict_keep_both-Sound mut e c = elim (Option-cases mut.node) [
    | inl h ↦ rw (h, apply_conflict_keep_both) c
    | inr (node, h) ↦
        rw (h, apply_conflict_keep_both)
          (commit-Sound G _ node (after_keep_both G mut) e (after_keep_both-Sound G mut) c)
  ]

  apply_create_objection-Sound :
      (mut : DecisionMutation) (e : Engine G)
      → Sound G e
      → Sound G (apply_create_objection G mut e).1
  unfolding apply_create_objection
  apply_create_objection-Sound mut e c = elim (Option-cases mut.objection) [
    | inl h ↦ rw (h, apply_create_objection) c
    | inr (obj, h) ↦ rw (h, apply_create_objection) c
  ]

  apply_deprecate-Sound :
      (mut : DecisionMutation) (e : Engine G) → Sound G e → Sound G (apply_deprecate G mut e).1
  unfolding apply_deprecate
  apply_deprecate-Sound mut e c =
      let place = place_in_graph mut.sdr_id e.graph in
      elim (Result-cases (G.read_decision place.project place.topic mut.sdr_id e.repo)) [
        | inl (x, r) ↦ rw (r, apply_deprecate) c
        | inr (existing, r) ↦
            rw (r, apply_deprecate) (commit-Sound G _ _ (publish G) e (publish-Sound G) c)
      ]

  apply_revert-Sound :
      (mut : DecisionMutation) (e : Engine G) → Sound G e → Sound G (apply_revert G mut e).1
  unfolding apply_revert supersede
  apply_revert-Sound mut e c =
      let place = place_in_graph mut.sdr_id e.graph in
      elim (Result-cases (
        G.read_decision_at_commit place.project place.topic mut.sdr_id mut.target_commit_hash
          e.repo)) [
            | inl (x, t) ↦ rw (t, apply_revert) c
            | inr (target, t) ↦
                elim (Result-cases (G.read_decision place.project place.topic mut.sdr_id e.repo)) [
                  | inl (x, r) ↦
                      rw (t, apply_revert, r) (commit-Sound G _ _ (publish G) e (publish-Sound G) c)
                  | inr (current, r) ↦
                      let next = next_version G current target in
                      let (old, marked) = supersede G current next mut e in
                      rw (t, apply_revert, r)
                        (commit-Sound G _ next (after_revert G old) marked
                          (after_revert-Sound G old) c)
                ]
          ]

  dispatch-Sound :
      (type : MutationType) (mut : DecisionMutation) (e : Engine G)
      → Sound G e
      → Sound G (dispatch G type mut e).1
  unfolding dispatch
  dispatch-Sound create mut e c = apply_create-Sound mut e c
  dispatch-Sound update mut e c = apply_update-Sound mut e c
  dispatch-Sound status_change mut e c = apply_status_change-Sound mut e c
  dispatch-Sound conflict mut e c = elim (Bool-cases (str_eq mut.conflict_action "merge")) [
    | inl m ↦ rw m (apply_conflict_merge-Sound mut e c)
    | inr m ↦ rw m (apply_conflict_keep_both-Sound mut e c)
  ]
  dispatch-Sound objection mut e c = apply_create_objection-Sound mut e c
  dispatch-Sound deprecate mut e c = apply_deprecate-Sound mut e c
  dispatch-Sound revert mut e c = apply_revert-Sound mut e c
  dispatch-Sound (MutationType.other s) mut e c = c

  pub apply_mutation-IsConsistent :
      (mut : DecisionMutation) (e : Engine G)
      → IsConsistent e.graph
      → IsConsistent (apply_mutation G mut e).1.graph
  unfolding apply_mutation
  apply_mutation-IsConsistent mut e c = dispatch-Sound mut.type mut e c

  proceed-Sound :
      (r : Outcome × Engine G) (next : Handler G)
      → Sound G r.1
      → ((e : Engine G) → Sound G e → Sound G (next e).1)
      → Sound G (proceed G r next).1
  proceed-Sound (done, e) next c keep = keep e c
  proceed-Sound (failed x, e) next c keep = c
  proceed-Sound (panicked, e) next c keep = c

  -- A batch of mutations of any types, whatever the stores answer and wherever it ends, leaves a
  -- consistent graph consistent.
  pub batch_apply-IsConsistent :
      (mutations : List DecisionMutation) (e : Engine G)
      → IsConsistent e.graph
      → IsConsistent (batch_apply G mutations e).1.graph
  unfolding batch_apply
  batch_apply-IsConsistent [] e c = c
  batch_apply-IsConsistent (mut ∷ rest) e c =
      proceed-Sound (apply_mutation G mut e) (batch_apply G rest) (dispatch-Sound mut.type mut e c)
        (batch_apply-IsConsistent rest)
