-- ===== src/Pipeline/Revert.antt =====
-- A revert, and the graph behind it (internal/core/pipeline.go).
use feishu_agent_mem.Prelude.{String, some, ok, ◌≡◌, refl, false, arith, ◌∙◌, subst}
use feishu_agent_mem.Decision.Types.{DecisionNode, superseded}
use feishu_agent_mem.Decision.Node.{is_active}
use feishu_agent_mem.Signal.Types.{DecisionMutation}
use feishu_agent_mem.Signal.StateMachine.{create_mutation_for_revert}
use feishu_agent_mem.Graph.Queries.{get_decision}
use feishu_agent_mem.Pipeline.Engine.{done, GitStorage, Engine, publish}
use feishu_agent_mem.Pipeline.Effects.{commit_ok, get_decision-remember, saved, written_repo}
use feishu_agent_mem.Pipeline.Handlers.{
  apply_mutation, apply_revert, place_in_graph, next_version, supersede, after_revert,
}

superseded-inactive : (d : DecisionNode) → d.status ≡ superseded → is_active d ≡ false
unfolding is_active
superseded-inactive d h = rw h refl

module _ (G : GitStorage) where
  old-supersede :
      (current target : DecisionNode) (mut : DecisionMutation) (e : Engine G)
      → ((supersede G current target mut e).0.sdr_id ≡ current.sdr_id)
        × ((supersede G current target mut e).0.status ≡ superseded)
  unfolding supersede
  old-supersede current target mut e = (ground arith, ground arith)

  get_decision-after_revert :
      (k : String) (old written : DecisionNode) (e : Engine G)
      → old.sdr_id ≡ k
      → get_decision k (after_revert G old written e).graph ≡ some old
  unfolding after_revert
  get_decision-after_revert k old written e same =
      subst (λ j. get_decision j (after_revert G old written e).graph ≡ some old) same
        (get_decision-remember G (publish G written e) old)

  -- A revert whose two reads and last write succeed reports success; but what the graph then holds
  -- under the decision's id is the old version, marked superseded, and no more an active decision.
  pub revert_hides_target :
      (sdr_id commit_hash reason hash : String) (target current : DecisionNode) (e : Engine G)
      → let place = place_in_graph sdr_id e.graph in
        let mut = create_mutation_for_revert sdr_id commit_hash reason in
        let next = next_version G current target in
        G.read_decision_at_commit place.project place.topic sdr_id commit_hash e.repo ≡ ok target
        → G.read_decision place.project place.topic sdr_id e.repo ≡ ok current
        → current.sdr_id ≡ sdr_id
        → (G.write_decision next (supersede G current next mut e).1.repo).outcome ≡ ok hash
        → let (outcome, after) = apply_mutation G mut e in
          (outcome ≡ done)
          × ((d : DecisionNode) × (get_decision sdr_id after.graph ≡ some d)
              × (d.status ≡ superseded)
              × (is_active d ≡ false))
  unfolding apply_mutation create_mutation_for_revert
  revert_hides_target sdr_id commit_hash reason hash target current e t r same h =
      let mut = create_mutation_for_revert sdr_id commit_hash reason in
      let next = next_version G current target in
      let old = (supersede G current next mut e).0 in
      let marked = (supersede G current next mut e).1 in
      let facts = old-supersede current next mut e in
      let done_at = commit_ok G "git write failed: " next (after_revert G old) marked hash h in
      let found =
        get_decision-after_revert sdr_id old (saved G next marked hash) (written_repo G next marked)
          (facts.0 ∙ same) in
      rw (t, apply_revert, r, done_at)
        (refl, (old, found, facts.1, superseded-inactive old facts.1))
