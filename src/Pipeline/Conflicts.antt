-- ===== src/Pipeline/Conflicts.antt =====
-- A conflict that is kept on both sides, and the graph behind it (internal/core/pipeline.go).
use feishu_agent_mem.Prelude.{
  String, str_eq, List, some, Result, ok, err, ◌≡◌, ◌≢◌, refl, arith, str_eq_refl, eq_iff,
  lookup-insert, ◌∙◌, sym, Bool-cases, inl, inr,
}
use feishu_agent_mem.Decision.Types.{DecisionNode}
use feishu_agent_mem.Decision.Node.{set_conflict, conflict_active}
use feishu_agent_mem.Signal.Types.{DecisionMutation}
use feishu_agent_mem.Graph.State.{upsert_decision}
use feishu_agent_mem.Graph.Queries.{get_decision}
use feishu_agent_mem.Pipeline.Actions.{
  graph-sync, graph-mark_fresh, graph-notify, sdr_id-stamped, sdr_id-set_conflict,
}
use feishu_agent_mem.Pipeline.Engine.{
  done, GitStorage, Written, Engine, BitableCall, stamped, remember, sync,
}
use feishu_agent_mem.Pipeline.Effects.{commit_ok, saved, written_repo}
use feishu_agent_mem.Pipeline.Handlers.{
  apply_conflict_keep_both, after_keep_both, mark_existing, mark_fresh, mark_both, notify,
}

-- A read by an id gives a decision of that id, as the store names each file after the id in it.
abbrev pub ReadsById : GitStorage → Type 0
ReadsById G =
    (project topic sdr_id : String) (repo : G.Repo) (d : DecisionNode)
    → G.read_decision project topic sdr_id repo ≡ ok d
    → d.sdr_id ≡ sdr_id

fields-set_conflict :
    (d : DecisionNode) (peer : String)
    → ((set_conflict d peer).conflict_status ≡ conflict_active)
      × ((set_conflict d peer).conflict_with ≡ peer)
unfolding set_conflict
fields-set_conflict d peer = (ground arith, ground arith)

module _ (G : GitStorage) where
  -- The decision is marked as being in conflict with the peer.
  abbrev pub IsMarked : String → DecisionNode → Type 0
  IsMarked peer d = (d.conflict_status ≡ conflict_active) × (d.conflict_with ≡ peer)

  stamped-IsMarked :
      (peer : String) (d : DecisionNode) (w : Written G.Repo)
      → IsMarked peer d
      → IsMarked peer (stamped G d w)
  unfolding stamped
  stamped-IsMarked peer d w h = (ground arith, ground arith)

  mark_existing_marks :
      (target peer : String) (existing : DecisionNode) (e : Engine G)
      → get_decision target e.graph ≡ some existing
      → (d : DecisionNode) × (get_decision target (mark_existing G target peer e).graph ≡ some d)
        × IsMarked peer d
  unfolding get_decision
  mark_existing_marks target peer existing e h =
      let marked = set_conflict existing peer in
      let w = G.write_decision marked e.repo in
      (
        stamped G marked w,
        unfold mark_existing in rw (h, mark_existing, lookup-insert, str_eq_refl) refl,
        stamped-IsMarked peer marked w (fields-set_conflict existing peer),
      )

  sdr_id-mark_fresh :
      ReadsById G
      → (node : DecisionNode) (mut : DecisionMutation) (e : Engine G) → node.sdr_id ≡ mut.sdr_id
      → (mark_fresh G node mut e).0.sdr_id ≡ mut.sdr_id
  unfolding mark_fresh
  sdr_id-mark_fresh by_id node mut e same =
      go (G.read_decision node.project node.topic mut.sdr_id e.repo) refl
    where
      go :
          (r : Result DecisionNode)
          → G.read_decision node.project node.topic mut.sdr_id e.repo ≡ r
          → (mark_fresh G node mut e).0.sdr_id ≡ mut.sdr_id
      go (err x) h = rw (h, mark_fresh) same
      go (ok fresh) h =
          let marked = set_conflict fresh mut.conflict_sdr_id in
          rw (h, mark_fresh)
            (sdr_id-stamped G marked (G.write_decision marked e.repo)
              ∙ sdr_id-set_conflict fresh mut.conflict_sdr_id
              ∙ by_id node.project node.topic mut.sdr_id e.repo fresh h)

  get_decision-remember_ne :
      (k : String) (node : DecisionNode) (e : Engine G)
      → node.sdr_id ≢ k
      → get_decision k (remember G node e).graph ≡ get_decision k e.graph
  unfolding remember get_decision upsert_decision
  get_decision-remember_ne k node e h = rw lookup-insert (ground (arith, eq_iff node.sdr_id k))

  -- Publishing a decision of another id leaves what the graph holds under an id.
  get_decision-published :
      (k : String) (node : DecisionNode) (mut : DecisionMutation) (calls : List BitableCall)
      (e : Engine G)
      → node.sdr_id ≢ k
      → get_decision k (notify G node mut (remember G node (sync G calls e))).graph
        ≡ get_decision k e.graph
  get_decision-published k node mut calls e ne =
      rw graph-notify (get_decision-remember_ne k node (sync G calls e) ne ∙ rw graph-sync refl)

  mark_both_peer :
      (node : DecisionNode) (mut : DecisionMutation) (e : Engine G)
      → mut.conflict_sdr_id ≢ ""
      → mark_both G node mut e
        ≡ mark_fresh G node mut (mark_existing G mut.conflict_sdr_id mut.sdr_id e)
  unfolding mark_both
  mark_both_peer node mut e h = elim (Bool-cases (str_eq mut.conflict_sdr_id "")) [
    | inl t ↦ absurd (h ((eq_iff mut.conflict_sdr_id "").0 t))
    | inr f ↦ rw f refl
  ]

  get_decision-after_keep_both :
      (k : String) (node : DecisionNode) (mut : DecisionMutation) (e : Engine G)
      → (mark_both G node mut e).0.sdr_id ≢ k
      → get_decision k (after_keep_both G mut node e).graph
        ≡ get_decision k (mark_both G node mut e).1.graph
  unfolding after_keep_both
  get_decision-after_keep_both k node mut e ne =
      get_decision-published k (mark_both G node mut e).0 mut _ (mark_both G node mut e).1 ne

  module _ (by_id : ReadsById G) (mut : DecisionMutation) (existing : DecisionNode) where
    -- The mutation names a peer, which is not its own decision.
    abbrev HasPeer : Type 0
    HasPeer = (mut.conflict_sdr_id ≢ "") × (mut.sdr_id ≢ mut.conflict_sdr_id)

    abbrev Marks : Engine G → Type 0
    Marks after =
        (d : DecisionNode) × (get_decision mut.conflict_sdr_id after.graph ≡ some d)
        × IsMarked mut.sdr_id d

    fresh_ne :
        (node : DecisionNode) (e : Engine G)
        → HasPeer
        → node.sdr_id ≡ mut.sdr_id
        → (mark_both G node mut e).0.sdr_id ≢ mut.conflict_sdr_id
    fresh_ne node e peer same =
        let e' = mark_existing G mut.conflict_sdr_id mut.sdr_id e in
        rw (mark_both_peer node mut e peer.0)
          (λ q. peer.1 (sym (sdr_id-mark_fresh by_id node mut e' same) ∙ q))

    after_keep_both-Marks :
        (node : DecisionNode) (e : Engine G)
        → HasPeer
        → node.sdr_id ≡ mut.sdr_id
        → get_decision mut.conflict_sdr_id e.graph ≡ some existing
        → Marks (after_keep_both G mut node e)
    after_keep_both-Marks node e peer same held =
        let target = mut.conflict_sdr_id in
        let e' = mark_existing G target mut.sdr_id e in
        let marks = mark_existing_marks target mut.sdr_id existing e held in
        let both = mark_both_peer node mut e peer.0 in
        (
          marks.0,
          get_decision-after_keep_both target node mut e (fresh_ne node e peer same)
              ∙ rw (both, graph-mark_fresh) marks.1,
          marks.2,
        )

  -- Where reads give decisions of the id that was asked for: when Git accepts the new decision of a
  -- keep-both conflict with another decision, which the graph holds, the mutation succeeds, and the
  -- graph then holds that other decision marked as in an active conflict with the new one.
  pub keep_both_marks_existing :
      ReadsById G
      → (mut : DecisionMutation) (node existing : DecisionNode) (hash : String) (e : Engine G)
      → mut.node ≡ some node
      → node.sdr_id ≡ mut.sdr_id
      → mut.conflict_sdr_id ≢ ""
      → mut.sdr_id ≢ mut.conflict_sdr_id
      → get_decision mut.conflict_sdr_id e.graph ≡ some existing
      → (G.write_decision node e.repo).outcome ≡ ok hash
      → let (outcome, after) = apply_conflict_keep_both G mut e in
        (outcome ≡ done)
        × ((d : DecisionNode) × (get_decision mut.conflict_sdr_id after.graph ≡ some d)
            × IsMarked mut.sdr_id d)
  unfolding apply_conflict_keep_both
  keep_both_marks_existing by_id mut node existing hash e n same some_peer ne held h =
      rw
        (
          n,
          apply_conflict_keep_both,
          commit_ok G "git write new decision failed: " node (after_keep_both G mut) e hash h,
        )
        (
          refl,
          after_keep_both-Marks by_id mut existing (saved G node e hash) (written_repo G node e)
              (some_peer, ne) same held,
        )
