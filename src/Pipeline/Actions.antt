-- ===== src/Pipeline/Actions.antt =====
-- The parts of the handlers and the invariant of the graph (internal/core/pipeline.go).
use feishu_agent_mem.Prelude.{
  String, List, Result, ok, err, ◌≡◌, refl, arith, str_eq, eq_iff, Bool-cases, Option-cases, inl,
  inr, insert, lookup, lookup-insert, ◌∙◌,
}
use feishu_agent_mem.Decision.Types.{DecisionNode}
use feishu_agent_mem.Decision.Node.{set_conflict}
use feishu_agent_mem.Signal.Types.{DecisionMutation}
use feishu_agent_mem.Graph.State.{MemoryGraph}
use feishu_agent_mem.Graph.Queries.{get_decision}
use feishu_agent_mem.Graph.Consistency.{IsConsistent, known-insert, upsert_decision-IsConsistent}
use feishu_agent_mem.Pipeline.Engine.{
  GitStorage, Written, Engine, BitableCall, commit, sync, stamped, remember, publish,
}
use feishu_agent_mem.Pipeline.Handlers.{
  mark_existing, mark_fresh, mark_both, notify, after_merge, after_keep_both, after_revert,
}

pub sdr_id-set_conflict :
    (d : DecisionNode) (peer : String) → (set_conflict d peer).sdr_id ≡ d.sdr_id
unfolding set_conflict
sdr_id-set_conflict d peer = ground arith

-- A decision written back under its own id, in a graph that holds the id.
write_back-IsConsistent :
    (k : String) (node : DecisionNode) (mg : MemoryGraph)
    → node.sdr_id ≡ k
    → IsConsistent mg
    → IsConsistent (record mg { decisions = insert k node mg.decisions })
write_back-IsConsistent k node mg same c = record {
  keyed = λ j d. rw lookup-insert (λ e. ground (arith, c.keyed j d, eq_iff k j));
  dirty_stored = λ j e. ground (arith, c.dirty_stored j, known-insert k j node mg.decisions);
  topics_unique = c.topics_unique;
}

module _ (G : GitStorage) where
  abbrev pub Sound : Engine G → Type 0
  Sound e = IsConsistent e.graph

  -- What an action on the engine keeps.
  abbrev pub Keeps : (Engine G → Engine G) → Type 0
  Keeps f = (e : Engine G) → Sound e → Sound (f e)

  pub remember-Sound : (node : DecisionNode) → Keeps (remember G node)
  unfolding remember
  remember-Sound node e c = upsert_decision-IsConsistent node node.project e.graph c

  pub graph-sync : (calls : List BitableCall) (e : Engine G) → (sync G calls e).graph ≡ e.graph
  unfolding sync
  graph-sync calls e = ground arith

  pub sync-Sound : (calls : List BitableCall) → Keeps (sync G calls)
  sync-Sound calls e c = rw graph-sync c

  pub publish-Sound : (node : DecisionNode) → Keeps (publish G node)
  unfolding publish
  publish-Sound node e c = remember-Sound node (sync G _ e) (sync-Sound _ e c)

  pub commit-Sound :
      (context : String) (node : DecisionNode) (after : DecisionNode → Engine G → Engine G)
      (e : Engine G)
      → ((n : DecisionNode) → Keeps (after n))
      → Sound e
      → Sound (commit G context node after e).1
  unfolding commit
  commit-Sound context node after e keep c = go ((G.write_decision node e.repo).outcome) refl
    where
      go :
          (r : Result String)
          → (G.write_decision node e.repo).outcome ≡ r
          → Sound (commit G context node after e).1
      go (err x) h = rw (h, commit) c
      go (ok hash) h =
          rw (h, commit)
            (keep (stamped G node (G.write_decision node e.repo))
              (record e { repo = (G.write_decision node e.repo).repo }) c)

  pub sdr_id-stamped :
      (node : DecisionNode) (w : Written G.Repo) → (stamped G node w).sdr_id ≡ node.sdr_id
  unfolding stamped
  sdr_id-stamped node w = ground arith

  pub mark_existing-Sound :
      (conflict_id sdr_id : String) → Keeps (mark_existing G conflict_id sdr_id)
  unfolding mark_existing get_decision
  mark_existing-Sound conflict_id sdr_id e c =
      elim (Option-cases (lookup conflict_id e.graph.decisions)) [
        | inl h ↦ rw (h, mark_existing) c
        | inr (d, h) ↦
            let marked = set_conflict d sdr_id in
            let w = G.write_decision marked e.repo in
            rw (h, mark_existing)
              (write_back-IsConsistent conflict_id (stamped G marked w) e.graph
                (sdr_id-stamped marked w ∙ sdr_id-set_conflict d sdr_id ∙ c.keyed conflict_id d h)
                c)
      ]

  pub graph-mark_fresh :
      (node : DecisionNode) (mut : DecisionMutation) (e : Engine G)
      → (mark_fresh G node mut e).1.graph ≡ e.graph
  unfolding mark_fresh
  graph-mark_fresh node mut e = ground arith

  pub mark_both-Sound :
      (node : DecisionNode) (mut : DecisionMutation) (e : Engine G)
      → Sound e
      → Sound (mark_both G node mut e).1
  unfolding mark_both
  mark_both-Sound node mut e c = elim (Bool-cases (str_eq mut.conflict_sdr_id "")) [
    | inl h ↦ rw h c
    | inr h ↦ rw (h, graph-mark_fresh) (mark_existing-Sound mut.conflict_sdr_id mut.sdr_id e c)
  ]

  pub graph-notify :
      (node : DecisionNode) (mut : DecisionMutation) (e : Engine G)
      → (notify G node mut e).graph ≡ e.graph
  unfolding notify
  graph-notify node mut e = ground arith

  pub after_merge-Sound : (mut : DecisionMutation) (n : DecisionNode) → Keeps (after_merge G mut n)
  unfolding after_merge
  after_merge-Sound mut n e c = remember-Sound n (sync G _ e) (sync-Sound _ e c)

  pub after_keep_both-Sound :
      (mut : DecisionMutation) (n : DecisionNode) → Keeps (after_keep_both G mut n)
  unfolding after_keep_both
  after_keep_both-Sound mut n e c =
      let (fresh, marked) = mark_both G n mut e in
      rw graph-notify
        (remember-Sound fresh (sync G _ marked) (sync-Sound _ marked (mark_both-Sound n mut e c)))

  pub after_revert-Sound : (old n : DecisionNode) → Keeps (after_revert G old n)
  unfolding after_revert
  after_revert-Sound old n e c = remember-Sound old (publish G n e) (publish-Sound n e c)
