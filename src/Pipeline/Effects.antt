-- ===== src/Pipeline/Effects.antt =====
-- The mutations of the state machine, and the stores behind them, where the repository answers
-- (internal/core/pipeline.go, internal/signal/state_machine.go).
use feishu_agent_mem.Prelude.{
  map_laws, String, List, [], ◌∷◌, ◌++◌, some, ok, ◌≡◌, refl, true, arith, ◌∙◌, ap, str_eq,
  count_if, if◌then◌else◌,
}
use feishu_agent_mem.Decision.Types.{DecisionNode, DecisionStatus}
use feishu_agent_mem.Decision.Node.{status_is_valid, impact_is_valid}
use feishu_agent_mem.Signal.Types.{StateChangeSignal, DecisionMutation}
use feishu_agent_mem.Signal.Texts.{status_of_text-status_text, impact_of_text-impact_text}
use feishu_agent_mem.Signal.StateMachine.{
  create_mutation_for_new_decision, create_mutation_for_update, create_mutation_for_status_change,
  update_fields,
}
use feishu_agent_mem.Graph.State.{upsert_decision}
use feishu_agent_mem.Graph.Queries.{get_decision}
use feishu_agent_mem.Pipeline.Engine.{
  done, GitStorage, Written, Engine, BitableCall, upsert, apply_fields, merge_doc_tokens, commit,
  sync, stamped, remember, publish,
}
use feishu_agent_mem.Pipeline.Tokens.{holds, fresh, with_tokens, merge_doc_tokens_lem, count-merged}
use feishu_agent_mem.Pipeline.Handlers.{
  apply_mutation, apply_update, apply_status_change, place_of_node, place_in_graph,
}

-- The seven fields that an update carries, copied from a decision.
abbrev pub updated : DecisionNode → DecisionNode → DecisionNode
updated existing node = record existing {
  title = node.title;
  decision = node.decision;
  rationale = node.rationale;
  impact_level = node.impact_level;
  executor = node.executor;
  proposer = node.proposer;
  status = node.status;
}

-- The strings of the update are read back as the level and the status that they were made from.
pub apply_fields-update_fields :
    (node existing : DecisionNode)
    → status_is_valid node.status ≡ true
    → impact_is_valid node.impact_level ≡ true
    → apply_fields (update_fields node) existing ≡ some (updated existing node)
unfolding apply_fields update_fields
apply_fields-update_fields node existing s i =
    rw (status_of_text-status_text node.status s, impact_of_text-impact_text node.impact_level i)

module _ (G : GitStorage) where
  module _ (e : Engine G) where
    pub get_decision-remember :
        (node : DecisionNode) → get_decision node.sdr_id (remember G node e).graph ≡ some node
    unfolding remember get_decision upsert_decision
    get_decision-remember node = simp map_laws

  get_decision-publish :
      (node : DecisionNode) (e : Engine G)
      → get_decision node.sdr_id (publish G node e).graph ≡ some node
  unfolding publish
  get_decision-publish node e = get_decision-remember (sync G (upsert node ∷ []) e) node

  bitable-publish :
      (node : DecisionNode) (e : Engine G) (made : List BitableCall)
      → e.bitable ≡ some made
      → (publish G node e).bitable ≡ some (made ++ upsert node ∷ [])
  unfolding publish
  bitable-publish node e made h = ground arith

  sdr_id-stamped :
      (node : DecisionNode) (w : Written G.Repo) → (stamped G node w).sdr_id ≡ node.sdr_id
  unfolding stamped
  sdr_id-stamped node w = ground arith

  -- The node after a successful write of it.
  abbrev pub saved : DecisionNode → Engine G → String → DecisionNode
  saved node e hash = record node {
    version = (G.write_decision node e.repo).version;
    git_commit_hash = hash;
  }

  abbrev pub written_repo : DecisionNode → Engine G → Engine G
  written_repo node e = record e { repo = (G.write_decision node e.repo).repo }

  -- A commit whose write succeeds is the action behind it, on the saved node.
  pub commit_ok :
      (context : String) (node : DecisionNode) (after : DecisionNode → Engine G → Engine G)
      (e : Engine G) (hash : String)
      → (G.write_decision node e.repo).outcome ≡ ok hash
      → commit G context node after e ≡ (done, after (saved node e hash) (written_repo node e))
  unfolding commit stamped
  commit_ok context node after e hash h = ground arith

  -- When Git accepts the decision of a create mutation, the mutation succeeds, the graph returns the
  -- decision with the commit's hash and version under its id, and a configured Bitable store has had
  -- exactly one more call, the upsert of that decision.
  pub create_stores :
      (node : DecisionNode) (signal : StateChangeSignal) (e : Engine G) (hash : String)
      (made : List BitableCall)
      → (G.write_decision node e.repo).outcome ≡ ok hash
      → e.bitable ≡ some made
      → let (outcome, after) = apply_mutation G (create_mutation_for_new_decision node signal) e in
        (outcome ≡ done)
        × (get_decision node.sdr_id after.graph ≡ some (saved node e hash))
        × (after.bitable ≡ some (made ++ upsert (saved node e hash) ∷ []))
  unfolding apply_mutation create_mutation_for_new_decision
  create_stores node signal e hash made h b =
      rw (commit_ok "git write failed: " node (publish G) e hash h) (
        refl,
        get_decision-publish (saved node e hash) (written_repo node e),
        bitable-publish (saved node e hash) (written_repo node e) made b,
      )

  apply_update_ok :
      (mut : DecisionMutation) (node existing changed : DecisionNode) (e : Engine G) (hash : String)
      → mut.node ≡ some node
      → G.read_decision (place_of_node node).project (place_of_node node).topic mut.sdr_id e.repo
        ≡ ok existing
      → apply_fields mut.field_changes existing ≡ some changed
      → let merged = merge_doc_tokens changed node in
        (G.write_decision merged e.repo).outcome ≡ ok hash
        → apply_update G mut e ≡ (done, publish G (saved merged e hash) (written_repo merged e))
  unfolding apply_update
  apply_update_ok mut node existing changed e hash n r f h = rw (
    n,
    apply_update,
    r,
    f,
    commit_ok "git write update failed: " (merge_doc_tokens changed node) (publish G) e hash h,
  )

  update_stored :
      (sdr_id : String) (node existing : DecisionNode) (signal : StateChangeSignal) (e : Engine G)
      (hash : String)
      → status_is_valid node.status ≡ true
      → impact_is_valid node.impact_level ≡ true
      → G.read_decision (place_of_node node).project (place_of_node node).topic sdr_id e.repo
        ≡ ok existing
      → let changed = merge_doc_tokens (updated existing node) node in
        (G.write_decision changed e.repo).outcome ≡ ok hash
        → let (outcome, after) =
            apply_mutation G (create_mutation_for_update sdr_id node signal) e in
          (outcome ≡ done)
          × (get_decision existing.sdr_id after.graph ≡ some (saved changed e hash))
  unfolding apply_mutation create_mutation_for_update
  update_stored sdr_id node existing signal e hash s i r h =
      let changed = merge_doc_tokens (updated existing node) node in
      rw
        (apply_update_ok (create_mutation_for_update sdr_id node signal) node existing
          (updated existing node) e hash refl r (apply_fields-update_fields node existing s i) h)
        (refl, get_decision-publish (saved changed e hash) (written_repo changed e))

  -- When Git reads the decision of an update mutation and accepts the write, and the new status and
  -- impact level are valid, the mutation succeeds and the graph returns, saved, the decision that was
  -- read with the seven fields of the new one and, as its document tokens, its own in their order
  -- and behind them those of the new one that it lacks; so each of its own stays as often as it was,
  -- any other of the new one comes once, and there are no more.
  pub update_stores :
      (sdr_id : String) (node existing : DecisionNode) (signal : StateChangeSignal) (e : Engine G)
      (hash : String)
      → status_is_valid node.status ≡ true
      → impact_is_valid node.impact_level ≡ true
      → G.read_decision (place_of_node node).project (place_of_node node).topic sdr_id e.repo
        ≡ ok existing
      → (G.write_decision
          (with_tokens
            (existing.feishu_links.related_doc_tokens
              ++ fresh existing.feishu_links.related_doc_tokens
                  node.feishu_links.related_doc_tokens)
            (updated existing node))
          e.repo).outcome
        ≡ ok hash
      → let own = existing.feishu_links.related_doc_tokens in
        let new = node.feishu_links.related_doc_tokens in
        let changed = with_tokens (own ++ fresh own new) (updated existing node) in
        let (outcome, after) = apply_mutation G (create_mutation_for_update sdr_id node signal) e in
        (outcome ≡ done)
        × (get_decision existing.sdr_id after.graph ≡ some (saved changed e hash))
        × ((t : String)
            → count_if (λ s. str_eq s t) (saved changed e hash).feishu_links.related_doc_tokens ≡ (
                if holds own t
                then count_if (λ s. str_eq s t) own
                else if holds new t
                then 1
                else 0))
  update_stores sdr_id node existing signal e hash s i r h =
      let own = existing.feishu_links.related_doc_tokens in
      let new = node.feishu_links.related_doc_tokens in
      let same = merge_doc_tokens_lem (updated existing node) node in
      let accepted = ap (λ changed. (G.write_decision changed e.repo).outcome) same ∙ h in
      let stored = update_stored sdr_id node existing signal e hash s i r accepted in
      (
        stored.0,
        stored.1 ∙ ap (λ changed. some (saved changed e hash)) same,
        λ t. count-merged t own new,
      )

  -- When Git reads the decision of a status change at the place that the graph knows and accepts the
  -- write, the mutation succeeds and the graph returns that decision with the new status, saved; the
  -- Bitable store has had no call.
  status_change_stores :
      (sdr_id reason : String) (from to : DecisionStatus) (existing : DecisionNode) (e : Engine G)
      (hash : String)
      → let place = place_in_graph sdr_id e.graph in
        G.read_decision place.project place.topic sdr_id e.repo ≡ ok existing
        → let changed = record existing { status = to } in
          (G.write_decision changed e.repo).outcome ≡ ok hash
          → let (outcome, after) =
              apply_mutation G (create_mutation_for_status_change sdr_id from to reason) e in
            (outcome ≡ done)
            × (get_decision existing.sdr_id after.graph ≡ some (saved changed e hash))
            × (after.bitable ≡ e.bitable)
  unfolding apply_mutation create_mutation_for_status_change remember
  status_change_stores sdr_id reason from to existing e hash r h =
      let changed = record existing { status = to } in
      rw (r, apply_status_change, commit_ok "" changed (remember G) e hash h)
        (refl, get_decision-remember (written_repo changed e) (saved changed e hash), refl)
