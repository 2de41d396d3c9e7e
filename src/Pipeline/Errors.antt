-- ===== src/Pipeline/Errors.antt =====
-- The mutations that do not succeed, and the stores behind them (internal/core/pipeline.go).
use feishu_agent_mem.Prelude.{String, ◌≡◌, ◌≢◌, refl, arith, str_eq, Bool-cases, inl, inr}
use feishu_agent_mem.Decision.Types.{DecisionNode}
use feishu_agent_mem.Signal.Types.{
  MutationType, create, update, status_change, conflict, objection, deprecate, revert,
  DecisionMutation,
}
use feishu_agent_mem.Pipeline.Engine.{Outcome, done, GitStorage, Engine, commit}
use feishu_agent_mem.Pipeline.Handlers.{
  apply_create, apply_update, apply_status_change, apply_conflict_merge, apply_conflict_keep_both,
  apply_create_objection, apply_deprecate, apply_revert, dispatch, apply_mutation,
}

module _ (G : GitStorage) where
  -- Only the repository may differ.
  pub record SameViews (a b : Engine G) : Type 0 where
    pub bitable : a.bitable ≡ b.bitable
    pub graph : a.graph ≡ b.graph
    pub notifier : a.notifier ≡ b.notifier

  -- The outcome is success, or the engine looks as it did.
  abbrev pub KeepsOnError : Engine G → Outcome × Engine G → Type 0
  KeepsOnError e r = r.0 ≢ done → SameViews r.1 e

  commit-KeepsOnError :
      (context : String) (node : DecisionNode) (after : DecisionNode → Engine G → Engine G)
      (e : Engine G)
      → KeepsOnError e (commit G context node after e)
  unfolding commit
  commit-KeepsOnError context node after e = ground arith

  apply_create-KeepsOnError :
      (mut : DecisionMutation) (e : Engine G) → KeepsOnError e (apply_create G mut e)
  unfolding apply_create
  apply_create-KeepsOnError mut e = ground arith

  apply_update-KeepsOnError :
      (mut : DecisionMutation) (e : Engine G) → KeepsOnError e (apply_update G mut e)
  unfolding apply_update
  apply_update-KeepsOnError mut e = ground arith

  apply_status_change-KeepsOnError :
      (mut : DecisionMutation) (e : Engine G) → KeepsOnError e (apply_status_change G mut e)
  unfolding apply_status_change
  apply_status_change-KeepsOnError mut e = ground arith

  apply_conflict_merge-KeepsOnError :
      (mut : DecisionMutation) (e : Engine G) → KeepsOnError e (apply_conflict_merge G mut e)
  unfolding apply_conflict_merge
  apply_conflict_merge-KeepsOnError mut e = ground arith

  apply_conflict_keep_both-KeepsOnError :
      (mut : DecisionMutation) (e : Engine G) → KeepsOnError e (apply_conflict_keep_both G mut e)
  unfolding apply_conflict_keep_both
  apply_conflict_keep_both-KeepsOnError mut e = ground arith

  apply_create_objection-KeepsOnError :
      (mut : DecisionMutation) (e : Engine G) → KeepsOnError e (apply_create_objection G mut e)
  unfolding apply_create_objection
  apply_create_objection-KeepsOnError mut e = ground arith

  apply_deprecate-KeepsOnError :
      (mut : DecisionMutation) (e : Engine G) → KeepsOnError e (apply_deprecate G mut e)
  unfolding apply_deprecate
  apply_deprecate-KeepsOnError mut e = ground arith

  apply_revert-KeepsOnError :
      (mut : DecisionMutation) (e : Engine G) → KeepsOnError e (apply_revert G mut e)
  unfolding apply_revert
  apply_revert-KeepsOnError mut e = ground arith

  dispatch-KeepsOnError :
      (type : MutationType) (mut : DecisionMutation) (e : Engine G)
      → KeepsOnError e (dispatch G type mut e)
  unfolding dispatch
  dispatch-KeepsOnError create mut e = apply_create-KeepsOnError mut e
  dispatch-KeepsOnError update mut e = apply_update-KeepsOnError mut e
  dispatch-KeepsOnError status_change mut e = apply_status_change-KeepsOnError mut e
  dispatch-KeepsOnError conflict mut e = elim (Bool-cases (str_eq mut.conflict_action "merge")) [
    | inl m ↦ rw m (apply_conflict_merge-KeepsOnError mut e)
    | inr m ↦ rw m (apply_conflict_keep_both-KeepsOnError mut e)
  ]
  dispatch-KeepsOnError objection mut e = apply_create_objection-KeepsOnError mut e
  dispatch-KeepsOnError deprecate mut e = apply_deprecate-KeepsOnError mut e
  dispatch-KeepsOnError revert mut e = apply_revert-KeepsOnError mut e
  dispatch-KeepsOnError (MutationType.other s) mut e =
      λ _. record { bitable = refl; graph = refl; notifier = refl }

  -- A mutation of any type that does not succeed, by an error or a panic, has made no call on the
  -- Bitable store or the notifier and has left the graph as it was: only the repository may differ.
  pub apply_mutation_error :
      (mut : DecisionMutation) (e : Engine G)
      → (apply_mutation G mut e).0 ≢ done
      → SameViews (apply_mutation G mut e).1 e
  unfolding apply_mutation
  apply_mutation_error mut e = dispatch-KeepsOnError mut.type mut e
