-- ===== src/Pipeline/Batches.antt =====
-- Batches, and the validation of a decision (internal/core/pipeline.go).
use mathlib.Core.Path.{fun_ext}
use feishu_agent_mem.Prelude.{
  List, [], ◌∷◌, ◌++◌, ◌≡◌, ◌≢◌, ◌↔◌, refl, true, arith, eq_iff, ap, sym, ◌∙◌,
}
use feishu_agent_mem.Decision.Types.{DecisionNode}
use feishu_agent_mem.Decision.Node.{status_is_valid, impact_is_valid}
use feishu_agent_mem.Signal.Types.{DecisionMutation}
use feishu_agent_mem.Pipeline.Engine.{Outcome, done, failed, panicked, GitStorage, Engine, Handler}
use feishu_agent_mem.Pipeline.Handlers.{apply_mutation, batch_apply, proceed, validate_decision}

module _ (G : GitStorage) where
  proceed_assoc :
      (r : Outcome × Engine G) (f g : Handler G)
      → proceed G (proceed G r f) g ≡ proceed G r (λ e. proceed G (f e) g)
  proceed_assoc (done, e) f g = refl
  proceed_assoc (failed x, e) f g = refl
  proceed_assoc (panicked, e) f g = refl

  -- A batch is its first part followed, if every mutation of that succeeded, by its second part; a
  -- mutation that does not succeed ends the batch with its own outcome and state.
  batch_apply-append :
      (first second : List DecisionMutation) (e : Engine G)
      → batch_apply G (first ++ second) e ≡ proceed G (batch_apply G first e) (batch_apply G second)
  unfolding batch_apply
  batch_apply-append [] second e = refl
  batch_apply-append (mut ∷ first) second e =
      ap (proceed G (apply_mutation G mut e)) (fun_ext (batch_apply-append first second))
      ∙ sym (proceed_assoc (apply_mutation G mut e) (batch_apply G first) (batch_apply G second))

-- Everything that a decision must have to be stored.
pub record IsComplete (d : DecisionNode) : Type 0 where
  pub sdr_id : d.sdr_id ≢ ""
  pub title : d.title ≢ ""
  pub topic : d.topic ≢ ""
  pub status : status_is_valid d.status ≡ true
  pub impact_level : impact_is_valid d.impact_level ≡ true

-- The validation reports nothing exactly when the id, the title and the topic are not empty and the
-- status and the impact level are among the known ones.
validate_decision_iff : (d : DecisionNode) → (validate_decision d ≡ []) ↔ IsComplete d
unfolding validate_decision
validate_decision_iff d = (
  λ h. ground (arith, eq_iff d.sdr_id "", eq_iff d.title "", eq_iff d.topic ""),
  λ h. ground (arith, eq_iff d.sdr_id "", eq_iff d.title "", eq_iff d.topic ""),
)
