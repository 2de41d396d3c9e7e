-- ===== src/Examples/OnPipeline.antt =====
-- The pipeline's theorems at the sample repository.
use mathlib.Core.Bool.{false≢true}
use feishu_agent_mem.Prelude.{
  eq_iff, lookup, insert, String, str_eq, count_if, if◌then◌else◌, [], ◌∷◌, ◌++◌, ◌≡◌, ◌≢◌, refl,
  true, false, some, arith,
}
use feishu_agent_mem.Decision.Types.{DecisionNode, decided, executing, superseded, conflicts_with}
use feishu_agent_mem.Decision.Node.{new_decision_node, is_active, status_is_valid, impact_is_valid}
use feishu_agent_mem.Signal.Types.{DecisionMutation}
use feishu_agent_mem.Signal.StateMachine.{
  create_mutation_for_new_decision, create_mutation_for_update, create_mutation_for_status_change,
  create_mutation_for_conflict_keep_both, create_mutation_for_revert,
}
use feishu_agent_mem.Graph.State.{upsert_decision}
use feishu_agent_mem.Graph.Queries.{get_decision}
use feishu_agent_mem.Graph.Consistency.{IsConsistent}
use feishu_agent_mem.Pipeline.Engine.{done, upsert}
use feishu_agent_mem.Pipeline.Handlers.{apply_mutation, apply_conflict_keep_both, batch_apply}
use feishu_agent_mem.Pipeline.Consistency.{batch_apply-IsConsistent}
use feishu_agent_mem.Pipeline.Errors.{SameViews, apply_mutation_error}
use feishu_agent_mem.Pipeline.Effects.{saved, updated, create_stores, update_stores}
use feishu_agent_mem.Pipeline.Tokens.{holds, fresh, with_tokens}
use feishu_agent_mem.Pipeline.Engine.{Engine}
use feishu_agent_mem.Pipeline.Revert.{revert_hides_target}
use feishu_agent_mem.Pipeline.Conflicts.{IsMarked, keep_both_marks_existing}
use feishu_agent_mem.Examples.Samples.{
  find_commit, memory_git, broken_git, sdr_id-find_commit, decision_a, decision_a_old, decision_b,
  signal, engine, broken_engine,
}
use feishu_agent_mem.Examples.OnGraph.{graph_IsConsistent}

abbrev creation : DecisionMutation
creation = create_mutation_for_new_decision decision_b signal

abbrev execution : DecisionMutation
execution = create_mutation_for_status_change "a" decided executing "started"

batch_apply-IsConsistent_example :
    IsConsistent (batch_apply memory_git (creation ∷ execution ∷ []) engine).1.graph
batch_apply-IsConsistent_example =
    batch_apply-IsConsistent memory_git (creation ∷ execution ∷ []) engine graph_IsConsistent

creation_refused : (apply_mutation broken_git creation broken_engine).0 ≢ done
unfolding apply_mutation create_mutation_for_new_decision
creation_refused = ground arith

apply_mutation_error_example :
    SameViews broken_git (apply_mutation broken_git creation broken_engine).1 broken_engine
apply_mutation_error_example =
    apply_mutation_error broken_git creation broken_engine creation_refused

create_stores_example :
    ((apply_mutation memory_git (create_mutation_for_new_decision decision_b signal) engine).0
      ≡ done)
    × (get_decision "b"
          (apply_mutation memory_git
            (create_mutation_for_new_decision decision_b signal)
            engine).1.graph
        ≡ some (saved memory_git decision_b engine "c9"))
    × ((apply_mutation memory_git
          (create_mutation_for_new_decision decision_b signal)
          engine).1.bitable
        ≡ some ([] ++ upsert (saved memory_git decision_b engine "c9") ∷ []))
unfolding new_decision_node
create_stores_example = create_stores memory_git decision_b signal engine "c9" [] refl refl

abbrev documented : DecisionNode
documented = with_tokens ("t1" ∷ "t2" ∷ []) decision_a

abbrev update : DecisionNode
update = with_tokens ("t2" ∷ "t3" ∷ "t3" ∷ []) decision_b

abbrev library : Engine memory_git
library = record engine { repo = documented ∷ [] }

abbrev expected : DecisionNode
expected = with_tokens ("t1" ∷ "t2" ∷ "t3" ∷ []) (updated decision_a decision_b)

update_stores_example :
    ((apply_mutation memory_git (create_mutation_for_update "a" update signal) library).0 ≡ done)
    × (get_decision "a"
          (apply_mutation memory_git (create_mutation_for_update "a" update signal) library).1.graph
        ≡ some (saved memory_git expected library "c9"))
    × ((t : String)
        → count_if
            (λ s. str_eq s t)
            (saved memory_git expected library "c9").feishu_links.related_doc_tokens
          ≡ (if holds ("t1" ∷ "t2" ∷ []) t
              then count_if (λ s. str_eq s t) ("t1" ∷ "t2" ∷ [])
              else if holds ("t2" ∷ "t3" ∷ "t3" ∷ []) t
              then 1
              else 0))
unfolding new_decision_node find_commit status_is_valid impact_is_valid fresh
update_stores_example =
    update_stores memory_git "a" update documented signal library "c9" refl refl refl refl

abbrev collision : DecisionMutation
collision = create_mutation_for_conflict_keep_both decision_b "a" signal "two languages"

keep_both_marks_existing_example :
    ((apply_conflict_keep_both memory_git collision engine).0 ≡ done)
    × ((d : DecisionNode) × (get_decision "a"
            (apply_conflict_keep_both memory_git collision engine).1.graph
          ≡ some d)
        × IsMarked memory_git "b" d)
unfolding new_decision_node upsert_decision create_mutation_for_conflict_keep_both get_decision
    lookup insert
keep_both_marks_existing_example =
    keep_both_marks_existing memory_git
      (λ project topic sdr_id repo d h. sdr_id-find_commit (λ _. true) sdr_id repo d h) collision
      (record decision_b {
        relations =
            record {
              type = conflicts_with;
              target_sdr_id = "a";
              description = "Conflicts with a: two languages";
            }
            ∷ [];
      })
      decision_a "c9" engine refl refl (λ q. false≢true ((eq_iff "a" "").1 q))
      (λ q. false≢true ((eq_iff "b" "a").1 q)) refl refl

revert_hides_target_example :
    ((apply_mutation memory_git (create_mutation_for_revert "a" "c0" "wrong") engine).0 ≡ done)
    × ((d : DecisionNode) × (get_decision "a"
            (apply_mutation memory_git (create_mutation_for_revert "a" "c0" "wrong") engine).1.graph
          ≡ some d)
        × (d.status ≡ superseded)
        × (is_active d ≡ false))
unfolding new_decision_node find_commit upsert_decision
revert_hides_target_example =
    revert_hides_target memory_git "a" "c0" "wrong" "c9" decision_a_old decision_a engine refl refl
      refl refl
