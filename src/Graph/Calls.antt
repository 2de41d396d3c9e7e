-- ===== src/Graph/Calls.antt =====
-- The calls that write the graph, as one type of events, and their histories
-- (internal/core/memory_graph.go).
use mathlib.Core.Bool.{false≢true}
use feishu_agent_mem.Prelude.{ℕ, String, List, [], ◌∷◌, refl, lookup, slice_at, arith}
use feishu_agent_mem.Decision.Types.{DecisionNode}
use feishu_agent_mem.Graph.State.{
  MemoryGraph, new_memory_graph, upsert_decision, delete_decision, GitReader, load_from_git,
}
use feishu_agent_mem.Graph.Access.{
  update_access_stats, graph_record_reference, recalculate_hot_score, get_dirty_and_clean,
}
use feishu_agent_mem.Graph.Consistency.{
  IsConsistent, upsert_decision-IsConsistent, delete_decision-IsConsistent,
  update_node-IsConsistent, load_from_git-IsConsistent,
}

-- Every call that writes the graph.
pub data Call : Type 0 where
  load : GitReader → String → Call
  upsert : DecisionNode → String → Call
  delete : String → Call
  access : ℕ → String → Call
  reference : String → Call
  recalculate : ℕ → String → Call
  flush : Call

unfoldable pub perform : Call → MemoryGraph → MemoryGraph
unfolding load_from_git upsert_decision delete_decision update_access_stats graph_record_reference
    recalculate_hot_score get_dirty_and_clean
perform (load reader project) mg = (load_from_git reader project mg).1
perform (upsert node project) mg = upsert_decision node project mg
perform (delete sdr_id) mg = delete_decision sdr_id mg
perform (access now sdr_id) mg = (update_access_stats now sdr_id mg).1
perform (reference sdr_id) mg = (graph_record_reference sdr_id mg).1
perform (recalculate now sdr_id) mg = (recalculate_hot_score now sdr_id mg).1
perform flush mg = (get_dirty_and_clean mg).1

get_dirty_and_clean-IsConsistent :
    (mg : MemoryGraph) → IsConsistent mg → IsConsistent (get_dirty_and_clean mg).1
unfolding get_dirty_and_clean lookup
get_dirty_and_clean-IsConsistent mg c = record {
  keyed = c.keyed;
  dirty_stored = λ k e. absurd (false≢true e);
  topics_unique = c.topics_unique;
}

perform-IsConsistent :
    (call : Call) (mg : MemoryGraph) → IsConsistent mg → IsConsistent (perform call mg)
unfolding perform
perform-IsConsistent (load reader project) mg c = load_from_git-IsConsistent reader project mg c
perform-IsConsistent (upsert node project) mg c = upsert_decision-IsConsistent node project mg c
perform-IsConsistent (delete sdr_id) mg c = delete_decision-IsConsistent sdr_id mg c
perform-IsConsistent (access now sdr_id) mg c = update_node-IsConsistent sdr_id _ mg (λ d. refl) c
perform-IsConsistent (reference sdr_id) mg c = update_node-IsConsistent sdr_id _ mg (λ d. refl) c
perform-IsConsistent (recalculate now sdr_id) mg c =
    update_node-IsConsistent sdr_id _ mg (λ d. refl) c
perform-IsConsistent flush mg c = get_dirty_and_clean-IsConsistent mg c

unfoldable pub perform_all : List Call → MemoryGraph → MemoryGraph
unfolding perform
perform_all [] mg = mg
perform_all (call ∷ calls) mg = perform_all calls (perform call mg)

perform_all-keeps :
    (calls : List Call) (mg : MemoryGraph) → IsConsistent mg → IsConsistent (perform_all calls mg)
unfolding perform_all
perform_all-keeps [] mg c = c
perform_all-keeps (call ∷ calls) mg c =
    perform_all-keeps calls (perform call mg) (perform-IsConsistent call mg c)

pub new_memory_graph-IsConsistent : IsConsistent new_memory_graph
unfolding lookup slice_at
new_memory_graph-IsConsistent = record {
  keyed = λ k d e. cc;
  dirty_stored = λ k e. absurd (false≢true e);
  topics_unique = λ p t. omega arith;
}

-- Whatever calls are made on a new graph, in whatever order: each decision stands under its own id,
-- every dirty id is stored, and no project lists a topic twice.
pub perform_all-IsConsistent :
    (calls : List Call) → IsConsistent (perform_all calls new_memory_graph)
perform_all-IsConsistent calls =
    perform_all-keeps calls new_memory_graph new_memory_graph-IsConsistent
