-- ===== src/Examples/OnGraph.antt =====
-- The graph's theorems at the sample decisions.
use mathlib.Core.List.{Perm}
use feishu_agent_mem.Prelude.{
  ◌+◌, str_eq, List, [], ◌∷◌, ◌≡◌, ◌≢◌, ◌↔◌, refl, true, false, any, ltb, codes, arith,
}
use feishu_agent_mem.Decision.Types.{DecisionNode}
use feishu_agent_mem.Decision.Node.{new_decision_node, is_active}
use feishu_agent_mem.Decision.Edges.{HasUniqueEdges}
use feishu_agent_mem.Graph.State.{new_memory_graph, upsert_decision}
use feishu_agent_mem.Graph.Access.{exchange_sort, get_dirty_and_clean}
use feishu_agent_mem.Graph.Queries.{
  contains_ignore_case, strings_to_lower, query_by_topic, get_decision,
}
use feishu_agent_mem.Graph.Consistency.{IsConsistent, upsert_decision-IsConsistent, is_dirty}
use feishu_agent_mem.Graph.Calls.{
  Call, upsert, delete, access, flush, perform_all, perform_all-IsConsistent,
  new_memory_graph-IsConsistent,
}
use feishu_agent_mem.Graph.Topics.{times, listed, query_by_topic-upsert, get_dirty_and_clean_exact}
use feishu_agent_mem.Graph.Ranking.{IsDescending, exchange_sort_correct}
use feishu_agent_mem.Graph.Search.{Occurs, contains_ignore_case_iff}
use feishu_agent_mem.Examples.Samples.{decision_a, decision_b, graph}

abbrev calls : List Call
calls =
    upsert decision_a "mem" ∷ upsert decision_b "mem" ∷ access 4000 "a" ∷ flush ∷ delete "b" ∷ []

perform_all-IsConsistent_example : IsConsistent (perform_all calls new_memory_graph)
perform_all-IsConsistent_example = perform_all-IsConsistent calls

pub graph_IsConsistent : IsConsistent graph
graph_IsConsistent =
    upsert_decision-IsConsistent decision_a "mem" new_memory_graph new_memory_graph-IsConsistent

-- The topic lists the id once already; the second upsert makes it two.
query_by_topic-upsert_example :
    times "a" (query_by_topic "mem" "lang" (upsert_decision decision_a "mem" graph))
    ≡ listed "a" "mem" "lang" graph + 1
unfolding new_decision_node is_active
query_by_topic-upsert_example = query_by_topic-upsert decision_a "mem" graph graph_IsConsistent refl

get_dirty_and_clean_exact_example :
    (any (λ d. str_eq d.sdr_id "a") (get_dirty_and_clean graph).0 ≡ is_dirty "a" graph)
    × (is_dirty "a" (get_dirty_and_clean graph).1 ≡ false)
    × (get_decision "a" (get_dirty_and_clean graph).1 ≡ get_decision "a" graph)
get_dirty_and_clean_exact_example = get_dirty_and_clean_exact "a" graph graph_IsConsistent

abbrev decisions : List DecisionNode
decisions = decision_a ∷ decision_b ∷ []

exchange_sort_correct_example :
    Perm (exchange_sort (λ a b. ltb a.created_at b.created_at) decisions) decisions
    × IsDescending
        (λ d. d.created_at)
        (exchange_sort (λ a b. ltb a.created_at b.created_at) decisions)
exchange_sort_correct_example = exchange_sort_correct (λ d. d.created_at) decisions

contains_ignore_case_iff_example :
    (contains_ignore_case (codes "Use Rust") (codes "RUST") ≡ true) ↔ (
      (codes "RUST" ≢ [])
      × Occurs (strings_to_lower (codes "RUST")) (strings_to_lower (codes "Use Rust")))
contains_ignore_case_iff_example = contains_ignore_case_iff (codes "Use Rust") (codes "RUST")

decision_a-HasUniqueEdges : HasUniqueEdges decision_a
unfolding new_decision_node
decision_a-HasUniqueEdges type target = ground arith
