-- ===== src/Graph/Queries.antt =====
-- The reads of the decision graph, the keyword search and the conflict query
-- (internal/core/memory_graph.go). Where the source ranges over a map, the result has the order of
-- that map's list.
use feishu_agent_mem.Prelude.{
  ℕ, suc, ◌+◌, ◌-◌, String, str_append, str_eq, List, [], ◌∷◌, ◌++◌, Option, some, none, Bool,
  false, ◌&&◌, ◌||◌, not, known, keep, length, map, leb, ltb, Map, lookup, slice_at, codes,
  begins_with, if◌then◌else◌,
}
use feishu_agent_mem.Decision.Types.{Relation, conflicts_with, relation_text, DecisionNode}
use feishu_agent_mem.Decision.Node.{is_active}
use feishu_agent_mem.Graph.State.{MemoryGraph, topic_key}

-- The loop `for id in ids { if d, ok := decisions[id]; ok { append } }`.
unfoldable pub found_nodes : Map DecisionNode → List String → List DecisionNode
found_nodes decisions [] = []
found_nodes decisions (sdr_id ∷ rest) =
    let others = found_nodes decisions rest in
    elim (lookup sdr_id decisions) [ none ↦ others | some d ↦ d ∷ others ]

unfoldable pub query_by_topic : String → String → MemoryGraph → List DecisionNode
unfolding found_nodes topic_key is_active
query_by_topic project topic mg =
    keep is_active (found_nodes mg.decisions (slice_at (topic_key project topic) mg.topics))

-- The nested loop over the related topics.
unfoldable pub related_nodes : MemoryGraph → List String → List DecisionNode
unfolding found_nodes
related_nodes mg [] = []
related_nodes mg (ref_key ∷ rest) =
    found_nodes mg.decisions (slice_at ref_key mg.topics) ++ related_nodes mg rest

unfoldable pub query_cross_topic : String → String → MemoryGraph → List DecisionNode
unfolding found_nodes related_nodes topic_key
query_cross_topic project topic mg =
    let key = topic_key project topic in
    found_nodes mg.decisions (slice_at key mg.topics)
    ++ related_nodes mg (slice_at key mg.cross_topic_refs)

unfoldable pub get_decision : String → MemoryGraph → Option DecisionNode
get_decision sdr_id mg = lookup sdr_id mg.decisions

unfoldable pub count : MemoryGraph → ℕ
count mg = length mg.decisions

unfoldable pub topic_count : String → MemoryGraph → ℕ
topic_count project mg = length (slice_at project mg.projects)

unfoldable pub list_all_topics : String → MemoryGraph → List String
list_all_topics project mg = slice_at project mg.projects

unfoldable pub get_all_decisions : MemoryGraph → List DecisionNode
get_all_decisions mg = map (λ e. e.1) mg.decisions

unfoldable pub get_relations : String → MemoryGraph → List Relation
get_relations sdr_id mg = slice_at sdr_id mg.relations

unfoldable pub get_related_decisions : String → MemoryGraph → List DecisionNode
unfolding found_nodes
get_related_decisions sdr_id mg =
    found_nodes mg.decisions
      (map (λ (r : Relation). r.target_sdr_id) (slice_at sdr_id mg.relations))

-- The fields that stay zero, ConflictID and ContradictionScore, are left out.
pub record Conflict : Type 0 where
  pub decision_a : String
  pub decision_b : String
  pub description : String

abbrev describe : DecisionNode → DecisionNode → String
describe other new_node =
    str_append "Conflict detected between "
      (str_append other.title (str_append " and " new_node.title))

-- The inner loop over the relations of one decision.
unfoldable pub conflicts_from : MemoryGraph → DecisionNode → String → List Relation → List Conflict
conflicts_from mg new_node sdr_id [] = []
conflicts_from mg new_node sdr_id (rel ∷ rest) =
    let others = conflicts_from mg new_node sdr_id rest in
    if str_eq (relation_text rel.type) (relation_text conflicts_with)
      && str_eq rel.target_sdr_id new_node.sdr_id
    then (elim (lookup sdr_id mg.decisions) [
      | none ↦ others
      | some other ↦
          record {
            decision_a = sdr_id;
            decision_b = new_node.sdr_id;
            description = describe other new_node;
          }
          ∷ others
    ])
    else others

unfoldable pub conflicts_in : MemoryGraph → DecisionNode → Map (List Relation) → List Conflict
unfolding conflicts_from
conflicts_in mg new_node [] = []
conflicts_in mg new_node ((sdr_id, relations) ∷ rest) =
    conflicts_from mg new_node sdr_id relations ++ conflicts_in mg new_node rest

unfoldable pub detect_conflicts : DecisionNode → MemoryGraph → List Conflict
unfolding conflicts_in
detect_conflicts new_node mg = conflicts_in mg new_node mg.relations

unfoldable pub to_lower : ℕ → ℕ
to_lower c = if leb b'A' c && leb c b'Z' then c + (b'a' - b'A') else c

unfoldable pub strings_to_lower : List ℕ → List ℕ
unfolding to_lower
strings_to_lower = map to_lower

-- The loop `for i := 0; i <= len(s)-len(substr); i++` at the suffix of `s` from `i` on; no index for -1.
unfoldable pub index_from : ℕ → List ℕ → List ℕ → Option ℕ
index_from i [] substr =
    if ltb 0 (length substr) then none else if begins_with [] substr then some i else none
index_from i (c ∷ s) substr =
    let rest = index_from (suc i) s substr in
    if ltb (length (c ∷ s)) (length substr)
    then none
    else if begins_with (c ∷ s) substr
    then some i
    else rest

unfoldable pub index_of : List ℕ → List ℕ → Option ℕ
unfolding index_from begins_with
index_of s substr = index_from 0 s substr

-- s != ""
abbrev pub non_empty : List ℕ → Bool
non_empty s = ltb 0 (length s)

unfoldable pub strings_contains_ignore_case : List ℕ → List ℕ → Bool
unfolding strings_to_lower index_of
strings_contains_ignore_case s substr =
    let ls = strings_to_lower s in
    let lsub = strings_to_lower substr in
    leb (length lsub) (length ls) && non_empty ls && non_empty lsub && known (index_of ls lsub)

unfoldable pub contains_ignore_case : List ℕ → List ℕ → Bool
unfolding strings_contains_ignore_case
contains_ignore_case s substr =
    if not (non_empty substr)
    then false
    else leb (length substr) (length s)
      && (non_empty s && (leb (length substr) (length s) && strings_contains_ignore_case s substr))

-- The tests of one round of the search.
unfoldable pub matches_query : String → String → DecisionNode → Bool
unfolding contains_ignore_case is_active
matches_query query topic d =
    if not (is_active d)
    then false
    else if not (str_eq topic "") && not (str_eq d.topic topic)
    then false
    else contains_ignore_case (codes d.title) (codes query)
      || contains_ignore_case (codes d.decision) (codes query)
      || contains_ignore_case (codes d.rationale) (codes query)

unfoldable pub search_by_keywords : String → String → MemoryGraph → List DecisionNode
unfolding matches_query get_all_decisions
search_by_keywords query topic mg = keep (matches_query query topic) (get_all_decisions mg)
