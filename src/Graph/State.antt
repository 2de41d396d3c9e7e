-- ===== src/Graph/State.antt =====
-- The in-memory decision graph: its maps, the writes and the load (internal/core/memory_graph.go).
-- Every method of the source holds the graph's mutex for its whole body, so a call is one step. The
-- maps hold pointers; a decision that is changed through one is written back under its key.
use feishu_agent_mem.Prelude.{
  String, str_append, str_eq, List, [], ◌∷◌, ◌++◌, Option, some, none, any, Map, insert, erase,
  slice_at, strip_prefix, Result, ok, err, if◌then◌else◌,
}
use feishu_agent_mem.Decision.Types.{Relation, DecisionNode}
use feishu_agent_mem.Decision.Node.{branch_prefix_decision, dummy_sdr_id}

pub record MemoryGraph : Type 0 where
  pub decisions : Map DecisionNode
  pub topics : Map (List String)
  pub relations : Map (List Relation)
  pub cross_topic_refs : Map (List String)
  pub projects : Map (List String)
  pub dirty_decisions : Map (Unit {0})

abbrev pub new_memory_graph : MemoryGraph
new_memory_graph = record {
  decisions = [];
  topics = [];
  relations = [];
  cross_topic_refs = [];
  projects = [];
  dirty_decisions = [];
}

unfoldable pub append_unique : List String → String → List String
append_unique slice item = if any (λ s. str_eq s item) slice then slice else slice ++ item ∷ []

-- project + "/" + topic
unfoldable pub topic_key : String → String → String
topic_key project topic = str_append project (str_append "/" topic)

-- if len(node.Relations) > 0 { relations[id] = append(relations[id], node.Relations...) }
unfoldable pub add_relations : DecisionNode → Map (List Relation) → Map (List Relation)
add_relations node relations = elim node.relations [
  | [] ↦ relations
  | r ∷ rs ↦ insert node.sdr_id (slice_at node.sdr_id relations ++ node.relations) relations
]

-- The loop over `node.CrossTopicRefs`.
unfoldable pub add_cross_topic_refs :
    String → String → List String → Map (List String) → Map (List String)
unfolding append_unique
add_cross_topic_refs project key [] refs = refs
add_cross_topic_refs project key (ref_topic ∷ rest) refs =
    add_cross_topic_refs project key rest
      (insert key (append_unique (slice_at key refs) (topic_key project ref_topic)) refs)

unfoldable pub add_decision_internal : DecisionNode → String → MemoryGraph → MemoryGraph
unfolding append_unique topic_key add_relations add_cross_topic_refs
add_decision_internal node project mg =
    let key = topic_key project node.topic in
    record {
      decisions = insert node.sdr_id node mg.decisions;
      topics = insert key (slice_at key mg.topics ++ node.sdr_id ∷ []) mg.topics;
      projects =
          insert project (append_unique (slice_at project mg.projects) node.topic) mg.projects;
      relations = add_relations node mg.relations;
      cross_topic_refs = add_cross_topic_refs project key node.cross_topic_refs mg.cross_topic_refs;
      dirty_decisions = mg.dirty_decisions;
    }

unfoldable pub upsert_decision : DecisionNode → String → MemoryGraph → MemoryGraph
unfolding add_decision_internal
upsert_decision node project mg =
    let added = add_decision_internal node project mg in
    record added { dirty_decisions = insert node.sdr_id tt added.dirty_decisions }

unfoldable pub delete_decision : String → MemoryGraph → MemoryGraph
delete_decision sdr_id mg = record mg {
  decisions = erase sdr_id mg.decisions;
  dirty_decisions = erase sdr_id mg.dirty_decisions;
}

-- The interface `GitReader`, as far as the load uses it; an error of a read carries no more than that.
pub record GitReader : Type 0 where
  pub list_decision_branches : Result (List String)
  pub read_decision_from_branch : String → String → Option DecisionNode
  pub read_decision : String → String → String → Option DecisionNode

unfoldable pub strings_trim_prefix : String → String → String
strings_trim_prefix s prefix = elim (strip_prefix prefix s) [ none ↦ s | some rest ↦ rest ]

-- What one round of the load reads: nothing for an empty id or a failing read.
unfoldable pub read_branch : GitReader → String → Option DecisionNode
unfolding strings_trim_prefix
read_branch reader branch =
    let sdr_id = strings_trim_prefix branch branch_prefix_decision in
    if str_eq sdr_id "" then none else reader.read_decision_from_branch branch sdr_id

-- The body of a round, and the load of the dummy.
unfoldable pub add_read : String → Option DecisionNode → MemoryGraph → MemoryGraph
unfolding add_decision_internal
add_read project none mg = mg
add_read project (some node) mg = add_decision_internal node project mg

unfoldable pub load_branches : GitReader → String → List String → MemoryGraph → MemoryGraph
unfolding read_branch add_read
load_branches reader project [] mg = mg
load_branches reader project (branch ∷ branches) mg =
    load_branches reader project branches (add_read project (read_branch reader branch) mg)

unfoldable pub load_from_git : GitReader → String → MemoryGraph → Result (Unit {0}) × MemoryGraph
unfolding load_branches
load_from_git reader project mg = elim reader.list_decision_branches [
  | err e ↦ (err (str_append "list decision branches failed: " e), mg)
  | ok branches ↦ (
    ok tt,
    add_read project (reader.read_decision project "general" dummy_sdr_id)
        (load_branches reader project branches mg),
  )
]
