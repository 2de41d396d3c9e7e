-- ===== src/Pipeline/Handlers/Places.antt =====
-- Where the handlers look a decision up (internal/core/pipeline.go).
use feishu_agent_mem.Prelude.{String, some, none, Result}
use feishu_agent_mem.Decision.Types.{DecisionNode}
use feishu_agent_mem.Graph.State.{MemoryGraph}
use feishu_agent_mem.Graph.Queries.{get_decision}
use feishu_agent_mem.Pipeline.Engine.{GitStorage, or_default, Engine}

-- The project and the topic under which the source looks a decision up.
pub record Place : Type 0 where
  pub project : String
  pub topic : String

-- project and topic of the node, with the defaults for empty ones
unfoldable pub place_of_node : DecisionNode → Place
place_of_node node = record {
  project = or_default node.project "feishu-mem";
  topic = or_default node.topic "general";
}

-- project and topic of the decision in the graph, else the defaults
unfoldable pub place_in_graph : String → MemoryGraph → Place
unfolding get_decision
place_in_graph sdr_id mg = elim (get_decision sdr_id mg) [
  | none ↦ record { project = "feishu-mem"; topic = "general" }
  | some d ↦ record { project = d.project; topic = d.topic }
]

module _ (G : GitStorage) where
  open G use {write_decision, read_decision, write_objection, read_decision_at_commit}

  abbrev pub read_at : Place → String → Engine G → Result DecisionNode
  read_at place sdr_id e = read_decision place.project place.topic sdr_id e.repo
