-- ===== src/Recall/Decay.antt =====
-- The calculator's score and the graph's own score of the same decision
-- (internal/recall/hot_score.go, internal/core/memory_graph.go).
use feishu_agent_mem.Prelude.{ℕ, ◌+◌, ◌-◌, ◌*◌, ◌≤◌, min, ◌≡◌, arith}
use feishu_agent_mem.Decision.Types.{DecisionNode}
use feishu_agent_mem.Decision.Node.{hot_point}
use feishu_agent_mem.Graph.Access.{graph_hot_score, counted_score}
use feishu_agent_mem.Recall.HotScore.{
  reference_score, access_score, relation_score, weighted_decay, hot_score_of, calculate,
}

hot_score_of-counted :
    (now : ℕ) (node : DecisionNode)
    → hot_score_of now node
      ≡ min (100 * hot_point) (counted_score node + weighted_decay now node.created_at)
unfolding hot_score_of reference_score access_score relation_score
hot_score_of-counted now node = omega arith

-- For a decision that is not from the future, the calculator's score is at most 100 points; the
-- graph's score is at most the calculator's, and at least that less three units of the score for each
-- nanosecond of the decision's age.
pub graph_hot_score-calculate :
    (now : ℕ) (node : DecisionNode)
    → node.created_at ≤ now
    → ((calculate now node).0 ≤ 100 * hot_point)
      × (graph_hot_score now node ≤ (calculate now node).0)
      × ((calculate now node).0 ≤ graph_hot_score now node + 3 * (now - node.created_at))
unfolding calculate graph_hot_score weighted_decay
graph_hot_score-calculate now node h = (
  omega (arith, hot_score_of-counted now node),
  omega (arith, hot_score_of-counted now node),
  omega (arith, hot_score_of-counted now node),
)
