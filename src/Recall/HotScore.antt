-- ===== src/Recall/HotScore.antt =====
-- The hot score calculator (internal/recall/hot_score.go). As in the graph's own score, the numbers are
-- exact, in the unit of `hot_point`; a quarter of the 1.5 points that a day takes away is one unit a
-- nanosecond. `-` stops at 0, which is the source's `math.Max(0, …)`.
use feishu_agent_mem.Prelude.{ℕ, ◌+◌, ◌-◌, ◌*◌, ◌/◌, min, some, leb, length, if◌then◌else◌}
use feishu_agent_mem.Decision.Types.{DecisionNode}
use feishu_agent_mem.Decision.Node.{hot_point}

unfoldable pub reference_score : ℕ → ℕ
reference_score count = min 100 (count * 20)

unfoldable pub access_score : ℕ → ℕ
access_score count = min 100 (count * 15)

unfoldable pub relation_score : ℕ → ℕ
relation_score count = min 100 (count * 25)

-- A quarter of the decay score: a decision from the future has more than 25 points here.
unfoldable pub weighted_decay : ℕ → ℕ → ℕ
weighted_decay now created_at = 25 * hot_point + created_at - now

unfoldable pub hot_score_of : ℕ → DecisionNode → ℕ
unfolding reference_score access_score relation_score weighted_decay
hot_score_of now node = min (100 * hot_point) (
    reference_score node.access_stats.reference_count * (40 * hot_point) / 100
    + weighted_decay now node.created_at
    + access_score node.access_stats.access_count * (20 * hot_point) / 100
    + relation_score (length node.relations) * (15 * hot_point) / 100)

-- `Calculate` writes the score into the node.
unfoldable pub calculate : ℕ → DecisionNode → ℕ × DecisionNode
unfolding hot_score_of
calculate now node =
    let score = hot_score_of now node in
    (
      score,
      record node {
        access_stats = record node.access_stats { hot_score = score; last_calculated = some now };
      },
    )

pub data HotCategory : Type 0 where
  active normal fuzzy forgotten : HotCategory

unfoldable pub get_hot_category : ℕ → HotCategory
get_hot_category score =
    if leb (80 * hot_point) score
    then active
    else if leb (50 * hot_point) score
    then normal
    else if leb (20 * hot_point) score
    then fuzzy
    else forgotten
