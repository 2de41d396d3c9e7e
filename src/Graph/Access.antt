-- ===== src/Graph/Access.antt =====
-- Access statistics, hot scores, dirty marks and rankings (internal/core/memory_graph.go).
-- A hot score is real arithmetic in the unit of `hot_point`, of which one is what a nanosecond of
-- age takes from a quarter of the base; float64 rounding is left out. `-` stops at 0, which is the
-- `math.Max(0, …)` that the source applies at the same place.
use feishu_agent_mem.Prelude.{
  ℕ, zero, suc, ◌+◌, ◌-◌, ◌*◌, ◌/◌, min, String, str_append, List, [], ◌∷◌, some, none, Bool, keep,
  length, leb, ltb, map, lookup, insert, Result, ok, err, ◌&&◌, if◌then◌else◌,
}
use feishu_agent_mem.Decision.Types.{DecisionNode}
use feishu_agent_mem.Decision.Node.{hot_point, record_access, record_reference, is_active}
use feishu_agent_mem.Graph.State.{MemoryGraph}
use feishu_agent_mem.Graph.Queries.{found_nodes, get_all_decisions}

-- `if d, ok := decisions[id]; ok { change d; mark id dirty; return nil }`, else an error.
unfoldable pub update_node :
    String → (DecisionNode → DecisionNode) → MemoryGraph → Result (Unit {0}) × MemoryGraph
update_node sdr_id change mg = elim (lookup sdr_id mg.decisions) [
  | none ↦ (err (str_append "decision not found: " sdr_id), mg)
  | some d ↦ (
    ok tt,
    record mg {
      decisions = insert sdr_id (change d) mg.decisions;
      dirty_decisions = insert sdr_id tt mg.dirty_decisions;
    },
  )
]

unfoldable pub update_access_stats : ℕ → String → MemoryGraph → Result (Unit {0}) × MemoryGraph
unfolding update_node record_access
update_access_stats now sdr_id =
    update_node sdr_id (λ d. record d { access_stats = record_access now d.access_stats })

unfoldable pub graph_record_reference : String → MemoryGraph → Result (Unit {0}) × MemoryGraph
unfolding update_node record_reference
graph_record_reference sdr_id =
    update_node sdr_id (λ d. record d { access_stats = record_reference d.access_stats })

-- The parts refScore*0.40, accessScore*0.20 and relationScore*0.15.
abbrev pub counted_score : DecisionNode → ℕ
counted_score d =
    min 100 (d.access_stats.reference_count * 20) * (40 * hot_point) / 100
    + min 100 (d.access_stats.access_count * 15) * (20 * hot_point) / 100
    + min 100 (length d.relations * 25) * (15 * hot_point) / 100

-- The base 25 - 1.5 a day may pass below 0; it is added before the lower clamp.
unfoldable pub graph_hot_score : ℕ → DecisionNode → ℕ
graph_hot_score now d =
    min (100 * hot_point) (counted_score d + 25 * hot_point - 4 * (now - d.created_at))

unfoldable pub recalculate_hot_score : ℕ → String → MemoryGraph → Result (Unit {0}) × MemoryGraph
unfolding update_node graph_hot_score
recalculate_hot_score now sdr_id = update_node sdr_id (λ d. record d {
  access_stats = record d.access_stats {
    hot_score = graph_hot_score now d;
    last_calculated = some now;
  };
})

unfoldable pub get_dirty_and_clean : MemoryGraph → List DecisionNode × MemoryGraph
unfolding found_nodes
get_dirty_and_clean mg = (
  found_nodes mg.decisions (map (λ e. e.0) mg.dirty_decisions),
  record mg { dirty_decisions = [] },
)

-- The sort of the two rankings: `for i` and `for j > i`, swap when `less(r[i], r[j])`.
module _ {A : Type 0} (less : A → A → Bool) where
  -- The inner loop: what stands at `i` afterwards, and the items behind it in their places.
  unfoldable pub bubble : A → List A → A × List A
  bubble x [] = (x, [])
  bubble x (y ∷ ys) =
      let (top, rest) = bubble (if less x y then y else x) ys in
      (top, (if less x y then x else y) ∷ rest)

  -- The outer loop, with the rounds that are left.
  unfoldable pub exchange_rounds : ℕ → List A → List A
  unfolding bubble
  exchange_rounds zero xs = xs
  exchange_rounds (suc n) [] = []
  exchange_rounds (suc n) (x ∷ xs) = let (top, rest) = bubble x xs in top ∷ exchange_rounds n rest

  unfoldable pub exchange_sort : List A → List A
  unfolding exchange_rounds
  exchange_sort xs = exchange_rounds (length xs) xs

abbrev pub hotter : DecisionNode → DecisionNode → Bool
hotter a b = ltb a.access_stats.hot_score b.access_stats.hot_score

unfoldable pub get_decisions_by_hot_score : ℕ → MemoryGraph → List DecisionNode
unfolding exchange_sort get_all_decisions is_active
get_decisions_by_hot_score min_score mg =
    exchange_sort hotter
      (keep (λ d. is_active d && leb min_score d.access_stats.hot_score) (get_all_decisions mg))

abbrev pub newer : DecisionNode → DecisionNode → Bool
newer a b = ltb a.created_at b.created_at

unfoldable pub get_recent_decisions : ℕ → MemoryGraph → List DecisionNode
unfolding exchange_sort get_all_decisions is_active
get_recent_decisions since mg =
    exchange_sort newer (keep (λ d. is_active d && ltb since d.created_at) (get_all_decisions mg))
