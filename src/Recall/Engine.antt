-- ===== src/Recall/Engine.antt =====
-- The recall engine (internal/recall/recall_engine.go), over the reads of the memory graph. One clock
-- reading serves a whole call. `strings.ToLower` is the parameter `lower`, from its table of letters.
-- A card holds the node that `Calculate` has written the score into; the same write through the
-- pointer that the graph holds changes no read here, for each score is calculated afresh.
use feishu_agent_mem.Prelude.{
  ℕ, ◌-◌, ◌*◌, String, str_eq, List, [], ◌∷◌, ◌++◌, some, none, Bool, ◌||◌, any, keep, map, known,
  length, take, leb, ltb, codes, strip_prefix, if◌then◌else◌,
}
use feishu_agent_mem.Decision.Types.{DecisionNode, Relation}
use feishu_agent_mem.Decision.Node.{is_active, hot_point}
use feishu_agent_mem.Graph.State.{MemoryGraph}
use feishu_agent_mem.Graph.Queries.{get_all_decisions, get_decision, index_of, found_nodes}
use feishu_agent_mem.Graph.Access.{exchange_sort}
use feishu_agent_mem.Recall.HotScore.{calculate}

pub data RecallType : Type 0 where
  exact fuzzy forgotten related : RecallType

pub record DecisionCard : Type 0 where
  pub decision : DecisionNode
  pub hot_score : ℕ
  pub recall_type : RecallType

unfoldable pub wrap_card : ℕ → RecallType → DecisionNode → DecisionCard
unfolding calculate
wrap_card now recall_type node =
    let (score, scored) = calculate now node in
    record { decision = scored; hot_score = score; recall_type = recall_type }

unfoldable pub sort_by_hot_score : List DecisionCard → List DecisionCard
unfolding exchange_sort
sort_by_hot_score = exchange_sort (λ a b. ltb a.hot_score b.hot_score)

-- if strings.HasPrefix(query, "SDR-") { if node, ok := GetDecision(query); ok { … } }
unfoldable pub exact_cards : ℕ → String → MemoryGraph → List DecisionCard
unfolding strip_prefix get_decision wrap_card
exact_cards now query mg =
    if known (strip_prefix "SDR-" query)
    then (elim (get_decision query mg) [ none ↦ [] | some node ↦ wrap_card now exact node ∷ [] ])
    else []

unfoldable pub get_hot_decisions : ℕ → ℕ → ℕ → MemoryGraph → List DecisionCard
unfolding wrap_card sort_by_hot_score get_all_decisions is_active
get_hot_decisions now min_score limit mg =
    let floor = if leb min_score 0 then 50 * hot_point else min_score in
    let results = sort_by_hot_score (
      keep (λ (c : DecisionCard). leb floor c.hot_score)
        (map (wrap_card now exact) (keep is_active (get_all_decisions mg)))) in
    take limit results

unfoldable pub get_forgotten_decisions : ℕ → ℕ → MemoryGraph → List DecisionCard
unfolding wrap_card sort_by_hot_score get_all_decisions is_active
get_forgotten_decisions now threshold mg =
    let ceiling = if leb threshold 0 then 20 * hot_point else threshold in
    sort_by_hot_score (
      keep (λ (c : DecisionCard). ltb c.hot_score ceiling)
        (map (wrap_card now forgotten) (keep is_active (get_all_decisions mg))))

unfoldable pub recall_related_decisions : ℕ → String → MemoryGraph → List DecisionCard
unfolding wrap_card get_decision found_nodes
recall_related_decisions now sdr_id mg = elim (get_decision sdr_id mg) [
  | none ↦ []
  | some node ↦
      map (wrap_card now related)
        (found_nodes mg.decisions (map (λ (r : Relation). r.target_sdr_id) node.relations))
]

unfoldable pub recall_recent_decisions : ℕ → ℕ → MemoryGraph → List DecisionCard
unfolding wrap_card exchange_sort get_all_decisions
recall_recent_decisions now since mg =
    exchange_sort (λ (a b : DecisionCard). ltb a.decision.created_at b.decision.created_at)
      (map (wrap_card now exact) (keep (λ d. ltb since d.created_at) (get_all_decisions mg)))

-- The removal of cards whose decision came before, with the ids that were seen.
unfoldable pub unique_cards : List String → List DecisionCard → List DecisionCard
unique_cards seen [] = []
unique_cards seen (card ∷ cards) =
    let known_before = unique_cards seen cards in
    let fresh = unique_cards (card.decision.sdr_id ∷ seen) cards in
    if any (λ s. str_eq s card.decision.sdr_id) seen then known_before else card ∷ fresh

module _ (lower : List ℕ → List ℕ) where
  -- strings.Contains(strings.ToLower(text), strings.ToLower(query))
  abbrev pub mentions : String → String → Bool
  mentions text query = known (index_of (lower (codes text)) (lower (codes query)))

  abbrev pub matches : String → DecisionNode → Bool
  matches query node =
      mentions node.title query || mentions node.decision query || mentions node.rationale query

  -- The loop of `searchByKeyword`, with the cards so far; the limit is tested after each node.
  unfoldable pub keyword_cards :
      ℕ → String → ℕ → List DecisionNode → List DecisionCard → List DecisionCard
  unfolding wrap_card index_of
  keyword_cards now query limit [] results = results
  keyword_cards now query limit (node ∷ nodes) results =
      let found =
        if matches query node then results ++ wrap_card now fuzzy node ∷ [] else results in
      let rest = keyword_cards now query limit nodes found in
      if leb limit (length found) then found else rest

  unfoldable pub search_by_keyword : ℕ → String → ℕ → MemoryGraph → List DecisionCard
  unfolding keyword_cards sort_by_hot_score get_all_decisions
  search_by_keyword now query limit mg =
      sort_by_hot_score (keyword_cards now query limit (get_all_decisions mg) [])

  -- The limit is not negative.
  unfoldable pub search_recall : ℕ → String → ℕ → MemoryGraph → List DecisionCard
  unfolding exact_cards search_by_keyword get_hot_decisions unique_cards
  search_recall now query limit mg =
      let first = exact_cards now query mg in
      let results = first ++ search_by_keyword now query (limit - length first) mg in
      if leb limit (length results)
      then take limit results
      else unique_cards [] (results ++ get_hot_decisions now 0 (limit - length results) mg)
