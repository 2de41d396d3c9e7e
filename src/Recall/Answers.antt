-- ===== src/Recall/Answers.antt =====
-- The answers of the recall engine (internal/recall/recall_engine.go).
use feishu_agent_mem.Prelude.{
  ℕ, zero, suc, ◌-◌, ◌*◌, ◌≤◌, ◌≡◌, ◌⊎◌, ◌∙◌, refl, arith, String, str_eq, eq_iff, List, [], ◌∷◌,
  ◌++◌, true, any, keep, map, All, count_if, length, length-append, take, length-take-le, leb,
  Bool-cases, inl, inr, if◌then◌else◌,
}
use feishu_agent_mem.Decision.Types.{DecisionNode}
use feishu_agent_mem.Decision.Node.{is_active, hot_point}
use feishu_agent_mem.Graph.State.{MemoryGraph}
use feishu_agent_mem.Graph.Queries.{get_all_decisions}
use feishu_agent_mem.Graph.Ranking.{exchange_sort-All}
use feishu_agent_mem.Recall.HotScore.{calculate, hot_score_of}
use feishu_agent_mem.Recall.Engine.{
  DecisionCard, exact, wrap_card, sort_by_hot_score, exact_cards, get_hot_decisions, unique_cards,
  search_by_keyword, search_recall,
}

-- How many of the cards are of the decision.
abbrev pub cards_of : String → List DecisionCard → ℕ
cards_of sdr_id = count_if (λ c. str_eq c.decision.sdr_id sdr_id)

length-unique_cards :
    (seen : List String) (cards : List DecisionCard)
    → length (unique_cards seen cards) ≤ length cards
unfolding unique_cards
length-unique_cards seen [] = omega arith
length-unique_cards seen (card ∷ cards) =
    ground (
      arith,
      length-unique_cards seen cards,
      length-unique_cards (card.decision.sdr_id ∷ seen) cards,
    )

length-get_hot_decisions :
    (now min_score limit : ℕ) (mg : MemoryGraph)
    → length (get_hot_decisions now min_score limit mg) ≤ limit
unfolding get_hot_decisions
length-get_hot_decisions now min_score limit mg = length-take-le limit _

-- A card of a seen decision is dropped, and any other stays at most once.
cards_of-unique_cards :
    (sdr_id : String) (seen : List String) (cards : List DecisionCard)
    → cards_of sdr_id (unique_cards seen cards) ≤ (if any (λ s. str_eq s sdr_id) seen then 0 else 1)
unfolding unique_cards
cards_of-unique_cards sdr_id seen [] = ground arith
cards_of-unique_cards sdr_id seen (card ∷ cards) = ground (
  arith,
  cards_of-unique_cards sdr_id seen cards,
  eq_iff card.decision.sdr_id sdr_id,
  cards_of-unique_cards sdr_id (card.decision.sdr_id ∷ seen) cards,
)

length-take-full :
    (n : ℕ) (cards : List DecisionCard) → n ≤ length cards → n ≤ length (take n cards)
length-take-full zero cards h = omega arith
length-take-full (suc n) [] h = absurd (omega (arith, h))
length-take-full (suc n) (c ∷ cards) h = omega (arith, length-take-full n cards (omega (arith, h)))

-- A search answers with at most as many cards as asked for; and where it answers with fewer, no
-- decision has two of them.
pub search_recall_bounds :
    (lower : List ℕ → List ℕ) (now : ℕ) (query : String) (limit : ℕ) (mg : MemoryGraph)
    → let cards = search_recall lower now query limit mg in
      (length cards ≤ limit)
      × ((sdr_id : String) → (limit ≤ length cards) ⊎ (cards_of sdr_id cards ≤ 1))
unfolding search_recall
search_recall_bounds lower now query limit mg =
    let first = exact_cards now query mg in
    let results = first ++ search_by_keyword lower now query (limit - length first) mg in
    let hot = get_hot_decisions now 0 (limit - length results) mg in
    let filled = results ++ hot in
    elim (Bool-cases (leb limit (length results))) [
      | inl full ↦ rw full (
        length-take-le limit results,
        λ sdr_id. inl (length-take-full limit results (ground (arith, full))),
      )
      | inr less ↦
          let few : length results ≤ limit = ground (arith, less) in
          rw less (
            omega (
              arith,
              length-unique_cards [] filled,
              length-append results hot,
              few,
              length-get_hot_decisions now 0 (limit - length results) mg,
            ),
            λ sdr_id. inr (ground (arith, cards_of-unique_cards sdr_id [] filled)),
          )
    ]

module _ {A : Type 0} (P : A → Type 0) where
  All-take : (n : ℕ) (xs : List A) → All P xs → All P (take n xs)
  All-take zero xs h = tt
  All-take (suc n) [] h = tt
  All-take (suc n) (x ∷ xs) h = (h.0, All-take n xs h.1)

-- A hot card: of an active decision, at least as hot as asked, with the calculator's score.
pub record IsHot (now floor : ℕ) (card : DecisionCard) : Type 0 where
  pub active : is_active card.decision ≡ true
  pub hot : floor ≤ card.hot_score
  pub recorded : card.decision.access_stats.hot_score ≡ card.hot_score
  pub score : (calculate now card.decision).0 ≡ card.hot_score

abbrev at_floor : ℕ → List DecisionCard → List DecisionCard
at_floor floor = keep (λ c. leb floor c.hot_score)

keep-IsHot :
    (now floor : ℕ) (card : DecisionCard) (cards : List DecisionCard)
    → is_active card.decision ≡ true
    → card.decision.access_stats.hot_score ≡ card.hot_score
    → (calculate now card.decision).0 ≡ card.hot_score
    → All (IsHot now floor) (at_floor floor cards)
    → All (IsHot now floor) (at_floor floor (card ∷ cards))
keep-IsHot now floor card cards a r s h = elim (Bool-cases (leb floor card.hot_score)) [
  | inl hot ↦ rw hot (record { active = a; hot = ground (arith, hot); recorded = r; score = s }, h)
  | inr cold ↦ rw cold h
]

wrap_card-fields :
    (now : ℕ) (node : DecisionNode)
    → (is_active (wrap_card now exact node).decision ≡ is_active node)
      × ((wrap_card now exact node).decision.access_stats.hot_score
          ≡ (wrap_card now exact node).hot_score)
      × ((calculate now (wrap_card now exact node).decision).0
          ≡ (wrap_card now exact node).hot_score)
unfolding wrap_card calculate hot_score_of is_active
wrap_card-fields now node = (refl, refl, refl)

wrapped-IsHot :
    (now floor : ℕ) (nodes : List DecisionNode)
    → All (IsHot now floor) (at_floor floor (map (wrap_card now exact) (keep is_active nodes)))
wrapped-IsHot now floor [] = tt
wrapped-IsHot now floor (node ∷ nodes) = elim (Bool-cases (is_active node)) [
  | inl on ↦
      let fields = wrap_card-fields now node in
      rw on (
        keep-IsHot now floor (wrap_card now exact node)
          (map (wrap_card now exact) (keep is_active nodes)) (fields.0 ∙ on) fields.1 fields.2
          (wrapped-IsHot now floor nodes))
  | inr off ↦ rw off (wrapped-IsHot now floor nodes)
]

-- The hot decisions are at most as many as asked for, all active, each with the calculator's score of
-- it, written into it, which is at the floor or above: 50 points, where none is given.
get_hot_decisions_lem :
    (now min_score limit : ℕ) (mg : MemoryGraph)
    → let cards = get_hot_decisions now min_score limit mg in
      let floor = if leb min_score 0 then 50 * hot_point else min_score in
      (length cards ≤ limit) × All (IsHot now floor) cards
unfolding get_hot_decisions sort_by_hot_score
get_hot_decisions_lem now min_score limit mg =
    let floor = if leb min_score 0 then 50 * hot_point else min_score in
    (
      length-take-le limit _,
      All-take (IsHot now floor) limit _ (
          exchange_sort-All _ (IsHot now floor) _ (wrapped-IsHot now floor (get_all_decisions mg))),
    )
