-- ===== src/Signal/Detector/Details.antt =====
-- The texts, the findings and the numbers that the analysers share (internal/signal/detector.go).
-- Weights and the scores of a category are hundredths, exact where Go has float64.
use feishu_agent_mem.Prelude.{
  ℕ, ◌+◌, String, List, [], ◌∷◌, Option, codes, contains, Bool, ltb, leb, length, if◌then◌else◌,
}

-- Lower case, and the first match of a regular expression (Go's regexp package).
pub record Texts : Type 0 where
  pub to_lower : String → String
  pub find : String → String → Option String

pub record SignalDetail : Type 0 where
  pub category : String
  pub name : String
  pub weight : ℕ
  pub matched : String

abbrev pub detail : String → String → ℕ → String → SignalDetail
detail category name weight matched = record {
  category = category;
  name = name;
  weight = weight;
  matched = matched;
}

-- if matched := …; len(matched) > 0 { signals = append(signals, …matched[0]…) }
unfoldable pub with_first : {A : Type 0} → List String → (String → A) → List A
with_first [] f = []
with_first (m ∷ matched) f = f m ∷ []

unfoldable pub when : {A : Type 0} → Bool → A → List A
when test a = if test then a ∷ [] else []

module _ (T : Texts) where
  abbrev pub has : String → String → Bool
  has s kw = contains (codes (T.to_lower s)) (codes (T.to_lower kw))

  unfoldable pub contains_any : String → List String → List String
  unfolding contains
  contains_any s [] = []
  contains_any s (kw ∷ keywords) =
      let rest = contains_any s keywords in if has s kw then kw ∷ rest else rest

-- The largest weight, or the start.
unfoldable pub max_weight : ℕ → List SignalDetail → ℕ
max_weight w [] = w
max_weight w (s ∷ signals) = max_weight (if ltb w s.weight then s.weight else w) signals

unfoldable pub calculate_category_score : List SignalDetail → ℕ
unfolding max_weight
calculate_category_score signals =
    let best = max_weight 0 signals in
    let w = if leb 3 (length signals) then best + 10 else best in if ltb 100 w then 100 else w
