-- ===== src/Signal/Detector/Bounds.antt =====
-- What the scores of the detector can be (internal/signal/detector.go).
use feishu_agent_mem.Prelude.{
  ℕ, ◌+◌, ◌≤◌, arith, String, List, [], ◌∷◌, Option, some, none, Bool, true, false, ltb, All,
  All-append, if◌then◌else◌,
}
use feishu_agent_mem.Signal.Detector.Details.{
  Texts, SignalDetail, detail, with_first, when, max_weight, calculate_category_score,
}
use feishu_agent_mem.Signal.Detector.Structural.{DetectContext, analyze_structural, analyze_dynamic}

abbrev pub IsLight : ℕ → SignalDetail → Type 0
IsLight w s = s.weight ≤ w

max_weight-le :
    (w start : ℕ) (signals : List SignalDetail)
    → start ≤ w
    → All (IsLight w) signals
    → max_weight start signals ≤ w
unfolding max_weight
max_weight-le w start [] s h = s
max_weight-le w start (x ∷ signals) s h =
    max_weight-le w (if ltb start x.weight then x.weight else start) signals
      (ground (arith, s, h.0)) h.1

pub category_score-le-100 : (signals : List SignalDetail) → calculate_category_score signals ≤ 100
unfolding calculate_category_score
category_score-le-100 signals = ground arith

-- A category counts for its heaviest signal and a tenth.
pub category_score-le :
    (w : ℕ) (signals : List SignalDetail)
    → All (IsLight w) signals
    → calculate_category_score signals ≤ w + 10
unfolding calculate_category_score
category_score-le w signals h = ground (arith, max_weight-le w 0 signals (omega arith) h)

module _ (w : ℕ) where
  All-when : (test : Bool) (s : SignalDetail) → s.weight ≤ w → All (IsLight w) (when test s)
  unfolding when
  All-when true s h = (h, tt)
  All-when false s h = tt

  All-with_first :
      (matched : List String) (category name : String) (v : ℕ)
      → v ≤ w
      → All (IsLight w) (with_first matched (detail category name v))
  unfolding with_first
  All-with_first [] category name v h = tt
  All-with_first (m ∷ matched) category name v h = (h, tt)

module _ (T : Texts) where
  pub structural-IsLight : (content : String) → All (IsLight 45) (analyze_structural T content)
  unfolding analyze_structural
  structural-IsLight content =
      let join = All-append (IsLight 45) in
      join _ _
        (join _ _
          (join _ _
            (join _ _ (All-with_first 45 _ _ _ 40 (omega arith))
              (All-with_first 45 _ _ _ 35 (omega arith)))
            (All-when 45 _ (detail "structural" "quoted_content" 20 "quotes_found") (omega arith)))
          (All-when 45 _ (detail "structural" "technical_detail" 35 "long_tech_message")
            (omega arith)))
        (All-with_first 45 _ _ _ 45 (omega arith))

  pub dynamic-IsLight :
      (content : String) (ctx : Option DetectContext)
      → All (IsLight 40) (analyze_dynamic T content ctx)
  unfolding analyze_dynamic
  dynamic-IsLight content none = tt
  dynamic-IsLight content (some ctx) =
      let join = All-append (IsLight 40) in
      join _ _
        (join _ _
          (join _ _
            (All-when 40 _ (detail "dynamic" "reply_to_discussion" 35 "is_reply") (omega arith))
            (All-when 40 _ (detail "dynamic" "directed_message" 40 "has_mention") (omega arith)))
          (All-when 40 _ (detail "dynamic" "multi_round_discussion" 25 "message_index")
            (omega arith)))
        (All-when 40 _ (detail "dynamic" "topic_continuation" 30 "topic_overlap") (omega arith))
