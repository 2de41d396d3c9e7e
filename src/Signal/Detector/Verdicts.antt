-- ===== src/Signal/Detector/Verdicts.antt =====
-- When the detector takes a text for a decision (internal/signal/detector.go).
use native.Mathlib.Nat.{mul-le-mul_left, mul-le-mul_right}
use feishu_agent_mem.Prelude.{
  ℕ, ◌+◌, ◌-◌, ◌*◌, ◌≤◌, ◌<◌, ◌≡◌, ◌≢◌, refl, arith, String, List, [], Option, false, ◌&&◌, ◌||◌,
  Bool-cases, inl, inr, leb, trim_space, is_empty,
}
use feishu_agent_mem.Signal.Detector.Details.{Texts, SignalDetail, calculate_category_score}
use feishu_agent_mem.Signal.Detector.Structural.{DetectContext, analyze_structural, analyze_dynamic}
use feishu_agent_mem.Signal.Detector.Patterns.{DecisionPattern, compile_patterns, analyze_patterns}
use feishu_agent_mem.Signal.Detector.Lexical.{analyze_lexical}
use feishu_agent_mem.Signal.Detector.AntiSignals.{detect_anti_signals, calculate_anti_score}
use feishu_agent_mem.Signal.Detector.Documents.{DocType, detect_doc_anti_signals}
use feishu_agent_mem.Signal.Detector.Analysis.{
  high, one_score, hundredths, weighted_sum, compute_final_score, classify_level, is_decision_level,
  analyze, classify_document, is_skipped_type, analyze_document,
}
use feishu_agent_mem.Signal.Detector.Bounds.{
  category_score-le-100, category_score-le, structural-IsLight, dynamic-IsLight,
}

-- The total is at most the weighted sum, in parts.
compute_final_score-le :
    (l s d p a bound : ℕ)
    → weighted_sum l s d p ≤ bound
    → compute_final_score l s d p a ≤ bound * 1000
unfolding compute_final_score
compute_final_score-le l s d p a bound h =
    let taken : 200 - a ≤ 200 = omega arith in
    ground (arith, mul-le-mul_right (200 - a) h, mul-le-mul_left bound taken)

compute_final_score-le-one : (l s d p a : ℕ) → compute_final_score l s d p a ≤ one_score
unfolding compute_final_score
compute_final_score-le-one l s d p a = ground arith

weighted_sum_plain : (l s d : ℕ) → weighted_sum l s d 0 ≡ 2 * (45 * l + 15 * s + 5 * d)
unfolding weighted_sum
weighted_sum_plain l s d = ground arith

is_decision_level-classify_level :
    (score : ℕ) → is_decision_level (classify_level score) ≡ leb (hundredths 50) score
unfolding classify_level is_decision_level
is_decision_level-classify_level score = ground arith

classify_level-high : (score : ℕ) → score < hundredths 65 → classify_level score ≢ high
unfolding classify_level
classify_level-high score h = ground (arith, h)

module _ (T : Texts) (content : String) (ctx : Option DetectContext) where
  -- A message is taken for a decision exactly when its score is 0.5 or more, and no score is above 1,
  -- on every branch: empty, turned down by its anti signals, or scored.
  pub analyze_lem :
      ((analyze T content ctx).is_decision ≡ leb (hundredths 50) (analyze T content ctx).score)
      × ((analyze T content ctx).score ≤ one_score)
  unfolding analyze
  analyze_lem =
      let anti = calculate_anti_score (detect_anti_signals T content) in
      elim (Bool-cases (is_empty (trim_space content))) [
        | inl blank ↦ rw (blank) (refl, omega arith)
        | inr text ↦ elim (Bool-cases (leb 60 anti)) [
          | inl strong ↦ rw (text, strong) (refl, omega arith)
          | inr weak ↦
              rw (text, weak)
                (is_decision_level-classify_level _, compute_final_score-le-one _ _ _ _ anti)
        ]
      ]

  -- The factors of a message that is scored.
  abbrev factor : List SignalDetail → ℕ
  factor details = calculate_category_score details

  analyze-score-le :
      (bound : ℕ)
      → weighted_sum
          (factor (analyze_lexical T content))
          (factor (analyze_structural T content))
          (factor (analyze_dynamic T content ctx))
          (factor (analyze_patterns T compile_patterns content))
        ≤ bound
      → (analyze T content ctx).score ≤ bound * 1000
  unfolding analyze
  analyze-score-le bound h =
      let anti = calculate_anti_score (detect_anti_signals T content) in
      elim (Bool-cases (is_empty (trim_space content))) [
        | inl blank ↦ rw (blank) (omega arith)
        | inr text ↦ elim (Bool-cases (leb 60 anti)) [
          | inl strong ↦ rw (text, strong) (omega arith)
          | inr weak ↦ rw (text, weak) (compute_final_score-le _ _ _ _ anti bound h)
        ]
      ]

  analyze-level :
      (analyze T content ctx).score < hundredths 65 → (analyze T content ctx).level ≢ high
  unfolding analyze
  analyze-level =
      let anti = calculate_anti_score (detect_anti_signals T content) in
      elim (Bool-cases (is_empty (trim_space content))) [
        | inl blank ↦ rw (blank) (λ _. ground arith)
        | inr text ↦ elim (Bool-cases (leb 60 anti)) [
          | inl strong ↦ rw (text, strong) (λ _. ground arith)
          | inr weak ↦ rw (text, weak) (classify_level-high _)
        ]
      ]

  module _ (no_pattern : analyze_patterns T compile_patterns content ≡ []) where
    -- A message that no decision pattern matches scores at most 0.5575, whatever else it says, and
    -- is never of the high level.
    analyze_without_pattern :
        ((analyze T content ctx).score ≤ 11150000) × ((analyze T content ctx).level ≢ high)
    unfolding calculate_category_score
    analyze_without_pattern =
        let l = factor (analyze_lexical T content) in
        let s = factor (analyze_structural T content) in
        let d = factor (analyze_dynamic T content ctx) in
        let bound : weighted_sum l s d 0 ≤ 11150 = omega (
          arith,
          weighted_sum_plain l s d,
          category_score-le-100 (analyze_lexical T content),
          category_score-le 45 (analyze_structural T content) (structural-IsLight T content),
          category_score-le 40 (analyze_dynamic T content ctx) (dynamic-IsLight T content ctx),
        ) in
        let score = analyze-score-le 11150 (rw (no_pattern) bound) in
        (omega (arith, score), analyze-level (omega (arith, score)))

    -- Keywords alone, be it the strongest, never make a message a decision.
    pub analyze_keywords_alone :
        analyze_structural T content ≡ []
        → analyze_dynamic T content ctx ≡ []
        → (analyze T content ctx).is_decision ≡ false
    unfolding calculate_category_score
    analyze_keywords_alone no_structure no_dynamics =
        let l = factor (analyze_lexical T content) in
        let bound : weighted_sum l 0 0 0 ≤ 9000 =
          omega
            (arith, weighted_sum_plain l 0 0, category_score-le-100 (analyze_lexical T content)) in
        let score = analyze-score-le 9000 (rw (no_pattern, no_structure, no_dynamics) bound) in
        ground (arith, analyze_lem.0, score)

-- The shape of the verdict on a document.
is_decision_level-classify_document :
    (score : ℕ) → is_decision_level (classify_document score) ≡ leb (hundredths 30) score
unfolding classify_document is_decision_level
is_decision_level-classify_document score = ground arith

module _ (T : Texts) (patterns : List DecisionPattern) (content title : String)
    (type : DocType) where
  -- A document is taken for a decision exactly when its score is 0.3 or more; a weekly report or a
  -- template never is.
  pub analyze_document_lem :
      ((analyze_document T patterns content title type).is_decision
        ≡ leb (hundredths 30) (analyze_document T patterns content title type).score)
      × (is_skipped_type type && (analyze_document T patterns content title type).is_decision
          ≡ false)
  unfolding analyze_document
  analyze_document_lem =
      let anti = calculate_anti_score (detect_doc_anti_signals T title content type) in
      elim (Bool-cases (is_empty (trim_space content))) [
        | inl blank ↦ rw (blank) (refl, ground arith)
        | inr text ↦ elim (Bool-cases (leb 60 anti || is_skipped_type type)) [
          | inl turned ↦ rw (text, turned) (refl, ground arith)
          | inr scored ↦
              rw (text, scored) (is_decision_level-classify_document _, ground (arith, scored))
        ]
      ]
