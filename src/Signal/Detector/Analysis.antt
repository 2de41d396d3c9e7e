-- ===== src/Signal/Detector/Analysis.antt =====
-- The analysis of a message and of a document (internal/signal/detector.go). Scores are exact: the
-- total is a number of parts, of which `one_score` make 1.0.
use feishu_agent_mem.Prelude.{
  ℕ, ◌+◌, ◌-◌, ◌*◌, String, List, [], ◌++◌, Option, none, some, Bool, true, false, ◌&&◌, ◌||◌, ltb,
  leb, trim_space, is_empty, if◌then◌else◌,
}
use feishu_agent_mem.Signal.Detector.Details.{Texts, SignalDetail, calculate_category_score}
use feishu_agent_mem.Signal.Detector.Lexical.{analyze_lexical}
use feishu_agent_mem.Signal.Detector.Structural.{DetectContext, analyze_structural, analyze_dynamic}
use feishu_agent_mem.Signal.Detector.Patterns.{DecisionPattern, compile_patterns, analyze_patterns}
use feishu_agent_mem.Signal.Detector.AntiSignals.{detect_anti_signals, calculate_anti_score}
use feishu_agent_mem.Signal.Detector.Documents.{
  DocType, weekly_report, administrative, detect_doc_anti_signals,
}

pub data DecisionLevel : Type 0 where
  high medium low no_level : DecisionLevel

-- The parts of a score of 1.0: 100 * 100 * 2 * 200 * 5.
abbrev pub one_score : ℕ
one_score = 20000000

-- A score given in hundredths.
abbrev pub hundredths : ℕ → ℕ
hundredths n = n * 200000

-- The categories and the anti score in hundredths, the total in parts.
pub record ScoreBreakdown : Type 0 where
  pub lexical : ℕ
  pub structural : ℕ
  pub dynamic : ℕ
  pub pattern : ℕ
  pub anti_score : ℕ
  pub final : ℕ

pub record DetectionResult : Type 0 where
  pub score : ℕ
  pub level : DecisionLevel
  pub is_decision : Bool
  pub signal_details : List SignalDetail
  pub anti_signals : List String
  pub factors : Option ScoreBreakdown

abbrev pub clamp_score : ℕ → ℕ
clamp_score n = if ltb one_score n then one_score else n

-- Twice the weighted sum, in ten-thousandths; a strong pattern counts for half of it.
unfoldable pub weighted_sum : ℕ → ℕ → ℕ → ℕ → ℕ
weighted_sum lexical structural dynamic pattern =
    let sum = 45 * lexical + 15 * structural + 5 * dynamic + 35 * pattern in
    if leb 70 pattern && ltb sum (100 * pattern) then sum + 100 * pattern else 2 * sum

-- final *= 1.0 - anti*0.5
unfoldable pub compute_final_score : ℕ → ℕ → ℕ → ℕ → ℕ → ℕ
compute_final_score lexical structural dynamic pattern anti =
    clamp_score (weighted_sum lexical structural dynamic pattern * (200 - anti) * 5)

unfoldable pub classify_level : ℕ → DecisionLevel
classify_level score =
    if leb (hundredths 65) score
    then high
    else if leb (hundredths 50) score
    then medium
    else if leb (hundredths 20) score
    then low
    else no_level

unfoldable pub is_decision_level : DecisionLevel → Bool
is_decision_level high = true
is_decision_level medium = true
is_decision_level _ = false

abbrev pub blank_result : DetectionResult
blank_result = record {
  score = 0;
  level = no_level;
  is_decision = false;
  signal_details = [];
  anti_signals = [];
  factors = none;
}

-- The return behind the first phase.
unfoldable pub rejected_result : List String → ℕ → DetectionResult
rejected_result anti_signals anti = record blank_result {
  anti_signals = anti_signals;
  factors = some (record {
    lexical = 0;
    structural = 0;
    dynamic = 0;
    pattern = 0;
    anti_score = anti;
    final = 0;
  });
}

unfoldable pub scored_result :
    DecisionLevel → List SignalDetail → List String → ScoreBreakdown → DetectionResult
unfolding is_decision_level
scored_result level details anti_signals factors = record {
  score = factors.final;
  level = level;
  is_decision = is_decision_level level;
  signal_details = details;
  anti_signals = anti_signals;
  factors = some factors;
}

-- 0.40, 0.20 and 0.35, and final *= 1.0 - anti*0.2
unfoldable pub document_score : ℕ → ℕ → ℕ → ℕ → ℕ
document_score lexical structural pattern anti =
    clamp_score ((40 * lexical + 20 * structural + 35 * pattern) * (500 - anti) * 4)

-- The lower thresholds of a document.
unfoldable pub classify_document : ℕ → DecisionLevel
classify_document score =
    if leb (hundredths 45) score
    then high
    else if leb (hundredths 30) score
    then medium
    else if leb (hundredths 15) score
    then low
    else no_level

unfoldable pub is_skipped_type : DocType → Bool
is_skipped_type weekly_report = true
is_skipped_type administrative = true
is_skipped_type _ = false

module _ (T : Texts) where
  unfoldable pub analyze : String → Option DetectContext → DetectionResult
  unfolding rejected_result scored_result
  analyze content ctx =
      let anti_signals = detect_anti_signals T content in
      let anti = calculate_anti_score anti_signals in
      let lex = analyze_lexical T content in
      let struct = analyze_structural T content in
      let dyn = analyze_dynamic T content ctx in
      let pat = analyze_patterns T compile_patterns content in
      let lexical = calculate_category_score lex in
      let structural = calculate_category_score struct in
      let dynamic = calculate_category_score dyn in
      let pattern = calculate_category_score pat in
      let final = compute_final_score lexical structural dynamic pattern anti in
      if is_empty (trim_space content)
      then blank_result
      else if leb 60 anti
      then rejected_result anti_signals anti
      else scored_result (classify_level final) (lex ++ struct ++ dyn ++ pat) anti_signals (record {
        lexical = lexical;
        structural = structural;
        dynamic = dynamic;
        pattern = pattern;
        anti_score = anti;
        final = final;
      })

  -- `patterns` are those of the detector: its `docPattern`, or `pattern` where that is nil.
  unfoldable pub analyze_document :
      List DecisionPattern → String → String → DocType → DetectionResult
  unfolding rejected_result scored_result
  analyze_document patterns content title type =
      let anti_signals = detect_doc_anti_signals T title content type in
      let anti = calculate_anti_score anti_signals in
      let lex = analyze_lexical T content in
      let struct = analyze_structural T content in
      let pat = analyze_patterns T patterns content in
      let lexical = calculate_category_score lex in
      let structural = calculate_category_score struct in
      let pattern = calculate_category_score pat in
      let final = document_score lexical structural pattern anti in
      if is_empty (trim_space content)
      then blank_result
      else if leb 60 anti || is_skipped_type type
      then rejected_result anti_signals anti
      else scored_result (classify_document final) (lex ++ struct ++ pat) anti_signals (record {
        lexical = lexical;
        structural = structural;
        dynamic = 0;
        pattern = pattern;
        anti_score = anti;
        final = final;
      })
