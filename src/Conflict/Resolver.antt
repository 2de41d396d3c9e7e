-- ===== src/Conflict/Resolver.antt =====
-- The conflict resolver (internal/core/conflict_resolver.go). The contradiction score is a float64
-- that a language model answers; the resolver only compares it, so the floats are a parameter: the
-- order `<` and the constants of the source. The client may be nil, may answer with an error, and may
-- answer each call differently.
use feishu_agent_mem.Prelude.{
  ℕ, suc, String, str_append, str_eq, List, [], ◌∷◌, ◌++◌, Option, some, none, Bool, true, false,
  Result, ok, err, ltb, ◌==◌, if◌then◌else◌, ◌≡◌,
}
use feishu_agent_mem.Decision.Types.{
  ImpactLevel, advisory, minor, major, critical, RelationType, DecisionNode,
}
use feishu_agent_mem.Signal.Texts.{impact_text}

-- What the resolver uses of float64, and that `<` has no two numbers below one another.
pub record Float64 : Type 1 where
  pub F : Type 0
  pub lt : F → F → Bool
  pub zero_score : F
  pub low : F
  pub high : F
  pub lt_asymm : (a b : F) → lt a b ≡ true → lt b a ≡ false
  pub zero-lt-low : lt zero_score low ≡ true

pub data Action : Type 0 where
  no_conflict relates supersedes conflict blocked : Action

pub record ResolveResult : Type 0 where
  pub action : Action
  pub old_sdr_id : String
  pub new_sdr_id : String
  pub reason : String
  pub needs_user : Bool

unfoldable pub impact_level_weight : ImpactLevel → ℕ
impact_level_weight critical = 4
impact_level_weight major = 3
impact_level_weight minor = 2
impact_level_weight advisory = 1
impact_level_weight (ImpactLevel.other s) = 0

abbrev plain : Action → String → ResolveResult
plain action reason = record {
  action = action;
  old_sdr_id = "";
  new_sdr_id = "";
  reason = reason;
  needs_user = false;
}

unfoldable pub add_relation_to_decision :
    DecisionNode → RelationType → String → String → DecisionNode
add_relation_to_decision node type target desc = record node {
  relations =
      node.relations ++ record { type = type; target_sdr_id = target; description = desc } ∷ [];
}

module _ (fl : Float64) where
  open fl use {F, lt, zero_score, low, high}

  -- `EvaluateContradiction` of the client, if there is one, in one call.
  abbrev pub Client : Type 0
  Client = Option (DecisionNode → DecisionNode → Result F)

  -- The score that both functions work with: 0 without a client or on its error.
  unfoldable pub score_of : Client → DecisionNode → DecisionNode → F
  score_of none new old = zero_score
  score_of (some evaluate) new old = elim (evaluate new old) [ ok s ↦ s | err e ↦ zero_score ]

  unfoldable pub resolve : Client → DecisionNode → DecisionNode → ResolveResult
  unfolding score_of impact_level_weight impact_text
  resolve client new_decision existing =
      let new_weight = impact_level_weight new_decision.impact_level in
      let old_weight = impact_level_weight existing.impact_level in
      let score = score_of client new_decision existing in
      if lt score low
      then plain no_conflict "No contradiction detected"
      else if lt score high
      then plain relates "Related but not contradictory"
      else if ltb old_weight new_weight
      then record {
        action = supersedes;
        old_sdr_id = existing.sdr_id;
        new_sdr_id = new_decision.sdr_id;
        reason = str_append "New decision (impact: " (
            str_append (impact_text new_decision.impact_level) (
              str_append ") supersedes old (impact: "
                (str_append (impact_text existing.impact_level) ")")));
        needs_user = false;
      }
      else if new_weight == old_weight
      then record {
        action = conflict;
        old_sdr_id = existing.sdr_id;
        new_sdr_id = new_decision.sdr_id;
        reason = "Same impact level, needs user decision";
        needs_user = true;
      }
      else plain blocked "Existing decision has higher priority"

  pub record Detected : Type 0 where
    pub conflict_id : String
    pub decision_a : String
    pub decision_b : String
    pub contradiction_score : F
    pub description : String

  -- `stamp` is the text of the Unix time that is read for the conflict with a decision, `clients` is
  -- what the client answers in each round of the loop, and `round` counts the rounds before.
  unfoldable pub detect_from :
      (ℕ → Client) → (DecisionNode → String) → DecisionNode → ℕ → List DecisionNode → List Detected
  unfolding score_of
  detect_from clients stamp new_node round [] = []
  detect_from clients stamp new_node round (existing ∷ rest) =
      let others = detect_from clients stamp new_node (suc round) rest in
      if str_eq existing.sdr_id new_node.sdr_id
      then others
      else if lt low (score_of (clients round) new_node existing)
      then record {
        conflict_id = str_append "conflict_" (
            str_append new_node.sdr_id
              (str_append "_" (str_append existing.sdr_id (str_append "_" (stamp existing)))));
        decision_a = new_node.sdr_id;
        decision_b = existing.sdr_id;
        contradiction_score = score_of (clients round) new_node existing;
        description = "Potential conflict detected";
      }
        ∷ others
      else others

  unfoldable pub detect_conflicts :
      (ℕ → Client) → (DecisionNode → String) → DecisionNode → List DecisionNode → List Detected
  unfolding detect_from
  detect_conflicts clients stamp new_node existing = detect_from clients stamp new_node 0 existing
