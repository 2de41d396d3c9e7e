-- ===== src/Signal/Extracts/Merge.antt =====
-- The grouping of extracted decisions and the merge of a group (internal/signal/engine.go). A key that Go
-- has as a struct of two texts is the pair.
use feishu_agent_mem.Prelude.{
  ℕ, String, str_append, str_eq, List, [], ◌∷◌, ◌++◌, map, Bool, not, ◌&&◌, ◌||◌, ltb, size,
  if◌then◌else◌, contains,
}
use feishu_agent_mem.Graph.State.{append_unique}
use feishu_agent_mem.Signal.Extracts.Filter.{DecisionExtract, has_text}

unfoldable pub impact_level_rank : String → ℕ
impact_level_rank level =
    if str_eq level "critical"
    then 4
    else if str_eq level "major"
    then 3
    else if str_eq level "minor"
    then 2
    else if str_eq level "advisory"
    then 1
    else 0

-- The first phase of the loop whose number the text names.
unfoldable pub named_phase : String → List String → String
unfolding contains
named_phase lower [] = lower
named_phase lower (i ∷ numbers) =
    let rest = named_phase lower numbers in
    if has_text lower (str_append "phase " i) || has_text lower (str_append "阶段" i)
    then str_append "phase_" i
    else rest

unfoldable pub normalize_phase : (String → String) → String → String
unfolding named_phase
normalize_phase to_lower phase =
    if str_eq phase ""
    then "_unknown"
    else named_phase (to_lower phase)
        ("1" ∷ "2" ∷ "3" ∷ "4" ∷ "5" ∷ "6" ∷ "7" ∷ "8" ∷ "9" ∷ "10" ∷ [])

module _ (to_lower : String → String) where
  abbrev pub group_key : DecisionExtract → String × String
  group_key dec = (normalize_phase to_lower dec.project_phase, dec.suggested_topic)

  abbrev pub same_key : String × String → String × String → Bool
  same_key a b = str_eq a.0 b.0 && str_eq a.1 b.1

  -- A decision into its group, behind the others of it; a new group goes behind the others.
  unfoldable pub into_group :
      DecisionExtract
      → List ((String × String) × List DecisionExtract)
      → List ((String × String) × List DecisionExtract)
  unfolding normalize_phase
  into_group dec [] = (group_key dec, dec ∷ []) ∷ []
  into_group dec ((key, group) ∷ groups) =
      let rest = into_group dec groups in
      if same_key key (group_key dec)
      then (key, group ++ dec ∷ []) ∷ groups
      else (key, group) ∷ rest

  unfoldable pub grouped :
      List DecisionExtract
      → List ((String × String) × List DecisionExtract)
      → List ((String × String) × List DecisionExtract)
  unfolding into_group
  grouped [] groups = groups
  grouped (dec ∷ decisions) groups = grouped decisions (into_group dec groups)

  unfoldable pub group_decisions_by_relation : List DecisionExtract → List (List DecisionExtract)
  unfolding grouped
  group_decisions_by_relation decisions = map (λ g. g.1) (grouped decisions [])

-- What the loop of `mergeDecisionGroup` collects.
pub record Merging : Type 0 where
  pub best_title : String
  pub best_decision : String
  pub best_rationale : String
  pub best_impact : String
  pub details : List String
  pub executors : List String
  pub deadlines : List String

abbrev pub text_list : String → List String
text_list s = if str_eq s "" then [] else s ∷ []

unfoldable pub start_merging : DecisionExtract → Merging
start_merging base = record {
  best_title = base.title;
  best_decision = base.decision;
  best_rationale = base.rationale;
  best_impact = base.impact_level;
  details = [];
  executors = text_list base.executor;
  deadlines = text_list base.deadline;
}

abbrev pub add_text : List String → String → List String
add_text items s = if str_eq s "" then items else append_unique items s

-- One round of the loop.
unfoldable pub merge_one : Merging → DecisionExtract → Merging
unfolding size contains impact_level_rank append_unique
merge_one m dec = record {
  best_title = if ltb (size m.best_title) (size dec.title) then dec.title else m.best_title;
  best_decision = m.best_decision;
  best_rationale =
      if not (str_eq dec.rationale "") && not (has_text m.best_rationale dec.rationale)
      then str_append (if str_eq m.best_rationale "" then "" else str_append m.best_rationale "; ")
          dec.rationale
      else m.best_rationale;
  best_impact =
      if ltb (impact_level_rank m.best_impact) (impact_level_rank dec.impact_level)
      then dec.impact_level
      else m.best_impact;
  details =
      if not (str_eq dec.decision "") && not (has_text m.best_decision dec.decision)
      then m.details ++ dec.decision ∷ []
      else m.details;
  executors = add_text m.executors dec.executor;
  deadlines = add_text m.deadlines dec.deadline;
}

unfoldable pub merge_rest : Merging → List DecisionExtract → Merging
unfolding merge_one
merge_rest m [] = m
merge_rest m (dec ∷ rest) = merge_rest (merge_one m dec) rest

-- strings.Join
unfoldable pub join_with : String → List String → String
join_with sep [] = ""
join_with sep (s ∷ []) = s
join_with sep (s ∷ t ∷ rest) = str_append s (str_append sep (join_with sep (t ∷ rest)))

-- The fields written behind the loop.
unfoldable pub finish_merging : DecisionExtract → Merging → DecisionExtract
unfolding join_with
finish_merging base m = record base {
  title = m.best_title;
  decision = elim m.details [
    | [] ↦ m.best_decision
    | d ∷ details ↦
        str_append m.best_decision
          (str_append "（实施细节：" (str_append (join_with "；" (d ∷ details)) "）"))
  ];
  rationale = m.best_rationale;
  impact_level = m.best_impact;
  executor = elim m.executors [
    | [] ↦ base.executor
    | e ∷ executors ↦ join_with "、" (e ∷ executors)
  ];
  deadline = elim m.deadlines [ [] ↦ base.deadline | d ∷ deadlines ↦ d ];
}

abbrev zero_extract : DecisionExtract
zero_extract = record {
  title = "";
  decision = "";
  rationale = "";
  suggested_topic = "";
  impact_level = "";
  phase_scope = "";
  proposer = "";
  executor = "";
  decision_type = "";
  decision_time = "";
  effective_time = "";
  deadline = "";
  project_phase = "";
}

unfoldable pub merge_decision_group : List DecisionExtract → DecisionExtract
unfolding start_merging merge_rest finish_merging
merge_decision_group [] = zero_extract
merge_decision_group (base ∷ []) = base
merge_decision_group (base ∷ dec ∷ rest) =
    finish_merging base (merge_rest (start_merging base) (dec ∷ rest))
