-- ===== src/Signal/Extracts/Filter.antt =====
-- The filter of extracted decisions and the comparison of texts (internal/signal/engine.go, the type
-- from internal/llm/types.go). Lower case is the parameter `to_lower`.
use Prim.Native.Char.{code}
use feishu_agent_mem.Prelude.{
  ◌*◌, ◌==◌, String, str_append, str_eq, List, [], ◌∷◌, ◌++◌, keep, any, length, Bool, false, not,
  ◌&&◌, ◌||◌, codes, contains, is_empty, leb, ltb, if◌then◌else◌,
}
use feishu_agent_mem.Decision.Types.{ImpactLevel, advisory, minor, major, critical}
use feishu_agent_mem.Signal.Types.{StateChangeSignal, EmbeddedUrl}
use feishu_agent_mem.Graph.State.{append_unique}

-- The related entities of an extract are carried along unread and are left out.
pub record DecisionExtract : Type 0 where
  pub title : String
  pub decision : String
  pub rationale : String
  pub suggested_topic : String
  pub impact_level : String
  pub phase_scope : String
  pub proposer : String
  pub executor : String
  pub decision_type : String
  pub decision_time : String
  pub effective_time : String
  pub deadline : String
  pub project_phase : String

abbrev pub has_text : String → String → Bool
has_text s part = contains (codes s) (codes part)

abbrev pub has_one_of : String → List String → Bool
has_one_of s parts = any (has_text s) parts

module _ (to_lower : String → String) where
  unfoldable pub has_substantive_choice : String → Bool
  unfolding contains
  has_substantive_choice text =
      any (λ p. has_text (to_lower text) (to_lower p))
        ("使用" ∷ "采用" ∷ "选用" ∷ "选择" ∷ "决定" ∷ "替换" ∷ "use" ∷ "adopt" ∷ "select" ∷ "replace" ∷ "switch"
          ∷ "PostgreSQL" ∷ "MySQL" ∷ "Redis" ∷ "Kafka" ∷ "RabbitMQ" ∷ "Docker" ∷ "Kubernetes" ∷ "Go"
          ∷ "Python" ∷ "Java" ∷ [])

  -- The rules of `hardFilterDecisions`, in their order; a rule that skips is a `false`.
  unfoldable pub is_kept : DecisionExtract → Bool
  unfolding has_substantive_choice contains is_empty
  is_kept dec =
      let title_lower = to_lower dec.title in
      let is_task =
        has_one_of title_lower ("完成" ∷ "交付" ∷ "提交" ∷ "上线" ∷ "发布" ∷ "前完成" ∷ "前交付" ∷ "前提交" ∷ []) in
      let is_priority = has_one_of title_lower ("最高优先级" ∷ "第一优先级" ∷ "首要" ∷ "优先处理" ∷ []) in
      let is_confirm = has_one_of title_lower ("确认" ∷ "同意" ∷ "赞同" ∷ "批准" ∷ "通过" ∷ []) in
      if str_eq dec.impact_level "advisory"
      then false
      else if is_task && is_empty dec.rationale && not (has_substantive_choice dec.decision)
      then false
      else if is_priority
      then false
      else if str_eq dec.decision_type "confirmation" && is_empty dec.rationale
      then false
      else not (is_confirm && not (has_substantive_choice dec.decision))

  unfoldable pub hard_filter_decisions : List DecisionExtract → List DecisionExtract
  unfolding is_kept
  hard_filter_decisions decisions = keep is_kept decisions

  -- One decision is not filtered.
  unfoldable pub filter_and_merge_decisions : List DecisionExtract → List DecisionExtract
  unfolding hard_filter_decisions
  filter_and_merge_decisions decisions =
      if leb (length decisions) 1 then decisions else hard_filter_decisions decisions

unfoldable pub extract_impact_from_summary : String → ImpactLevel
unfolding contains
extract_impact_from_summary text =
    if has_text text "critical" || has_text text "关键"
    then critical
    else if has_text text "major" || has_text text "重要"
    then major
    else if has_text text "minor" || has_text text "轻微"
    then minor
    else advisory

-- A loop of appends, each unless the item is there.
unfoldable pub append_all : List String → List String → List String
unfolding append_unique
append_all result [] = result
append_all result (item ∷ items) = append_all (append_unique result item) items

unfoldable pub append_related_ids : List String → StateChangeSignal → List String
unfolding append_all
append_related_ids existing sig = append_all existing sig.related_ids

unfoldable pub tokens_behind : List String → List EmbeddedUrl → List String
unfolding append_unique
tokens_behind result [] = result
tokens_behind result (url ∷ urls) =
    tokens_behind
      (if not (str_eq url.extracted_token "")
        then append_unique result url.extracted_token
        else result)
      urls

unfoldable pub append_related_tokens : List String → StateChangeSignal → List String
unfolding tokens_behind
append_related_tokens existing sig = tokens_behind existing sig.context.embedded_urls

abbrev pub delimiters : String
delimiters = "，。、；：？！\"\"''【】（）()「」『』》《—…·,.;:!?'()[]{}<>/@#$%^&*+=|~` \t\n\r"

-- A token that is under way, if it is not empty.
unfoldable pub flush : String → List String
flush current = if str_eq current "" then [] else current ∷ []

-- The loop of `tokenize`, with the token under way.
unfoldable pub tokens_from : String → String → List String
unfolding flush
tokens_from current String.[] = flush current
tokens_from current (String.◌∷◌ c s) =
    let from_here = tokens_from "" s in
    let longer = tokens_from (str_append current (String.◌∷◌ c "")) s in
    if any (λ d. d == code c) (codes delimiters)
    then flush current ++ from_here
    else if leb 19968 (code c) && leb (code c) 40959
    then flush current ++ String.◌∷◌ c "" ∷ from_here
    else longer

unfoldable pub tokenize : String → List String
unfolding tokens_from
tokenize s = tokens_from "" s

-- st == lt || strings.Contains(st, lt) || strings.Contains(lt, st)
unfoldable pub shares : List String → String → Bool
unfolding contains
shares longer st = any (λ lt. str_eq st lt || has_text st lt || has_text lt st) longer

-- The ratio of 0.6 is exact, where the source divides floats.
unfoldable pub overlaps : List String → List String → Bool
unfolding shares
overlaps shorter longer =
    let matched = keep (shares longer) shorter in
    ltb 2 (length shorter)
    && leb 3 (length matched)
    && any (λ st. ltb 1 (length (codes st))) matched
    && leb (6 * length shorter) (10 * length matched)

unfoldable pub has_high_token_overlap : String → String → Bool
unfolding tokenize overlaps
has_high_token_overlap a b =
    let tokens_a = tokenize a in
    let tokens_b = tokenize b in
    if ltb 0 (length tokens_a) && ltb 0 (length tokens_b)
    then if leb (length tokens_a) (length tokens_b)
      then overlaps tokens_a tokens_b
      else overlaps tokens_b tokens_a
    else false
