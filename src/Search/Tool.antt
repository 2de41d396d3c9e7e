-- ===== src/Search/Tool.antt =====
-- The search tool (internal/search/search_tool.go) over the memory graph. The time of a cache entry is
-- never set and is left out; the error of a search is always nil. A nil graph is `none`.
use feishu_agent_mem.Prelude.{
  ℕ, zero, suc, ◌+◌, ◌/◌, ◌%◌, ◌==◌, String, str_append, str_eq, List, [], ◌∷◌, map, keep, any,
  take, Bool, true, not, ◌&&◌, length, ltb, leb, size, Option, none, some, Map, lookup, insert,
  if◌then◌else◌,
}
use feishu_agent_mem.Decision.Types.{DecisionNode}
use feishu_agent_mem.Graph.State.{MemoryGraph}
use feishu_agent_mem.Graph.Queries.{
  query_by_topic, get_all_decisions, list_all_topics, get_decision,
}
use feishu_agent_mem.Signal.Texts.{status_text, impact_text}
use feishu_agent_mem.Signal.Ids.{digit}
use feishu_agent_mem.Search.Results.{
  SearchResult, SearchRequest, SearchResponse, SearchOptions, SearchRanker, TokenEstimator, snippet,
  simple_ranker, simple_estimator,
}

pub record SearchTool : Type 0 where
  pub output_budget : ℕ
  pub dedup : Bool
  pub cache : Map (List SearchResult)
  pub memory_graph : Option MemoryGraph
  pub ranker : SearchRanker
  pub token_estimator : TokenEstimator
  pub default_project : String

unfoldable pub new_search_tool :
    (List SearchResult → List SearchResult) → Option MemoryGraph → String → SearchTool
new_search_tool sort memory_graph default_project = record {
  output_budget = 20000;
  dedup = true;
  cache = [];
  memory_graph = memory_graph;
  ranker = simple_ranker sort;
  token_estimator = simple_estimator;
  default_project = default_project;
}

-- The decimal digits of a number, before a text; a number has no more digits than its value and one.
unfoldable pub decimal_from : ℕ → ℕ → String → String
unfolding digit
decimal_from zero n text = text
decimal_from (suc fuel) n text =
    let written = str_append (digit (n % 10)) text in
    let rest = decimal_from fuel (n / 10) written in if ltb n 10 then written else rest

unfoldable pub build_cache_key : SearchRequest → String
unfolding decimal_from
build_cache_key req = str_append req.query (
    str_append "|" (
      str_append req.topic (
        str_append "|" (
          str_append req.impact_level (
            str_append "|" (
              str_append req.status
                (str_append "|" (decimal_from (suc req.limit) req.limit ""))))))))

-- limit == 0 means 10
abbrev pub limit_of : SearchRequest → ℕ
limit_of req = if req.limit == 0 then 10 else req.limit

unfoldable pub req_to_options : SearchRequest → SearchTool → SearchOptions
req_to_options req st = record {
  topic = req.topic;
  impact_level = req.impact_level;
  status = req.status;
  limit = limit_of req;
  max_tokens = st.output_budget;
  dedup = st.dedup;
  project = st.default_project;
}

-- wanted != "" && actual != wanted, negated
abbrev pub admits : String → String → Bool
admits wanted actual = not (not (str_eq wanted "") && not (str_eq actual wanted))

unfoldable pub is_wanted : SearchOptions → DecisionNode → Bool
unfolding status_text impact_text
is_wanted opts d =
    admits opts.topic d.topic
    && admits opts.status (status_text d.status)
    && admits opts.impact_level (impact_text d.impact_level)

unfoldable pub to_result : DecisionNode → SearchResult
unfolding snippet status_text impact_text
to_result d = record {
  sdr_id = d.sdr_id;
  title = d.title;
  topic = d.topic;
  impact_level = impact_text d.impact_level;
  status = status_text d.status;
  phase = d.phase;
  decided_at = d.decided_at;
  relevance_score = 0;
  decision_snippet = snippet d.decision 200;
}

unfoldable pub search_internal : SearchOptions → SearchTool → List SearchResult
unfolding query_by_topic get_all_decisions is_wanted to_result
search_internal opts st = elim st.memory_graph [
  | none ↦ []
  | some mg ↦
      let decisions =
        if not (str_eq opts.topic "")
        then query_by_topic opts.project opts.topic mg
        else get_all_decisions mg in
      map to_result (keep (is_wanted opts) decisions)
]

-- The loop of `deduplicate`, with the ids that were seen.
unfoldable pub unseen : List String → List SearchResult → List SearchResult
unseen seen [] = []
unseen seen (r ∷ results) =
    let dropped = unseen seen results in
    let fresh = unseen (r.sdr_id ∷ seen) results in
    if any (λ s. str_eq s r.sdr_id) seen then dropped else r ∷ fresh

unfoldable pub deduplicate : List SearchResult → List SearchResult
unfolding unseen
deduplicate results = unseen [] results

unfoldable pub result_len : SearchResult → ℕ
unfolding size
result_len r =
    size r.title + size r.topic + size r.impact_level + size r.status + size r.decision_snippet

-- The loop of `truncateToBudget`, with the length so far.
unfoldable pub fitting : ℕ → ℕ → List SearchResult → List SearchResult
unfolding result_len
fitting max_chars current_len [] = []
fitting max_chars current_len (r ∷ results) =
    let rest = fitting max_chars (current_len + result_len r) results in
    if leb (current_len + result_len r) max_chars then r ∷ rest else []

unfoldable pub truncate_to_budget : List SearchResult → ℕ → List SearchResult
unfolding fitting
truncate_to_budget results max_chars =
    if leb max_chars 0 then results else fitting max_chars 0 results

unfoldable pub get_cache : String → SearchTool → Option (List SearchResult)
unfolding lookup
get_cache key st = lookup key st.cache

unfoldable pub set_cache : String → List SearchResult → SearchTool → SearchTool
unfolding insert
set_cache key results st = record st { cache = insert key results st.cache }

unfoldable pub clear_cache : SearchTool → SearchTool
clear_cache st = record st { cache = [] }

abbrev pub response : List SearchResult → SearchTool → SearchResponse
response results st = record {
  results = results;
  total = length results;
  token_cost = st.token_estimator.estimate results;
}

-- if limit > 0 && len(results) > limit { results = results[:limit] }
abbrev pub cut : ℕ → List SearchResult → List SearchResult
cut limit results =
    if ltb 0 limit && ltb limit (length results) then take limit results else results

-- The steps behind a cache miss.
unfoldable pub fresh_results : SearchRequest → SearchTool → List SearchResult
unfolding search_internal req_to_options deduplicate truncate_to_budget
fresh_results req st =
    let found = search_internal (req_to_options req st) st in
    let unique = if st.dedup then deduplicate found else found in
    let ranked = st.ranker.rank unique req.query in
    truncate_to_budget (cut (limit_of req) ranked) st.output_budget

unfoldable pub search : SearchRequest → SearchTool → SearchResponse × SearchTool
unfolding build_cache_key get_cache fresh_results set_cache
search req st = elim (get_cache (build_cache_key req) st) [
  | some cached ↦ (response cached st, st)
  | none ↦
      let results = fresh_results req st in
      (response results st, set_cache (build_cache_key req) results st)
]

unfoldable pub list_topics : String → SearchTool → List String
unfolding list_all_topics
list_topics project st = elim st.memory_graph [ none ↦ [] | some mg ↦ list_all_topics project mg ]

unfoldable pub tool_get_decision : String → SearchTool → Option DecisionNode
unfolding get_decision
tool_get_decision sdr_id st = elim st.memory_graph [
  | none ↦ none
  | some mg ↦ get_decision sdr_id mg
]
