-- ===== src/Examples/OnSearch.antt =====
-- The theorems on the search tool, at a small graph.
use feishu_agent_mem.Prelude.{
  ◌≤◌, ◌≡◌, refl, ◌∙◌, arith, String, str_eq, List, [], ◌∷◌, map, Bool, not, length, count_if, ltb,
  some, none, if◌then◌else◌,
}
use feishu_agent_mem.Search.Results.{SearchResult, SearchRequest, scored, simple_ranker}
use feishu_agent_mem.Search.Tool.{SearchTool, new_search_tool, fresh_results, limit_of, search}
use feishu_agent_mem.Search.Answers.{
  IsRanker, results_of, misfits, suits, total_len, fresh_results_lem,
}
use feishu_agent_mem.Search.Cached.{ask, change_graph, after, search_stale}
use feishu_agent_mem.Examples.Samples.{graph}

-- A stable sort by falling relevance.
unfoldable place : SearchResult → List SearchResult → List SearchResult
place r [] = r ∷ []
place r (s ∷ rest) =
    let later = place r rest in
    if ltb s.relevance_score r.relevance_score then r ∷ s ∷ rest else s ∷ later

unfoldable by_relevance : List SearchResult → List SearchResult
unfolding place
by_relevance [] = []
by_relevance (r ∷ rest) = place r (by_relevance rest)

count_if-place :
    (p : SearchResult → Bool) (r : SearchResult) (rest : List SearchResult)
    → count_if p (place r rest) ≡ count_if p (r ∷ rest)
unfolding place
count_if-place p r [] = refl
count_if-place p r (s ∷ rest) = ground (arith, count_if-place p r rest)

count_if-by_relevance :
    (p : SearchResult → Bool) (results : List SearchResult)
    → count_if p (by_relevance results) ≡ count_if p results
unfolding by_relevance
count_if-by_relevance p [] = refl
count_if-by_relevance p (r ∷ rest) =
    ground (arith, count_if-by_relevance p rest, count_if-place p r (by_relevance rest))

results_of-scored :
    (sdr_id query : String) (results : List SearchResult)
    → results_of sdr_id (map (scored query) results) ≡ results_of sdr_id results
unfolding scored
results_of-scored sdr_id query [] = refl
results_of-scored sdr_id query (r ∷ rest) = ground (arith, results_of-scored sdr_id query rest)

misfits-scored :
    (req : SearchRequest) (query : String) (results : List SearchResult)
    → misfits req (map (scored query) results) ≡ misfits req results
unfolding scored suits
misfits-scored req query [] = refl
misfits-scored req query (r ∷ rest) = ground (arith, misfits-scored req query rest)

simple_ranker-IsRanker : IsRanker (simple_ranker by_relevance)
simple_ranker-IsRanker = record {
  same_ids = λ sdr_id query results.
      count_if-by_relevance (λ r. str_eq r.sdr_id sdr_id) (map (scored query) results)
      ∙ results_of-scored sdr_id query results;
  same_fit = λ req query results.
      count_if-by_relevance (λ r. not (suits req r)) (map (scored query) results)
      ∙ misfits-scored req query results;
}

abbrev request : SearchRequest
request = record { query = "go"; topic = "lang"; impact_level = ""; status = ""; limit = 3 }

abbrev other_request : SearchRequest
other_request = record request { query = "rust" }

abbrev tool : SearchTool
tool = new_search_tool by_relevance (some graph) "mem"

fresh_results_lem_example :
    (length (fresh_results request tool) ≤ limit_of request)
    × ((total_len (fresh_results request tool) ≤ tool.output_budget)
        × ((misfits request (fresh_results request tool) ≡ 0)
            × ((sdr_id : String) → results_of sdr_id (fresh_results request tool) ≤ 1)))
unfolding new_search_tool
fresh_results_lem_example = fresh_results_lem request tool simple_ranker-IsRanker refl (omega arith)

search_stale_example :
    (search request
      (after (change_graph none ∷ ask other_request ∷ []) (search request tool).1)).0.results
    ≡ (search request tool).0.results
search_stale_example =
    search_stale request request tool (change_graph none ∷ ask other_request ∷ []) refl
