-- ===== src/Search/Results.antt =====
-- The results of a search, their ranking and their cost (internal/search/types.go). A relevance score is
-- a whole number, as the source only adds whole numbers. A limit is not negative; an instant is a number.
-- The order of equal scores is open in Go's sort.Slice, so the sort is a parameter.
use feishu_agent_mem.Prelude.{
  ℕ, ◌+◌, ◌*◌, String, str_append, str_eq, List, map, Bool, true, length, codes, contains, is_empty,
  leb, size, first_bytes, same_text, Option, if◌then◌else◌,
}
use feishu_agent_mem.Graph.Queries.{to_lower}

pub record SearchResult : Type 0 where
  pub sdr_id : String
  pub title : String
  pub topic : String
  pub impact_level : String
  pub status : String
  pub phase : String
  pub decided_at : Option ℕ
  pub relevance_score : ℕ
  pub decision_snippet : String

pub record SearchRequest : Type 0 where
  pub query : String
  pub topic : String
  pub impact_level : String
  pub status : String
  pub limit : ℕ

pub record SearchResponse : Type 0 where
  pub results : List SearchResult
  pub total : ℕ
  pub token_cost : ℕ

pub record SearchOptions : Type 0 where
  pub topic : String
  pub impact_level : String
  pub status : String
  pub limit : ℕ
  pub max_tokens : ℕ
  pub dedup : Bool
  pub project : String

pub record TokenEstimator : Type 0 where
  pub estimate : List SearchResult → ℕ

pub record SearchRanker : Type 0 where
  pub rank : List SearchResult → String → List SearchResult

unfoldable pub strings_to_lower : List ℕ → List ℕ
unfolding to_lower
strings_to_lower = map to_lower

unfoldable pub contains_ignore_case : String → String → Bool
unfolding strings_to_lower contains is_empty
contains_ignore_case s substr =
    if is_empty substr
    then true
    else contains (strings_to_lower (codes s)) (strings_to_lower (codes substr))

unfoldable pub snippet : String → ℕ → String
unfolding size first_bytes
snippet s max_len = if leb (size s) max_len then s else str_append (first_bytes max_len s) "..."

unfoldable pub title_score : String → String → ℕ
unfolding strings_to_lower same_text contains_ignore_case
title_score title query =
    if same_text (strings_to_lower (codes title)) (strings_to_lower (codes query))
    then 10
    else if contains_ignore_case title query
    then 5
    else 0

unfoldable pub impact_score : String → ℕ
impact_score level = if str_eq level "critical" then 2 else if str_eq level "major" then 1 else 0

unfoldable pub relevance : String → SearchResult → ℕ
unfolding title_score contains_ignore_case impact_score
relevance query r =
    title_score r.title query
    + (if contains_ignore_case r.decision_snippet query then 3 else 0)
    + impact_score r.impact_level

unfoldable pub scored : String → SearchResult → SearchResult
unfolding relevance
scored query r = record r { relevance_score = relevance query r }

abbrev pub simple_ranker : (List SearchResult → List SearchResult) → SearchRanker
simple_ranker sort = record { rank = λ results query. sort (map (scored query) results) }

abbrev pub simple_estimator : TokenEstimator
simple_estimator = record { estimate = λ results. length results * 50 }
