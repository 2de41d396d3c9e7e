-- ===== src/Search/Answers.antt =====
-- What the search tool answers behind a cache miss (internal/search/search_tool.go).
use feishu_agent_mem.Prelude.{
  ℕ, zero, suc, ◌+◌, ◌≤◌, ◌<◌, ◌≡◌, refl, ap, arith, String, str_eq, eq_iff, List, [], ◌∷◌, map,
  keep, any, take, Bool, true, not, ◌&&◌, length, length-take-le, count_if, leb, Option-cases,
  Bool-cases, inl, inr, if◌then◌else◌,
}
use feishu_agent_mem.Decision.Types.{DecisionNode}
use feishu_agent_mem.Search.Results.{SearchResult, SearchRequest, SearchRanker}
use feishu_agent_mem.Search.Tool.{
  SearchTool, limit_of, admits, is_wanted, to_result, search_internal, req_to_options, unseen,
  deduplicate, result_len, fitting, truncate_to_budget, cut, fresh_results,
}

abbrev pub results_of : String → List SearchResult → ℕ
results_of sdr_id = count_if (λ r. str_eq r.sdr_id sdr_id)

-- The result has the topic, the status and the impact level that the request asks for.
unfoldable pub suits : SearchRequest → SearchResult → Bool
suits req r =
    admits req.topic r.topic && admits req.status r.status && admits req.impact_level r.impact_level

abbrev pub misfits : SearchRequest → List SearchResult → ℕ
misfits req = count_if (λ r. not (suits req r))

abbrev pub total_len : List SearchResult → ℕ
total_len [] = 0
total_len (r ∷ results) = result_len r + total_len results

-- A ranker only changes the order and the scores.
pub record IsRanker (ranker : SearchRanker) : Type 0 where
  pub same_ids :
      (sdr_id query : String) (results : List SearchResult)
      → results_of sdr_id (ranker.rank results query) ≡ results_of sdr_id results
  pub same_fit :
      (req : SearchRequest) (query : String) (results : List SearchResult)
      → misfits req (ranker.rank results query) ≡ misfits req results

module _ (p : SearchResult → Bool) where
  count_if-take : (n : ℕ) (xs : List SearchResult) → count_if p (take n xs) ≤ count_if p xs
  count_if-take zero xs = omega arith
  count_if-take (suc n) [] = omega arith
  count_if-take (suc n) (x ∷ xs) = ground (arith, count_if-take n xs)

  count_if-cut : (n : ℕ) (xs : List SearchResult) → count_if p (cut n xs) ≤ count_if p xs
  count_if-cut n xs = ground (arith, count_if-take n xs)

  count_if-fitting :
      (m c : ℕ) (xs : List SearchResult) → count_if p (fitting m c xs) ≤ count_if p xs
  unfolding fitting
  count_if-fitting m c [] = omega arith
  count_if-fitting m c (x ∷ xs) = ground (arith, count_if-fitting m (c + result_len x) xs)

  count_if-truncate_to_budget :
      (xs : List SearchResult) (m : ℕ) → count_if p (truncate_to_budget xs m) ≤ count_if p xs
  unfolding truncate_to_budget
  count_if-truncate_to_budget xs m = ground (arith, count_if-fitting m 0 xs)

  count_if-unseen :
      (seen : List String) (xs : List SearchResult) → count_if p (unseen seen xs) ≤ count_if p xs
  unfolding unseen
  count_if-unseen seen [] = omega arith
  count_if-unseen seen (x ∷ xs) =
      ground (arith, count_if-unseen seen xs, count_if-unseen (x.sdr_id ∷ seen) xs)

length-fitting : (m c : ℕ) (xs : List SearchResult) → length (fitting m c xs) ≤ length xs
unfolding fitting
length-fitting m c [] = omega arith
length-fitting m c (x ∷ xs) = ground (arith, length-fitting m (c + result_len x) xs)

total_len-fitting : (m c : ℕ) (xs : List SearchResult) → c ≤ m → c + total_len (fitting m c xs) ≤ m
unfolding fitting
total_len-fitting m c [] h = omega (arith, h)
total_len-fitting m c (x ∷ xs) h = elim (Bool-cases (leb (c + result_len x) m)) [
  | inl fits ↦
      rw fits (omega (arith, total_len-fitting m (c + result_len x) xs (ground (arith, fits))))
  | inr full ↦ rw full (omega (arith, h))
]

length-truncate_to_budget :
    (xs : List SearchResult) (m : ℕ) → length (truncate_to_budget xs m) ≤ length xs
unfolding truncate_to_budget
length-truncate_to_budget xs m = ground (arith, length-fitting m 0 xs)

total_len-truncate_to_budget :
    (xs : List SearchResult) (m : ℕ) → 0 < m → total_len (truncate_to_budget xs m) ≤ m
unfolding truncate_to_budget
total_len-truncate_to_budget xs m h = ground (arith, h, total_len-fitting m 0 xs)

results_of-unseen :
    (sdr_id : String) (seen : List String) (xs : List SearchResult)
    → results_of sdr_id (unseen seen xs) ≤ (if any (λ s. str_eq s sdr_id) seen then 0 else 1)
unfolding unseen
results_of-unseen sdr_id seen [] = ground arith
results_of-unseen sdr_id seen (x ∷ xs) = ground (
  arith,
  results_of-unseen sdr_id seen xs,
  eq_iff x.sdr_id sdr_id,
  results_of-unseen sdr_id (x.sdr_id ∷ seen) xs,
)

-- What `searchInternal` keeps suits the request.
suits-to_result :
    (req : SearchRequest) (st : SearchTool) (d : DecisionNode)
    → is_wanted (req_to_options req st) d ≡ suits req (to_result d)
unfolding is_wanted req_to_options to_result suits
suits-to_result req st d = ground arith

misfits-kept :
    (req : SearchRequest) (st : SearchTool) (decisions : List DecisionNode)
    → misfits req (map to_result (keep (is_wanted (req_to_options req st)) decisions)) ≡ 0
misfits-kept req st [] = refl
misfits-kept req st (d ∷ decisions) = elim (Bool-cases (is_wanted (req_to_options req st) d)) [
  | inl wanted ↦ ground (arith, wanted, suits-to_result req st d, misfits-kept req st decisions)
  | inr unwanted ↦ ground (arith, unwanted, misfits-kept req st decisions)
]

misfits-search_internal :
    (req : SearchRequest) (st : SearchTool)
    → misfits req (search_internal (req_to_options req st) st) ≡ 0
unfolding search_internal
misfits-search_internal req st = elim (Option-cases st.memory_graph) [
  | inl absent ↦ rw (absent, search_internal) refl
  | inr found ↦ rw (found.1, search_internal) (misfits-kept req st _)
]

length-cut :
    (req : SearchRequest) (xs : List SearchResult) → length (cut (limit_of req) xs) ≤ limit_of req
length-cut req xs = ground (arith, length-take-le (limit_of req) xs)

fresh_results-dedup :
    (req : SearchRequest) (st : SearchTool)
    → st.dedup ≡ true
    → fresh_results req st
      ≡ truncate_to_budget
          (cut
            (limit_of req)
            (st.ranker.rank (deduplicate (search_internal (req_to_options req st) st)) req.query))
          st.output_budget
unfolding fresh_results
fresh_results-dedup req st h =
    ap
      (λ b.
        truncate_to_budget
          (cut (limit_of req) (
            st.ranker.rank
              (if b
                then deduplicate (search_internal (req_to_options req st) st)
                else search_internal (req_to_options req st) st)
              req.query))
          st.output_budget)
      h

-- A search that the cache does not answer gives at most as many results as asked for (ten, where
-- nothing is asked), all with the topic, status and impact level of the request, none of the same
-- decision as another, and no more bytes than the budget, where the tool removes duplicates, has a
-- budget, and its ranker only changes the order and the scores.
pub fresh_results_lem :
    (req : SearchRequest) (st : SearchTool)
    → IsRanker st.ranker
    → st.dedup ≡ true
    → 0 < st.output_budget
    → (length (fresh_results req st) ≤ limit_of req)
      × ((total_len (fresh_results req st) ≤ st.output_budget)
          × ((misfits req (fresh_results req st) ≡ 0)
              × ((sdr_id : String) → results_of sdr_id (fresh_results req st) ≤ 1)))
unfolding deduplicate
fresh_results_lem req st law dedup budget =
    let found = search_internal (req_to_options req st) st in
    let ranked = st.ranker.rank (deduplicate found) req.query in
    let kept = cut (limit_of req) ranked in
    rw (fresh_results-dedup req st dedup) (
      omega (arith, length-truncate_to_budget kept st.output_budget, length-cut req ranked),
      (
        total_len-truncate_to_budget kept st.output_budget budget,
        (
          omega (
            arith,
            count_if-truncate_to_budget (λ r. not (suits req r)) kept st.output_budget,
            count_if-cut (λ r. not (suits req r)) (limit_of req) ranked,
            law.same_fit req req.query (deduplicate found),
            count_if-unseen (λ r. not (suits req r)) [] found,
            misfits-search_internal req st,
          ),
          λ sdr_id. omega (
            arith,
            count_if-truncate_to_budget (λ r. str_eq r.sdr_id sdr_id) kept st.output_budget,
            count_if-cut (λ r. str_eq r.sdr_id sdr_id) (limit_of req) ranked,
            law.same_ids sdr_id req.query (deduplicate found),
            results_of-unseen sdr_id [] found,
          ),
        ),
      ),
    )
