-- ===== src/Search/Cached.antt =====
-- The cache of the search tool (internal/search/search_tool.go).
use feishu_agent_mem.Prelude.{
  ◌≡◌, refl, ◌∙◌, ap, arith, str_eq, str_eq_refl, eq_iff, String, List, [], ◌∷◌, Bool-cases, Option,
  some, none, sym, Option-cases, inl, inr, lookup, lookup-insert,
}
use feishu_agent_mem.Graph.State.{MemoryGraph}
use feishu_agent_mem.Search.Results.{SearchResult, SearchRequest}
use feishu_agent_mem.Search.Tool.{
  SearchTool, get_cache, set_cache, build_cache_key, response, search,
}

-- A response of a search is in the cache behind it.
cached-search :
    (req : SearchRequest) (st : SearchTool)
    → lookup (build_cache_key req) (search req st).1.cache ≡ some (search req st).0.results
unfolding search get_cache set_cache
cached-search req st = elim (Option-cases (lookup (build_cache_key req) st.cache)) [
  | inl absent ↦
      rw (absent, search, lookup-insert (build_cache_key req) (build_cache_key req))
        (ground (arith, str_eq_refl (build_cache_key req)))
  | inr found ↦ rw (found.1, search) found.1
]

search-cached :
    (req : SearchRequest) (st : SearchTool) (results : List SearchResult)
    → lookup (build_cache_key req) st.cache ≡ some results
    → search req st ≡ (response results st, st)
unfolding search get_cache
search-cached req st results h = rw (h, search) refl

-- What may happen to the tool, but for a clearing of the cache: a search, or a change of the graph,
-- which the tool only reads.
pub data Event : Type 0 where
  ask : SearchRequest → Event
  change_graph : Option MemoryGraph → Event

unfoldable pub after : List Event → SearchTool → SearchTool
unfolding search
after [] st = st
after (ask req ∷ events) st = after events (search req st).1
after (change_graph mg ∷ events) st = after events (record st { memory_graph = mg })

-- A search leaves an entry of the cache as it is.
lookup-search :
    (req : SearchRequest) (key : String) (st : SearchTool) (results : List SearchResult)
    → lookup key st.cache ≡ some results
    → lookup key (search req st).1.cache ≡ some results
unfolding search get_cache set_cache
lookup-search req key st results h = elim (Option-cases (lookup (build_cache_key req) st.cache)) [
  | inr found ↦ rw (found.1, search) h
  | inl absent ↦
      rw (absent, search, lookup-insert (build_cache_key req) key)
        (elim (Bool-cases (str_eq (build_cache_key req) key)) [
          | inl same ↦
              let clash : none ≡ some results =
                sym absent
                ∙ ap (λ k. lookup k st.cache) ((eq_iff (build_cache_key req) key).0 same)
                ∙ h in
              cc
          | inr other ↦ rw other h
        ])
]

lookup-after :
    (events : List Event) (key : String) (st : SearchTool) (results : List SearchResult)
    → lookup key st.cache ≡ some results
    → lookup key (after events st).cache ≡ some results
unfolding after
lookup-after [] key st results h = h
lookup-after (ask req ∷ events) key st results h =
    lookup-after events key (search req st).1 results (lookup-search req key st results h)
lookup-after (change_graph mg ∷ events) key st results h =
    lookup-after events key (record st { memory_graph = mg }) results h

-- A search gives the results of an earlier search whose cache key it shares, whatever searches and
-- changes of the graph lie between the two, where the cache is not cleared.
pub search_stale :
    (req other : SearchRequest) (st : SearchTool) (events : List Event)
    → build_cache_key other ≡ build_cache_key req
    → (search other (after events (search req st).1)).0.results ≡ (search req st).0.results
search_stale req other st events same =
    ap (λ answer. answer.0.results)
      (search-cached other (after events (search req st).1) (search req st).0.results (
        ap (λ key. lookup key (after events (search req st).1).cache) same
        ∙ lookup-after events (build_cache_key req) (search req st).1 (search req st).0.results
            (cached-search req st)))
