-- ===== src/Examples/OnKeepers.antt =====
-- The theorems on documents, budgets, ids and the recall at sample values.
use feishu_agent_mem.Prelude.{
  ℕ, ◌+◌, ◌-◌, ◌*◌, ◌%◌, ◌≤◌, String, List, [], ◌∷◌, ◌≡◌, ◌↔◌, ◌⊎◌, refl, false, All, length, arith,
  eq_iff, lookup,
}
use mathlib.Core.Bool.{false≢true}
use feishu_agent_mem.Decision.Node.{new_decision_node, hot_point}
use feishu_agent_mem.Graph.Access.{graph_hot_score}
use feishu_agent_mem.Signal.Ids.{generate_sdr_id}
use feishu_agent_mem.Signal.Uniqueness.{generate_sdr_id_iff, exact_cards-generate_sdr_id}
use feishu_agent_mem.Llm.Budget.{BudgetTracker, default_budget, new_budget_tracker}
use feishu_agent_mem.Llm.Spending.{spend_all, IsWithin, spend_all-IsWithin}
use feishu_agent_mem.Lark.Debounce.{
  DocDebounceTracker, first_state, can_process_now, mark_processed, get_state, changed, processed,
  perform_all,
}
use feishu_agent_mem.Lark.Once.{can_process_now-mark_processed}
use feishu_agent_mem.Lark.Batcher.{MessageRecord, MessageBatcher, group_by_time_and_keywords}
use feishu_agent_mem.Lark.Grouping.{concat, IsDiscussion, group_by_time_and_keywords_lem}
use feishu_agent_mem.Recall.HotScore.{calculate}
use feishu_agent_mem.Recall.Decay.{graph_hot_score-calculate}
use feishu_agent_mem.Recall.Engine.{exact_cards, search_recall}
use feishu_agent_mem.Recall.Answers.{cards_of, search_recall_bounds}
use feishu_agent_mem.Examples.Samples.{decision_a, graph}

abbrev tracker : DocDebounceTracker
tracker = record { states = ("doc", first_state 100 "doc") ∷ []; debounce_window = 60 }

can_process_now-mark_processed_example :
    (can_process_now 900 "doc" (
      perform_all
        (changed 300 "doc" "h1" ∷ processed 310 "doc" "" ∷ changed 320 "other" "h2" ∷ [])
        (mark_processed 200 "doc" "h1" tracker))).0
    ≡ false
unfolding get_state lookup
can_process_now-mark_processed_example =
    can_process_now-mark_processed 200 900 "doc" "h1"
      (changed 300 "doc" "h1" ∷ processed 310 "doc" "" ∷ changed 320 "other" "h2" ∷ []) tracker
      (first_state 100 "doc") (λ e. false≢true ((eq_iff "h1" "").1 e)) refl
      (refl, (refl, (refl, tt)))

abbrev spent : BudgetTracker
spent = record { used = 49000; limits = default_budget; history = [] }

abbrev uses : List (String × ℕ)
uses = ("llm.call", 2000) ∷ ("mcp.topic", 1000) ∷ []

spend_all-IsWithin_example :
    IsWithin default_budget (spend_all uses (new_budget_tracker default_budget))
spend_all-IsWithin_example =
    spend_all-IsWithin default_budget uses (ground arith) (ground arith, (ground arith, tt))

generate_sdr_id_iff_example :
    ((generate_sdr_id "20260101000000" 0).0 ≡ (generate_sdr_id "20260101000000" 10).0)
    ↔ ((0 + 1) % 10 ≡ (10 + 1) % 10)
generate_sdr_id_iff_example = generate_sdr_id_iff "20260101000000" 0 10

exact_cards-generate_sdr_id_example :
    exact_cards 5000 (generate_sdr_id "20260101000000" 0).0 graph ≡ []
exact_cards-generate_sdr_id_example = exact_cards-generate_sdr_id 5000 "20260101000000" 0 graph

graph_hot_score-calculate_example :
    ((calculate 86401000 decision_a).0 ≤ 100 * hot_point)
    × (graph_hot_score 86401000 decision_a ≤ (calculate 86401000 decision_a).0)
    × ((calculate 86401000 decision_a).0
        ≤ graph_hot_score 86401000 decision_a + 3 * (86401000 - decision_a.created_at))
unfolding new_decision_node
graph_hot_score-calculate_example = graph_hot_score-calculate 86401000 decision_a (ground arith)

search_recall_bounds_example :
    (length (search_recall (λ s. s) 5000 "Go" 3 graph) ≤ 3)
    × ((sdr_id : String)
        → (3 ≤ length (search_recall (λ s. s) 5000 "Go" 3 graph))
          ⊎ (cards_of sdr_id (search_recall (λ s. s) 5000 "Go" 3 graph) ≤ 1))
search_recall_bounds_example = search_recall_bounds (λ s. s) 5000 "Go" 3 graph

abbrev message : String → ℕ → MessageRecord
message message_id create_time = record {
  message_id = message_id;
  chat_id = "chat";
  thread_id = "";
  sender_id = "u1";
  sender_name = "Li";
  content = "go";
  msg_type = "text";
  create_time = create_time;
  mentions = [];
}

abbrev messages : List MessageRecord
messages = message "m1" 100 ∷ message "m2" 150 ∷ message "m3" 900 ∷ []

-- Every text is one word of one letter.
abbrev one_word : String → List (List ℕ)
one_word text = (103 ∷ []) ∷ []

group_by_time_and_keywords_lem_example :
    (concat (group_by_time_and_keywords one_word messages 300) ≡ messages)
    × All (IsDiscussion one_word 300) (group_by_time_and_keywords one_word messages 300)
group_by_time_and_keywords_lem_example = group_by_time_and_keywords_lem one_word 300 messages

abbrev batcher : MessageBatcher
batcher = record {
  chat_cache = ("chat", messages) ∷ [];
  context_limit = 30;
  cache_expiry = 1800;
  last_cleanup = 0;
}
