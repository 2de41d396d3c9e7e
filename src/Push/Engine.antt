-- ===== src/Push/Engine.antt =====
-- The push engine (internal/push/push.go). What is sent is a log of chats and texts. The texts of cards
-- (internal/card) and of a summary, the hash of a content and the answers of the sending command are
-- the parameter `Outside`. One clock reading serves a whole card or summary; an instant is a number of
-- nanoseconds.
use feishu_agent_mem.Prelude.{
  ℕ, ◌+◌, ◌-◌, ◌*◌, String, str_append, str_eq, List, [], ◌∷◌, ◌++◌, keep, map, take, length, Bool,
  true, not, ◌&&◌, ltb, codes, trim_space, first_runes, is_empty, Map, lookup, insert, Option, none,
  some, Result, ok, err, if◌then◌else◌,
}
use feishu_agent_mem.Decision.Types.{DecisionNode}
use feishu_agent_mem.Decision.Node.{hot_point}
use feishu_agent_mem.Graph.State.{MemoryGraph}
use feishu_agent_mem.Graph.Queries.{get_decision, get_all_decisions}
use feishu_agent_mem.Graph.Access.{get_decisions_by_hot_score}
use feishu_agent_mem.Signal.Texts.{status_text}
use feishu_agent_mem.Recall.HotScore.{calculate}

pub record Outside : Type 0 where
  -- RenderLarkCardFromNode
  pub render_card : DecisionNode → ℕ → Result String
  -- The text of `pushDecisionSummary`, by its header.
  pub summary_text : String → DecisionNode → String
  -- The sixteen first bytes of SHA-256, in hexadecimal digits.
  pub hash : String → String
  -- What the command says about the text for a chat, in the state of the log.
  pub deliver : String → String → List (String × String) → Option String

pub record PushEngine : Type 0 where
  pub memory : MemoryGraph
  pub pushed_decisions : Map ℕ
  pub push_cooldown : ℕ
  pub recent_pushed_hash : Map ℕ
  pub content_cooldown : ℕ
  pub sent : List (String × String)

abbrev pub second : ℕ
second = 1000000000

unfoldable pub new_push_engine : MemoryGraph → PushEngine
new_push_engine memory = record {
  memory = memory;
  pushed_decisions = [];
  push_cooldown = 24 * 3600 * second;
  recent_pushed_hash = [];
  content_cooldown = 300 * second;
  sent = [];
}

-- !exists || time.Since(last) > cooldown
unfoldable pub is_cool : ℕ → ℕ → Option ℕ → Bool
is_cool now cooldown none = true
is_cool now cooldown (some last) = ltb cooldown (now - last)

unfoldable pub can_push : ℕ → String → PushEngine → Bool
unfolding lookup is_cool
can_push now sdr_id pe = is_cool now pe.push_cooldown (lookup sdr_id pe.pushed_decisions)

unfoldable pub mark_pushed : ℕ → String → PushEngine → PushEngine
unfolding insert
mark_pushed now sdr_id pe = record pe { pushed_decisions = insert sdr_id now pe.pushed_decisions }

unfoldable pub can_push_content : ℕ → String → PushEngine → Bool
unfolding lookup is_cool
can_push_content now content_hash pe =
    is_cool now pe.content_cooldown (lookup content_hash pe.recent_pushed_hash)

unfoldable pub mark_pushed_content : ℕ → String → PushEngine → PushEngine
unfolding insert
mark_pushed_content now content_hash pe = record pe {
  recent_pushed_hash = insert content_hash now pe.recent_pushed_hash;
}

-- d.Status == name && d.CreatedAt.After(cutoff), the cutoff being `within` before now
unfoldable pub get_recently_completed : ℕ → ℕ → MemoryGraph → List DecisionNode
unfolding get_all_decisions status_text
get_recently_completed now within mg =
    keep (λ d. str_eq (status_text d.status) "completed" && ltb now (d.created_at + within))
      (get_all_decisions mg)

-- The decisions and their scores; the limit is not negative.
unfoldable pub get_hot_decisions : ℕ → ℕ → MemoryGraph → List DecisionNode × List ℕ
unfolding get_decisions_by_hot_score
get_hot_decisions min_score limit mg =
    let decisions = get_decisions_by_hot_score min_score mg in
    let scores = map (λ (d : DecisionNode). d.access_stats.hot_score) decisions in
    if ltb 0 limit && ltb limit (length decisions)
    then (take limit decisions, take limit scores)
    else (decisions, scores)

module _ (O : Outside) where
  open O use {render_card, summary_text, hash, deliver}

  unfoldable pub decision_content_hash : DecisionNode → String
  unfolding trim_space first_runes
  decision_content_hash d =
      let content = str_append (trim_space d.title) (str_append "|" (trim_space d.decision)) in
      hash (if ltb 200 (length (codes content)) then first_runes 200 content else content)

  -- `sendToFeishu` and `sendTextToFeishu`: a text that the command took is in the log.
  unfoldable pub send_to_feishu : String → String → PushEngine → Option String × PushEngine
  unfolding is_empty
  send_to_feishu chat_id text pe =
      if is_empty chat_id
      then (some "chatID is empty", pe)
      else elim (deliver chat_id text pe.sent) [
        | some e ↦ (some (str_append "lark-cli send failed: " e), pe)
        | none ↦ (none, record pe { sent = pe.sent ++ (chat_id, text) ∷ [] })
      ]

  -- A rendered card, sent and marked.
  unfoldable pub send_card :
      ℕ → String → DecisionNode → String → String → PushEngine → Result String × PushEngine
  unfolding send_to_feishu mark_pushed mark_pushed_content
  send_card now chat_id d sdr_id card pe =
      let answer = send_to_feishu chat_id card pe in
      elim answer.0 [
        | some e ↦ (err (str_append "send failed: " e), answer.1)
        | none ↦ (
          ok card,
          mark_pushed_content now (decision_content_hash d) (mark_pushed now sdr_id answer.1),
        )
      ]

  -- The decision of the id, neither it nor its content pushed lately.
  unfoldable pub push_found :
      ℕ → String → String → DecisionNode → PushEngine → Result String × PushEngine
  unfolding can_push can_push_content decision_content_hash calculate send_card
  push_found now chat_id sdr_id d pe =
      let rendered : Result String × PushEngine = elim (render_card d (calculate now d).0) [
        | err e ↦ (err (str_append "render card failed: " e), pe)
        | ok card ↦ send_card now chat_id d sdr_id card pe
      ] in
      if not (can_push now sdr_id pe)
      then (ok "", pe)
      else if not (can_push_content now (decision_content_hash d) pe)
      then (ok "", pe)
      else rendered

  unfoldable pub push_decision_card : ℕ → String → String → PushEngine → Result String × PushEngine
  unfolding get_decision push_found
  push_decision_card now chat_id sdr_id pe = elim (get_decision sdr_id pe.memory) [
    | none ↦ (err (str_append "decision not found: " sdr_id), pe)
    | some d ↦ push_found now chat_id sdr_id d pe
  ]

  -- The loop over the chats, each with the clock reading of its push; an error is only logged.
  unfoldable pub notify_decision_update : List (String × ℕ) → DecisionNode → PushEngine → PushEngine
  unfolding push_decision_card
  notify_decision_update [] node pe = pe
  notify_decision_update ((chat_id, now) ∷ chats) node pe =
      notify_decision_update chats node (push_decision_card now chat_id node.sdr_id pe).1

  unfoldable pub push_decision_summary :
      ℕ → String → DecisionNode → String → PushEngine → Option String × PushEngine
  unfolding send_to_feishu mark_pushed
  push_decision_summary now chat_id d header pe =
      let answer = send_to_feishu chat_id (summary_text header d) pe in
      elim answer.0 [
        | some e ↦ (some e, answer.1)
        | none ↦ (none, mark_pushed now d.sdr_id answer.1)
      ]

  -- One of the three loops of `PushProactive`: how many were pushed, and the engine.
  unfoldable pub push_summaries :
      ℕ → String → String → List DecisionNode → ℕ × PushEngine → ℕ × PushEngine
  unfolding can_push push_decision_summary
  push_summaries now chat_id header [] done = done
  push_summaries now chat_id header (d ∷ decisions) (pushed, pe) =
      let answer = push_decision_summary now chat_id d header pe in
      let counted : ℕ = elim answer.0 [ none ↦ pushed + 1 | some e ↦ pushed ] in
      push_summaries now chat_id header decisions
        (if can_push now d.sdr_id pe then (counted, answer.1) else (pushed, pe))

  -- The graph's reads come before the loops that use them; a push leaves the graph alone.
  unfoldable pub push_proactive : ℕ → String → PushEngine → ℕ × PushEngine
  unfolding push_summaries get_decisions_by_hot_score get_all_decisions get_recently_completed
      status_text
  push_proactive now chat_id pe =
      let is_forgotten : DecisionNode → Bool = λ d.
        str_eq (status_text d.status) "decided" && ltb d.access_stats.hot_score (20 * hot_point) in
      let hot =
        push_summaries now chat_id "🔥 高热点决策提醒"
          (get_decisions_by_hot_score (80 * hot_point) pe.memory) (0, pe) in
      let forgotten =
        push_summaries now chat_id "⚠\u{fe0f} 以下决策可能已被遗忘"
          (keep is_forgotten (get_all_decisions pe.memory)) hot in
      push_summaries now chat_id "✅ 决策已完成"
        (get_recently_completed now (24 * 3600 * second) pe.memory) forgotten
