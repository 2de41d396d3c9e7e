-- ===== src/Signal/Detector/Structural.antt =====
-- The structural and the dynamic analyser (internal/signal/detector.go).
use feishu_agent_mem.Prelude.{
  ℕ, String, List, [], ◌∷◌, ◌++◌, Option, none, some, codes, contains, Bool, ◌&&◌, ◌||◌, ltb, leb,
  length, count_if,
}
use feishu_agent_mem.Signal.Detector.Details.{
  Texts, SignalDetail, detail, with_first, when, has, contains_any,
}

pub record DetectContext : Type 0 where
  pub is_reply : Bool
  pub has_mention : Bool
  pub recent_keywords : List String
  pub sender_name : String
  pub message_index : ℕ

abbrev is_some_text : List String → Bool
is_some_text texts = ltb 0 (length texts)

module _ (T : Texts) where
  unfoldable pub analyze_structural : String → List SignalDetail
  analyze_structural content =
      with_first
        (contains_any T content ("1." ∷ "2." ∷ "3." ∷ "第一" ∷ "第二" ∷ "第三" ∷ "首先" ∷ "其次" ∷ "最后" ∷ []))
        (detail "structural" "numbered_list" 40)
      ++ with_first (contains_any T content ("/" ∷ "vs" ∷ "VS" ∷ "对比" ∷ []))
          (detail "structural" "option_comparison" 35)
      ++ when
          (contains (codes content) (codes "\"")
            || contains (codes content) (codes "「")
            || contains (codes content) (codes "『"))
          (detail "structural" "quoted_content" 20 "quotes_found")
      ++ when
          (ltb 50 (length (codes content))
            && is_some_text (
                contains_any T content (
                  "接口" ∷ "API" ∷ "数据库" ∷ "服务" ∷ "部署" ∷ "架构" ∷ "前端" ∷ "后端" ∷ "客户端" ∷ "协议" ∷ "格式"
                  ∷ "版本" ∷ [])))
          (detail "structural" "technical_detail" 35 "long_tech_message")
      ++ with_first
          (contains_any T content
            ("来负责" ∷ "来处" ∷ "来做" ∷ "由你" ∷ "由我" ∷ "由他" ∷ "assign" ∷ "负责" ∷ "owner" ∷ []))
          (detail "structural" "task_assignment" 45)

  unfoldable pub overlap_count : String → List String → ℕ
  overlap_count content keywords = count_if (has T content) keywords

  unfoldable pub analyze_dynamic : String → Option DetectContext → List SignalDetail
  analyze_dynamic content none = []
  analyze_dynamic content (some ctx) =
      when ctx.is_reply (detail "dynamic" "reply_to_discussion" 35 "is_reply")
      ++ when ctx.has_mention (detail "dynamic" "directed_message" 40 "has_mention")
      ++ when (ltb 2 ctx.message_index)
          (detail "dynamic" "multi_round_discussion" 25 "message_index")
      ++ when (leb 2 (overlap_count content ctx.recent_keywords))
          (detail "dynamic" "topic_continuation" 30 "topic_overlap")
