-- ===== src/Signal/Detector/Documents.antt =====
-- Kinds of documents and the signals against a decision in them (internal/signal/detector.go).
use feishu_agent_mem.Prelude.{
  ℕ, String, str_append, List, [], ◌∷◌, ◌++◌, codes, contains, Bool, ◌&&◌, not, ltb, length, any,
  is_empty, size, first_bytes, if◌then◌else◌,
}
use feishu_agent_mem.Signal.Detector.Details.{Texts, with_first, when, contains_any}

pub data DocType : Type 0 where
  unknown design_doc weekly_report meeting_notes spec decision_log administrative : DocType
  other : String → DocType

module _ (T : Texts) where
  abbrev found : String → List String → Bool
  found s keywords = ltb 0 (length (contains_any T s keywords))

  abbrev cut_to : ℕ → String → String
  cut_to n s = if ltb n (size s) then first_bytes n s else s

  unfoldable pub classify_doc_type : String → String → DocType
  unfolding contains_any is_empty size first_bytes
  classify_doc_type title content =
      let title_lower = T.to_lower (if is_empty title then cut_to 100 content else title) in
      let prefix = cut_to 200 (T.to_lower content) in
      if found title_lower ("周报" ∷ "weekly" ∷ "日报" ∷ "daily" ∷ "月报" ∷ "双周报" ∷ [])
      then weekly_report
      else if found title_lower ("会议" ∷ "纪要" ∷ "minutes" ∷ "meeting note" ∷ [])
      then meeting_notes
      else if found title_lower ("模板" ∷ "template" ∷ "模版" ∷ [])
      then administrative
      else if found title_lower ("方案" ∷ "设计" ∷ "架构" ∷ "技术选型" ∷ "选型" ∷ [])
      then design_doc
      else if found title_lower ("规格" ∷ "spec" ∷ "需求" ∷ "requirement" ∷ [])
      then spec
      else if found title_lower ("决定" ∷ "决策" ∷ "decision log" ∷ "决策记录" ∷ "changelog" ∷ [])
      then decision_log
      else if found prefix ("本周工作" ∷ "下周计划" ∷ "进度同步" ∷ [])
      then weekly_report
      else if found prefix ("会议时间" ∷ "参会人" ∷ "议程" ∷ [])
      then meeting_notes
      else if found prefix ("背景" ∷ "目标" ∷ "方案对比" ∷ "技术方案" ∷ [])
      then design_doc
      else unknown

  unfoldable pub type_signals : DocType → String → List String
  type_signals weekly_report title = str_append "weekly_report:" title ∷ []
  type_signals meeting_notes title = str_append "meeting_notes:" title ∷ []
  type_signals administrative title = str_append "template_doc:" title ∷ []
  type_signals _ title = []

  unfoldable pub has_decision_signal : String → Bool
  unfolding contains
  has_decision_signal lower =
      any (λ kw. contains (codes lower) (codes (T.to_lower kw)))
        ("技术栈" ∷ "框架" ∷ "选用" ∷ "使用" ∷ "采用" ∷ "决定" ∷ "选择" ∷ "方案" ∷ "选型" ∷ "架构" ∷ "Gin" ∷ "React"
          ∷ "Vue" ∷ "Go" ∷ "Python" ∷ "Java" ∷ "MySQL" ∷ "PostgreSQL" ∷ "Redis" ∷ "MongoDB" ∷ [])

  unfoldable pub detect_doc_anti_signals : String → String → DocType → List String
  unfolding type_signals has_decision_signal with_first when contains_any size
  detect_doc_anti_signals title content type =
      let lower = T.to_lower content in
      type_signals type title
      ++ when (ltb (size lower) 50 && not (has_decision_signal lower)) "minor_edit:short_change"
      ++ with_first (contains_any T lower ("fix typo" ∷ "format" ∷ "格式" ∷ "错别字" ∷ "排版" ∷ []))
          (λ m. str_append "minor_edit:" m)
      ++ with_first (contains_any T lower ("TODO" ∷ "FIXME" ∷ "待完成" ∷ "待办" ∷ []))
          (λ m. str_append "todo_list:" m)
