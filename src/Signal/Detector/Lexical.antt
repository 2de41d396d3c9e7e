-- ===== src/Signal/Detector/Lexical.antt =====
-- The lexical analyser (internal/signal/detector.go): its keywords in three tiers.
use feishu_agent_mem.Prelude.{
  ℕ, String, List, [], ◌∷◌, ◌++◌, Option, none, some, codes, contains, if◌then◌else◌,
}
use feishu_agent_mem.Signal.Detector.Details.{Texts, SignalDetail, detail}

pub record WeightedPattern : Type 0 where
  pub keywords : List String
  pub weight : ℕ
  pub name : String

abbrev weighted : String → ℕ → List String → WeightedPattern
weighted name weight keywords = record { keywords = keywords; weight = weight; name = name }

abbrev pub high_weight : List WeightedPattern
high_weight =
    weighted "explicit_decision" 100 ("决定" ∷ "已决定" ∷ "决定了" ∷ "最终决定" ∷ [])
    ∷ weighted "explicit_confirm" 90 ("确认" ∷ "已确认" ∷ "确认了" ∷ "确认一下" ∷ [])
    ∷ weighted "explicit_approve" 90 ("通过" ∷ "已通过" ∷ "通过了" ∷ "审批通过" ∷ [])
    ∷ weighted "finalize" 95 ("定下来" ∷ "就这样" ∷ "就这么办" ∷ "定了" ∷ [])
    ∷ weighted "conclusion" 90 ("结论" ∷ "最终结论" ∷ "结论是" ∷ [])
    ∷ weighted "close_discussion" 85 ("不再讨论" ∷ "不讨论" ∷ "到此为止" ∷ [])
    ∷ []

abbrev pub medium_weight : List WeightedPattern
medium_weight =
    weighted "adopt" 65 ("采用" ∷ "选用" ∷ "使用" ∷ "用这个" ∷ [])
    ∷ weighted "selection" 55 ("选" ∷ "选择" ∷ "选型" ∷ "方案" ∷ "技术栈" ∷ "开发语言" ∷ "语言" ∷ [])
    ∷ weighted "proposal" 50 ("建议" ∷ "推荐" ∷ "提议" ∷ [])
    ∷ weighted "eng_approve" 70
        ("approve" ∷ "lgtm" ∷ "LGTM" ∷ "approved" ∷ "confirmed" ∷ "agreed" ∷ [])
    ∷ weighted "eng_decision" 75 ("decided" ∷ "decision" ∷ "finalize" ∷ [])
    ∷ weighted "requirement" 50 ("需要" ∷ "必须" ∷ "务必" ∷ "一定要" ∷ "尽快" ∷ [])
    ∷ weighted "rejection" 60 ("暂不" ∷ "不采用" ∷ "否决" ∷ "驳回" ∷ "不同意" ∷ [])
    ∷ weighted "action_item" 55 ("todo" ∷ "to do" ∷ "action item" ∷ "待办" ∷ [])
    ∷ weighted "assign_owner" 50 ("责任人" ∷ "负责" ∷ "执行人" ∷ "owner" ∷ [])
    ∷ []

abbrev pub low_weight : List WeightedPattern
low_weight =
    weighted "agreement" 20 ("可以" ∷ "没问题" ∷ "ok" ∷ "OK" ∷ "好的" ∷ [])
    ∷ weighted "comparison" 35 ("对比" ∷ "比较" ∷ "vs" ∷ "还是" ∷ "或者" ∷ "alternative" ∷ [])
    ∷ weighted "opinion" 25 ("我觉" ∷ "我认为" ∷ "个人认为" ∷ "观点" ∷ [])
    ∷ weighted "planning" 30 ("计划" ∷ "安排" ∷ "排期" ∷ "时间" ∷ [])
    ∷ weighted "problem" 30 ("问题" ∷ "bug" ∷ "issue" ∷ "修复" ∷ [])
    ∷ []

module _ (T : Texts) where
  -- The first keyword that the lower-cased content has.
  unfoldable pub match_weighted : String → List String → Option String
  unfolding contains
  match_weighted content [] = none
  match_weighted content (kw ∷ keywords) =
      let rest = match_weighted content keywords in
      if contains (codes content) (codes (T.to_lower kw)) then some kw else rest

  unfoldable pub match_tier : String → List WeightedPattern → List SignalDetail
  unfolding match_weighted
  match_tier content [] = []
  match_tier content (p ∷ tier) =
      let rest = match_tier content tier in
      elim (match_weighted content p.keywords) [
        | none ↦ rest
        | some matched ↦ detail "lexical" p.name p.weight matched ∷ rest
      ]

  unfoldable pub analyze_lexical : String → List SignalDetail
  unfolding match_tier
  analyze_lexical content =
      let lower = T.to_lower content in
      match_tier lower high_weight ++ match_tier lower medium_weight ++ match_tier lower low_weight
