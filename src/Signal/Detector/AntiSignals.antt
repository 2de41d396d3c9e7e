-- ===== src/Signal/Detector/AntiSignals.antt =====
-- Signals against a decision (internal/signal/detector.go): of messages, and their score.
use feishu_agent_mem.Prelude.{
  ℕ, ◌+◌, ◌*◌, String, str_append, str_eq, List, [], ◌∷◌, ◌++◌, codes, Bool, ◌&&◌, ◌||◌, ltb, leb,
  not, ◌==◌, length, count_if, any, trim_space, has_suffix, strip_prefix, known, if◌then◌else◌,
}
use feishu_agent_mem.Signal.Detector.Details.{Texts, with_first, when, contains_any}

-- A code point in one of the ranges of `isMostlyEmoji`.
unfoldable pub is_emoji_code : ℕ → Bool
is_emoji_code r =
    leb 127744 r && leb r 129535
    || leb 9728 r && leb r 10175
    || leb 65024 r && leb r 65039
    || r == 10084
    || r == 10083
    || r == 9749

-- float64(emoji)/float64(total) > 0.5
unfoldable pub is_mostly_emoji : String → Bool
unfolding is_emoji_code
is_mostly_emoji s =
    let total = length (codes s) in
    let emoji = count_if is_emoji_code (codes s) in
    not (ltb 10 total) && not (total == 0) && ltb total (2 * emoji)

abbrev joined_to : String → String → String
joined_to prefix matched = str_append prefix matched

module _ (T : Texts) where
  unfoldable pub is_pure_question : String → Bool
  unfolding trim_space has_suffix contains_any
  is_pure_question raw =
      let s = trim_space raw in
      any (has_suffix s) ("?" ∷ "？" ∷ "吗" ∷ "吧" ∷ "么" ∷ [])
      && not (ltb 0 (length (contains_any T s ("决定" ∷ "确认" ∷ "通过" ∷ "用" ∷ "选" ∷ []))))

  abbrev first_of : String → String → List String → List String
  first_of content label keywords = with_first (contains_any T content keywords) (joined_to label)

  unfoldable pub detect_anti_signals : String → List String
  unfolding with_first when contains_any is_mostly_emoji is_pure_question
  detect_anti_signals content =
      first_of content "greeting:" (
        "早上好" ∷ "下午好" ∷ "晚上好" ∷ "大家好" ∷ "hello" ∷ "hi " ∷ "hey" ∷ "辛苦了" ∷ "谢谢" ∷ "感谢" ∷ "拜拜" ∷ "再见"
        ∷ "see you" ∷ [])
      ++ when (is_mostly_emoji content) "pure_emoji"
      ++ first_of content "uncertain:" (
          "可能" ∷ "也许" ∷ "大概" ∷ "或许" ∷ "不一定" ∷ "maybe" ∷ "perhaps" ∷ "probably" ∷ "not sure" ∷ "再看看"
          ∷ "再想想" ∷ "考虑一下" ∷ "讨论一下" ∷ "再说" ∷ "以后再说" ∷ [])
      ++ when (is_pure_question content) "pure_question"
      ++ (if ltb (length (codes content)) 20
          then first_of content "small_talk:" ("吃" ∷ "喝" ∷ "玩" ∷ "天气" ∷ "八卦" ∷ [])
          else [])
      ++ first_of content "status_update:"
          ("已完成" ∷ "正在处理" ∷ "进度" ∷ "进展" ∷ "更新一下" ∷ "update" ∷ "完工" ∷ "当前状态" ∷ "目前" ∷ [])
      ++ first_of content "information_sharing:"
          ("分享" ∷ "通知" ∷ "告知" ∷ "FYI" ∷ "fyi" ∷ "仅供参考" ∷ "参考" ∷ [])
      ++ first_of content "aspirational:" ("打算" ∷ "想试试" ∷ "准备做" ∷ "计划做" ∷ "考虑使用" ∷ "考虑采用" ∷ [])
      ++ first_of content "reporting_others:" ("他说" ∷ "她说" ∷ "反馈说" ∷ "提到" ∷ "提及" ∷ [])

-- The `switch` of `calculateAntiScore`.
unfoldable pub anti_weight : String → ℕ
unfolding strip_prefix
anti_weight s =
    if known (strip_prefix "greeting:" s)
    then 30
    else if str_eq s "pure_emoji"
    then 50
    else if known (strip_prefix "uncertain:" s)
    then 40
    else if str_eq s "pure_question"
    then 30
    else if known (strip_prefix "small_talk:" s)
    then 50
    else if known (strip_prefix "status_update:" s)
    then 50
    else if known (strip_prefix "information_sharing:" s)
    then 40
    else if known (strip_prefix "aspirational:" s)
    then 30
    else if known (strip_prefix "reporting_others:" s)
    then 35
    else 20

unfoldable pub anti_sum : List String → ℕ
unfolding anti_weight
anti_sum [] = 0
anti_sum (s ∷ signals) = anti_weight s + anti_sum signals

unfoldable pub calculate_anti_score : List String → ℕ
unfolding anti_sum
calculate_anti_score signals = let score = anti_sum signals in if ltb 100 score then 100 else score
