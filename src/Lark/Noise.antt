-- ===== src/Lark/Noise.antt =====
-- The noise filter (internal/lark-adapter/noise_filter.go). Lower case, `strings.ToLower`, is the
-- parameter `to_lower`.
use feishu_agent_mem.Prelude.{
  ℕ, ◌*◌, String, str_eq, List, [], ◌∷◌, Bool, true, ◌&&◌, ◌||◌, not, any, keep, length, count_if,
  leb, ltb, ◌==◌, none, some, known, codes, contains, is_empty, trim_space, strip_prefix,
  behind_space,
}
use feishu_agent_mem.Lark.Batcher.{MessageRecord}

pub record NoiseFilter : Type 0 where
  pub noise_words : List String
  pub noise_topics : List String
  pub min_length : ℕ

abbrev pub new_noise_filter : NoiseFilter
new_noise_filter = record {
  noise_words =
      "好的" ∷ "收到" ∷ "嗯" ∷ "哦" ∷ "OK" ∷ "ok" ∷ "Ok" ∷ "好" ∷ "行" ∷ "是" ∷ "对" ∷ "嗯嗯" ∷ "哈哈" ∷ "嘿嘿"
      ∷ "谢谢" ∷ "感谢" ∷ "辛苦了" ∷ "赞" ∷ "+1" ∷ "1" ∷ "yes" ∷ "no" ∷ "thanks" ∷ "thx" ∷ "got it" ∷ "sure"
      ∷ "lol" ∷ "haha" ∷ "nice" ∷ "good" ∷ "well" ∷ [];
  noise_topics =
      "天气" ∷ "下雨" ∷ "太阳" ∷ "温度" ∷ "热" ∷ "冷" ∷ "吃饭" ∷ "午餐" ∷ "晚餐" ∷ "早餐" ∷ "外卖" ∷ "食堂" ∷ "周末" ∷ "假期"
      ∷ "旅游" ∷ "电影" ∷ "游戏" ∷ "综艺" ∷ "地铁" ∷ "公交" ∷ "堵车" ∷ "迟到" ∷ [];
  min_length = 5;
}

unfoldable pub is_emoji : ℕ → Bool
is_emoji r =
    leb 128512 r && leb r 128591
    || leb 127744 r && leb r 128511
    || leb 128640 r && leb r 128767
    || leb 127456 r && leb r 127487
    || leb 9728 r && leb r 9983
    || leb 9984 r && leb r 10175
    || leb 65024 r && leb r 65039
    || leb 8205 r && leb r 8205
    || leb 129280 r && leb r 129535
    || leb 129536 r && leb r 129647
    || leb 129648 r && leb r 129791

-- What the replacer of `isOnlyEmoji` takes out.
unfoldable pub is_filler : ℕ → Bool
is_filler r = r == 32 || r == 10 || r == 9 || r == b'.' || r == b',' || r == b'!' || r == b'?'

-- More than 0.8 of the characters: 5 * emoji > 4 * all, exactly.
unfoldable pub is_only_emoji : String → Bool
unfolding is_emoji is_filler
is_only_emoji s =
    let cleaned = keep (λ r. not (is_filler r)) (codes s) in
    let emoji = count_if is_emoji cleaned in
    let total = length cleaned in
    ltb 0 total && (emoji == total || ltb 0 emoji && ltb (4 * total) (5 * emoji))

module _ (to_lower : String → String) where
  abbrev pub mentions : String → String → Bool
  mentions text word = contains (codes text) (codes word)

  unfoldable pub contains_decision_signal : String → Bool
  unfolding contains
  contains_decision_signal text =
      any (λ s. mentions (to_lower text) (to_lower s))
        ("决定" ∷ "确认" ∷ "采用" ∷ "选择" ∷ "结论" ∷ "通过" ∷ "方案" ∷ "选型" ∷ "确认" ∷ "批准" ∷ "同意" ∷ "拒绝"
          ∷ "decide" ∷ "confirm" ∷ "adopt" ∷ "select" ∷ "choose" ∷ "approve" ∷ "agree" ∷ "reject"
          ∷ "conclusion" ∷ [])

  unfoldable pub contains_noise_topic : String → List String → Bool
  unfolding contains
  contains_noise_topic text topics = any (mentions text) topics

  unfoldable pub is_noise_word : String → List String → Bool
  is_noise_word content words = any (λ w. str_eq (to_lower content) (to_lower w)) words

  -- No comment behind the link, or one of fewer than three characters.
  unfoldable pub is_link_only : String → Bool
  unfolding contains trim_space strip_prefix behind_space
  is_link_only content =
      let trimmed = trim_space content in
      mentions (to_lower content) "http"
      && (known (strip_prefix "http://" trimmed) || known (strip_prefix "https://" trimmed))
      && elim (behind_space trimmed) [
        | none ↦ true
        | some comment ↦ ltb (length (codes (trim_space comment))) 3
      ]

  unfoldable pub is_noise : NoiseFilter → MessageRecord → Bool
  unfolding trim_space is_empty is_only_emoji is_noise_word contains_decision_signal
      contains_noise_topic is_link_only
  is_noise f r =
      let content = trim_space r.content in
      is_empty content
      || is_only_emoji content
      || is_noise_word content f.noise_words
      || ltb (length (codes content)) f.min_length && not (contains_decision_signal content)
      || contains_noise_topic (to_lower content) f.noise_topics
        && not (contains_decision_signal content)
      || is_link_only content

  unfoldable pub is_noise_for_doc : String → Bool
  unfolding trim_space is_empty is_noise_word
  is_noise_for_doc comment =
      let text = trim_space comment in
      is_empty text || is_noise_word text ("LGTM" ∷ "lgtm" ∷ "+1" ∷ "👍" ∷ "好的" ∷ "收到" ∷ [])
