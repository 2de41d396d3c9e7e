-- ===== src/Lark/Batcher.antt =====
-- The message batcher (internal/lark-adapter/message_batcher.go): the cache of each chat, the history
-- that is read from it, and the grouping of messages by time and keywords. Every method of the cache
-- holds the mutex for its whole body. A time is a number of seconds. Two things of Go's library are
-- parameters: `sort.Slice`, which leaves the order of equal times open, and the English words that
-- `strings.Fields`, `Trim` and `ToLower` make of a text.
use feishu_agent_mem.Prelude.{
  ℕ, ◌+◌, ◌-◌, ◌*◌, String, str_eq, List, [], ◌∷◌, ◌++◌, Bool, true, not, ◌&&◌, ◌||◌, any, keep,
  length, take, drop, leb, ltb, Map, insert, slice_at, codes, same_text, if◌then◌else◌,
}

pub record MessageRecord : Type 0 where
  pub message_id : String
  pub chat_id : String
  pub thread_id : String
  pub sender_id : String
  pub sender_name : String
  pub content : String
  pub msg_type : String
  pub create_time : ℕ
  pub mentions : List String

pub record MessageBatcher : Type 0 where
  pub chat_cache : Map (List MessageRecord)
  pub context_limit : ℕ
  pub cache_expiry : ℕ
  pub last_cleanup : ℕ

unfoldable pub new_message_batcher : ℕ → MessageBatcher
new_message_batcher now = record {
  chat_cache = [];
  context_limit = 30;
  cache_expiry = 1800;
  last_cleanup = now;
}

-- The test `seen[r.MessageID]`.
abbrev pub seen : String → List MessageRecord → Bool
seen message_id = any (λ r. str_eq r.message_id message_id)

unfoldable pub merge_records : List MessageRecord → List MessageRecord → List MessageRecord
merge_records merged [] = merged
merge_records merged (r ∷ incoming) =
    merge_records (if seen r.message_id merged then merged else merged ++ r ∷ []) incoming

-- records[len(records)-n:], if there are more than n
unfoldable pub last_n : ℕ → List MessageRecord → List MessageRecord
last_n n records = drop (length records - n) records

-- The loop of the cleanup: an entry with nothing left is deleted.
unfoldable pub cleanup_entries : ℕ → Map (List MessageRecord) → Map (List MessageRecord)
cleanup_entries cutoff [] = []
cleanup_entries cutoff ((chat_id, records) ∷ rest) =
    let others = cleanup_entries cutoff rest in
    elim (keep (λ r. leb cutoff r.create_time) records) [
      | [] ↦ others
      | r ∷ kept ↦ (chat_id, r ∷ kept) ∷ others
    ]

unfoldable pub cleanup : ℕ → MessageBatcher → MessageBatcher
unfolding cleanup_entries
cleanup now b = if ltb now (b.last_cleanup + b.cache_expiry) then b else record b {
  last_cleanup = now;
  chat_cache = cleanup_entries (now - b.cache_expiry) b.chat_cache;
}

unfoldable pub update_cache :
    (List MessageRecord → List MessageRecord)
    → ℕ
    → String
    → List MessageRecord
    → MessageBatcher
    → MessageBatcher
unfolding merge_records last_n cleanup
update_cache sort now chat_id [] b = b
update_cache sort now chat_id (r ∷ records) b =
    let existing = sort (merge_records (slice_at chat_id b.chat_cache) (r ∷ records)) in
    cleanup now (record b {
      chat_cache = insert chat_id (last_n (b.context_limit * 2) existing) b.chat_cache;
    })

unfoldable pub find_thread_history : String → ℕ → String → MessageBatcher → List MessageRecord
unfolding last_n
find_thread_history thread_id before_time chat_id b = last_n b.context_limit (
    keep (λ r. str_eq r.thread_id thread_id && ltb r.create_time before_time)
      (slice_at chat_id b.chat_cache))

unfoldable pub find_chat_history :
    String → ℕ → String → String → MessageBatcher → List MessageRecord
unfolding last_n
find_chat_history chat_id before_time exclude_thread_id exclude_msg_id b = last_n b.context_limit (
    keep
      (λ r.
        ltb r.create_time before_time
        && not (str_eq r.message_id exclude_msg_id)
        && (str_eq r.thread_id "" || str_eq r.thread_id exclude_thread_id))
      (slice_at chat_id b.chat_cache))

unfoldable pub is_chinese : ℕ → Bool
is_chinese r = leb 19968 r && leb r 40959

unfoldable pub all_chinese : List ℕ → Bool
unfolding is_chinese
all_chinese [] = true
all_chinese (r ∷ s) = is_chinese r && all_chinese s

-- The first characters as a word, if there are so many and all are Chinese.
unfoldable pub word_of : ℕ → List ℕ → List (List ℕ)
unfolding all_chinese
word_of n runes =
    if leb n (length runes) && all_chinese (take n runes) then take n runes ∷ [] else []

-- The words of 4, 3 and 2 Chinese characters from every place on.
unfoldable pub chinese_words : List ℕ → List (List ℕ)
unfolding is_chinese word_of
chinese_words [] = []
chinese_words (r ∷ runes) =
    let rest = chinese_words runes in
    let here = word_of 4 (r ∷ runes) ++ (word_of 3 (r ∷ runes) ++ word_of 2 (r ∷ runes)) in
    (if is_chinese r then here else []) ++ rest

module _ (english_words : String → List (List ℕ)) where
  unfoldable pub extract_words : String → List (List ℕ)
  unfolding chinese_words
  extract_words text = english_words text ++ chinese_words (codes text)

  unfoldable pub has_keyword_overlap : List MessageRecord → MessageRecord → Bool
  unfolding extract_words same_text
  has_keyword_overlap group new_msg =
      any (λ w. any (λ (msg : MessageRecord). any (same_text w) (extract_words msg.content)) group)
        (extract_words new_msg.content)

  -- Within the window behind the message before it, and with a word of the group.
  abbrev pub joins : ℕ → List MessageRecord → MessageRecord → MessageRecord → Bool
  joins window current prev r =
      leb r.create_time (prev.create_time + window) && has_keyword_overlap current r

  -- The loop, with the current group and `records[i-1]`.
  unfoldable pub group_from :
      ℕ → List MessageRecord → MessageRecord → List MessageRecord → List (List MessageRecord)
  unfolding has_keyword_overlap
  group_from window current prev [] = current ∷ []
  group_from window current prev (r ∷ records) =
      let joined = joins window current prev r in
      let rest = group_from window (if joined then current ++ r ∷ [] else r ∷ []) r records in
      if joined then rest else current ∷ rest

  unfoldable pub group_by_time_and_keywords : List MessageRecord → ℕ → List (List MessageRecord)
  unfolding group_from
  group_by_time_and_keywords [] window = []
  group_by_time_and_keywords (r ∷ records) window = group_from window (r ∷ []) r records
