-- ===== src/Lark/Discussions.antt =====
-- The discussion groups of messages and their contexts (internal/lark-adapter/message_batcher.go,
-- context_message.go and `truncateContent` of lark_im.go). The map of the threads has the order of its
-- list; an index is a number from 0.
use feishu_agent_mem.Prelude.{
  ℕ, suc, ◌+◌, String, str_append, str_eq, List, [], ◌∷◌, ◌++◌, Bool, not, ◌||◌, keep, map, length,
  take, leb, ltb, Map, insert, lookup, slice_at, codes, fields, trim_space, first_runes, is_empty,
  Option, none, some, if◌then◌else◌,
}
use feishu_agent_mem.Graph.Access.{exchange_sort}
use feishu_agent_mem.Lark.Batcher.{
  MessageRecord, MessageBatcher, group_by_time_and_keywords, find_thread_history, find_chat_history,
}
use feishu_agent_mem.Lark.Noise.{NoiseFilter, is_noise}

-- The fields of `Change` that the batcher sets.
pub record Change : Type 0 where
  pub type : String
  pub entity_type : String
  pub entity_id : String
  pub summary : String
  pub timestamp : ℕ
  pub chat_id : String
  pub thread_id : String
  pub sender_id : String
  pub sender_name : String
  pub mention_ids : List String
  pub raw_content : String
  pub context_text : String

pub record ContextMessage : Type 0 where
  pub change : Change
  pub chat_history : List MessageRecord
  pub thread_history : List MessageRecord
  pub message_index : ℕ
  pub keywords : List String

unfoldable pub truncate_content : String → ℕ → String
unfolding first_runes
truncate_content s max_len =
    if leb (length (codes s)) max_len then s else str_append (first_runes max_len s) "..."

-- seen[w]++
unfoldable pub count_word : String → Map ℕ → Map ℕ
unfolding lookup insert
count_word w seen = insert w (elim (lookup w seen) [ none ↦ 1 | some n ↦ suc n ]) seen

unfoldable pub count_words : List String → Map ℕ → Map ℕ
unfolding count_word trim_space
count_words [] seen = seen
count_words (w ∷ words) seen =
    count_words words
      (if ltb (length (codes (trim_space w))) 2 then seen else count_word (trim_space w) seen)

unfoldable pub count_records : List MessageRecord → Map ℕ → Map ℕ
unfolding count_words fields
count_records [] seen = seen
count_records (r ∷ records) seen =
    count_records records
      (if str_eq r.msg_type "text" then count_words (fields r.content) seen else seen)

-- Every caller asks for a positive number of keywords.
unfoldable pub extract_keywords : List MessageRecord → ℕ → List String
unfolding count_records exchange_sort
extract_keywords records max_keywords =
    map (λ kw. kw.0)
      (take max_keywords (exchange_sort (λ a b. ltb a.1 b.1) (count_records records [])))

-- Each message into the list of its thread.
unfoldable pub thread_groups :
    List MessageRecord → Map (List MessageRecord) → Map (List MessageRecord)
unfolding insert slice_at
thread_groups [] groups = groups
thread_groups (r ∷ records) groups = thread_groups records (
    if str_eq r.thread_id ""
    then groups
    else insert r.thread_id (slice_at r.thread_id groups ++ r ∷ []) groups)

abbrev pub has_no_thread : MessageRecord → Bool
has_no_thread r = str_eq r.thread_id ""

abbrev pub five_minutes : ℕ
five_minutes = 300

module _ (to_lower : String → String) where
  unfoldable pub valid_messages : NoiseFilter → List MessageRecord → List MessageRecord
  unfolding is_noise
  valid_messages f records = keep (λ r. not (is_noise to_lower f r)) records

  unfoldable pub group_messages :
      (String → List (List ℕ)) → NoiseFilter → List MessageRecord → List (List MessageRecord)
  unfolding valid_messages thread_groups group_by_time_and_keywords
  group_messages english_words f records =
      let valid = valid_messages f records in
      map (λ g. g.1) (thread_groups valid [])
      ++ group_by_time_and_keywords english_words (keep has_no_thread valid) five_minutes

-- "sender: content\n" of each message, the content cut to a length.
unfoldable pub quoted_lines : ℕ → List MessageRecord → String
unfolding truncate_content
quoted_lines n [] = ""
quoted_lines n (r ∷ records) = str_append r.sender_name (
    str_append ": "
      (str_append (truncate_content r.content n) (str_append "\n" (quoted_lines n records))))

unfoldable pub last_message : MessageRecord → List MessageRecord → MessageRecord
last_message r [] = r
last_message r (next ∷ rest) = last_message next rest

unfoldable pub build_group_context : List MessageRecord → Option ContextMessage
unfolding last_message quoted_lines truncate_content extract_keywords
build_group_context [] = none
build_group_context (r ∷ group) =
    let last = last_message r group in
    let text = str_append "【群聊讨论内容】\n" (quoted_lines 300 (r ∷ group)) in
    some (record {
      change = record {
        type = "new_text";
        entity_type = "group_message";
        entity_id = last.message_id;
        summary =
            str_append "[群聊] "
              (str_append last.sender_name (str_append ": " (truncate_content last.content 60)));
        timestamp = last.create_time;
        chat_id = last.chat_id;
        thread_id = last.thread_id;
        sender_id = last.sender_id;
        sender_name = last.sender_name;
        mention_ids = last.mentions;
        raw_content = text;
        context_text = text;
      };
      chat_history = [];
      thread_history = [];
      message_index = length (r ∷ group);
      keywords = extract_keywords (r ∷ group) 5;
    })

-- The histories of `BuildContext`.
unfoldable pub context_histories :
    MessageRecord → MessageBatcher → List MessageRecord × List MessageRecord
unfolding find_thread_history find_chat_history
context_histories r b = (
  if is_empty r.thread_id then [] else find_thread_history r.thread_id r.create_time r.chat_id b,
  find_chat_history r.chat_id r.create_time r.thread_id r.message_id b,
)

unfoldable pub build_context : MessageRecord → ℕ → MessageBatcher → ContextMessage
unfolding context_histories extract_keywords truncate_content
build_context r index b =
    let histories = context_histories r b in
    record {
      change = record {
        type = if str_eq r.msg_type "text" || str_eq r.msg_type "post" then "new_text" else "new";
        entity_type = "group_message";
        entity_id = r.message_id;
        summary = truncate_content r.content 60;
        timestamp = r.create_time;
        chat_id = r.chat_id;
        thread_id = r.thread_id;
        sender_id = r.sender_id;
        sender_name = r.sender_name;
        mention_ids = r.mentions;
        raw_content = r.content;
        context_text = "";
      };
      chat_history = histories.1;
      thread_history = histories.0;
      message_index = index + 1;
      keywords = extract_keywords (histories.0 ++ histories.1) 5;
    }

unfoldable pub history_block : String → List MessageRecord → String
unfolding quoted_lines
history_block heading [] = ""
history_block heading (r ∷ records) =
    str_append heading (str_append (quoted_lines 200 (r ∷ records)) "\n")

unfoldable pub build_llm_input : ContextMessage → String
unfolding history_block is_empty
build_llm_input cm =
    let sender = if is_empty cm.change.sender_name then "unknown" else cm.change.sender_name in
    let content =
      if is_empty cm.change.raw_content then cm.change.summary else cm.change.raw_content in
    str_append (history_block "【同一话题的历史讨论】\n" cm.thread_history) (
      str_append (history_block "【最近聊天记录】\n" cm.chat_history)
        (str_append "【当前消息】\n" (str_append sender (str_append ": " (str_append content "\n")))))
