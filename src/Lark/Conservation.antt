-- ===== src/Lark/Conservation.antt =====
-- The discussion groups hold the messages (internal/lark-adapter/message_batcher.go).
use mathlib.Core.List.{append_assoc}
use feishu_agent_mem.Prelude.{
  ℕ, ◌+◌, ◌≡◌, refl, ◌∙◌, ap, sym, arith, String, List, [], ◌∷◌, ◌++◌, Bool, not, keep, map,
  count_if, count_if-append, Map, insert, slice_at, lookup,
}
use feishu_agent_mem.Lark.Batcher.{MessageRecord, group_by_time_and_keywords}
use feishu_agent_mem.Lark.Grouping.{concat, group_by_time_and_keywords_lem}
use feishu_agent_mem.Lark.Noise.{NoiseFilter}
use feishu_agent_mem.Lark.Discussions.{
  thread_groups, group_messages, valid_messages, has_no_thread, five_minutes,
}

abbrev values : Map (List MessageRecord) → List (List MessageRecord)
values groups = map (λ g. g.1) groups

concat-append : (a b : List (List MessageRecord)) → concat (a ++ b) ≡ concat a ++ concat b
concat-append [] b = refl
concat-append (g ∷ a) b =
    ap (λ l. g ++ l) (concat-append a b) ∙ sym (append_assoc g (concat a) (concat b))

module _ (p : MessageRecord → Bool) where
  abbrev held : Map (List MessageRecord) → ℕ
  held groups = count_if p (concat (values groups))

  held-insert :
      (k : String) (r : MessageRecord) (groups : Map (List MessageRecord))
      → held (insert k (slice_at k groups ++ r ∷ []) groups) ≡ held groups + count_if p (r ∷ [])
  unfolding insert slice_at lookup
  held-insert k r [] = ground arith
  held-insert k r ((j, w) ∷ groups) =
      let rest = concat (values groups) in
      ground (
        arith,
        held-insert k r groups,
        count_if-append p w (r ∷ []),
        count_if-append p (w ++ r ∷ []) rest,
        count_if-append p w rest,
        count_if-append p w (concat (values (insert k (slice_at k groups ++ r ∷ []) groups))),
      )

  held-thread_groups :
      (records : List MessageRecord) (groups : Map (List MessageRecord))
      → held (thread_groups records groups)
        ≡ held groups + count_if p (keep (λ r. not (has_no_thread r)) records)
  unfolding thread_groups
  held-thread_groups [] groups = omega arith
  held-thread_groups (r ∷ records) groups =
      let added = insert r.thread_id (slice_at r.thread_id groups ++ r ∷ []) groups in
      ground (
        arith,
        held-thread_groups records groups,
        held-thread_groups records added,
        held-insert r.thread_id r groups,
      )

  count_if-split :
      (q : MessageRecord → Bool) (records : List MessageRecord)
      → count_if p (keep (λ r. not (q r)) records) + count_if p (keep q records)
        ≡ count_if p records
  count_if-split q [] = omega arith
  count_if-split q (r ∷ records) = ground (arith, count_if-split q records)

  -- Every message that is no noise is in the groups as often as it is in the list, by every test, and
  -- nothing else is in them.
  pub count_if-group_messages :
      (to_lower : String → String) (english_words : String → List (List ℕ)) (f : NoiseFilter)
      (records : List MessageRecord)
      → count_if p (concat (group_messages to_lower english_words f records))
        ≡ count_if p (valid_messages to_lower f records)
  unfolding group_messages
  count_if-group_messages to_lower english_words f records =
      let valid = valid_messages to_lower f records in
      let threads = thread_groups valid [] in
      let alone = keep has_no_thread valid in
      let timed = group_by_time_and_keywords english_words alone five_minutes in
      rw
        (
          concat-append (values threads) timed,
          (group_by_time_and_keywords_lem english_words five_minutes alone).0,
          count_if-append p (concat (values threads)) alone,
        )
        (omega (arith, held-thread_groups valid [], count_if-split has_no_thread valid))
