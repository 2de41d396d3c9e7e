-- ===== src/Lark/Caching.antt =====
-- The merge and the size of the batcher's cache (internal/lark-adapter/message_batcher.go).
use feishu_agent_mem.Prelude.{
  ℕ, zero, suc, ◌+◌, ◌-◌, ◌*◌, ◌≤◌, ◌≡◌, ap, refl, arith, String, str_eq, eq_iff, List, [], ◌∷◌,
  ◌++◌, Bool, true, false, any-append, count_if, count_if-append, length, drop, keep, leb, ltb, All,
  Map, insert, Bool-cases, inl, inr, if◌then◌else◌,
}
use feishu_agent_mem.Lark.Batcher.{
  MessageRecord, MessageBatcher, seen, merge_records, last_n, cleanup_entries, cleanup,
  update_cache,
}

-- How many of the messages have the id.
abbrev pub copies : String → List MessageRecord → ℕ
copies message_id = count_if (λ r. str_eq r.message_id message_id)

copies_unseen :
    (message_id : String) (records : List MessageRecord)
    → seen message_id records ≡ false
    → copies message_id records ≡ 0
copies_unseen message_id [] h = refl
copies_unseen message_id (r ∷ records) h = ground (arith, copies_unseen message_id records)

seen_copied :
    (message_id : String) (records : List MessageRecord)
    → seen message_id records ≡ true
    → 1 ≤ copies message_id records
seen_copied message_id [] h = absurd (ground (arith, h))
seen_copied message_id (r ∷ records) h = ground (arith, seen_copied message_id records)

seen-same :
    (k message_id : String) (records : List MessageRecord)
    → str_eq k message_id ≡ true
    → seen k records ≡ seen message_id records
seen-same k message_id records h = ap (λ i. seen i records) ((eq_iff k message_id).0 h)

-- Merging puts each message that is new behind the old ones once, whatever is doubled in what comes
-- in: of every id there are as many copies as before, or one where there was none and one comes in.
copies-merge_records :
    (message_id : String) (incoming existing : List MessageRecord)
    → copies message_id (merge_records existing incoming) ≡ (
        if seen message_id existing
        then copies message_id existing
        else if seen message_id incoming
        then 1
        else 0)
unfolding merge_records
copies-merge_records message_id [] existing = elim (Bool-cases (seen message_id existing)) [
  | inl old ↦ rw old refl
  | inr new ↦ rw new (copies_unseen message_id existing new)
]
copies-merge_records message_id (r ∷ incoming) existing =
    elim (Bool-cases (seen r.message_id existing)) [
      | inl old ↦
          rw (old, copies-merge_records message_id incoming existing)
            (ground (arith, seen-same r.message_id message_id existing))
      | inr new ↦
          rw
            (
              new,
              copies-merge_records message_id incoming (existing ++ r ∷ []),
              any-append,
              count_if-append,
            )
            (ground (
              arith,
              seen-same r.message_id message_id existing,
              copies_unseen message_id existing,
            ))
    ]

length-drop : (n : ℕ) (records : List MessageRecord) → length (drop n records) ≡ length records - n
length-drop zero records = omega arith
length-drop (suc n) [] = omega arith
length-drop (suc n) (r ∷ records) = omega (arith, length-drop n records)

length-last_n : (n : ℕ) (records : List MessageRecord) → length (last_n n records) ≤ n
unfolding last_n
length-last_n n records = omega (arith, length-drop (length records - n) records)

length-keep :
    (p : MessageRecord → Bool) (records : List MessageRecord)
    → length (keep p records) ≤ length records
length-keep p [] = omega arith
length-keep p (r ∷ records) = ground (arith, length-keep p records)

abbrev IsBoundedMap : ℕ → Map (List MessageRecord) → Type 0
IsBoundedMap n chats = All (λ (e : String × List MessageRecord). length e.1 ≤ n) chats

-- Every chat's list in the cache is at most twice the context.
abbrev pub IsBounded : MessageBatcher → Type 0
IsBounded b = IsBoundedMap (b.context_limit * 2) b.chat_cache

insert-IsBoundedMap :
    (n : ℕ) (chat_id : String) (records : List MessageRecord) (chats : Map (List MessageRecord))
    → length records ≤ n
    → IsBoundedMap n chats
    → IsBoundedMap n (insert chat_id records chats)
unfolding insert
insert-IsBoundedMap n chat_id records [] h b = (h, tt)
insert-IsBoundedMap n chat_id records ((k, old) ∷ chats) h b =
    elim (Bool-cases (str_eq k chat_id)) [
      | inl same ↦ rw same (h, b.1)
      | inr other ↦ rw other (b.0, insert-IsBoundedMap n chat_id records chats h b.1)
    ]

-- An entry of the cleanup, deleted if nothing of it is kept, in front of the others.
kept_or_deleted-IsBoundedMap :
    (n : ℕ) (k : String) (kept : List MessageRecord) (others : Map (List MessageRecord))
    → length kept ≤ n
    → IsBoundedMap n others
    → IsBoundedMap n (elim kept [ [] ↦ others | r ∷ rest ↦ (k, r ∷ rest) ∷ others ])
kept_or_deleted-IsBoundedMap n k [] others h b = b
kept_or_deleted-IsBoundedMap n k (r ∷ rest) others h b = (h, b)

cleanup_entries-IsBoundedMap :
    (n cutoff : ℕ) (chats : Map (List MessageRecord))
    → IsBoundedMap n chats
    → IsBoundedMap n (cleanup_entries cutoff chats)
unfolding cleanup_entries
cleanup_entries-IsBoundedMap n cutoff [] b = tt
cleanup_entries-IsBoundedMap n cutoff ((k, records) ∷ chats) b =
    kept_or_deleted-IsBoundedMap n k (keep (λ r. leb cutoff r.create_time) records)
      (cleanup_entries cutoff chats)
      (omega (arith, length-keep (λ r. leb cutoff r.create_time) records, b.0))
      (cleanup_entries-IsBoundedMap n cutoff chats b.1)

cleanup-IsBounded : (now : ℕ) (b : MessageBatcher) → IsBounded b → IsBounded (cleanup now b)
unfolding cleanup
cleanup-IsBounded now b h = elim (Bool-cases (ltb now (b.last_cleanup + b.cache_expiry))) [
  | inl early ↦ rw early h
  | inr due ↦
      rw due
        (cleanup_entries-IsBoundedMap (b.context_limit * 2) (now - b.cache_expiry) b.chat_cache h)
]

-- An update of the cache of a chat, however the messages are sorted, keeps every chat's list at no more
-- than twice the context.
update_cache-IsBounded :
    (sort : List MessageRecord → List MessageRecord) (now : ℕ) (chat_id : String)
    (records : List MessageRecord) (b : MessageBatcher)
    → IsBounded b
    → IsBounded (update_cache sort now chat_id records b)
unfolding update_cache
update_cache-IsBounded sort now chat_id [] b h = h
update_cache-IsBounded sort now chat_id (r ∷ records) b h = cleanup-IsBounded now _ (
    insert-IsBoundedMap (b.context_limit * 2) chat_id _ b.chat_cache
      (length-last_n (b.context_limit * 2) _) h)
