-- ===== src/Lark/Grouping.antt =====
-- The grouping by time and keywords (internal/lark-adapter/message_batcher.go).
use mathlib.Core.List.{append_assoc}
use feishu_agent_mem.Prelude.{
  ℕ, ◌+◌, ◌≤◌, ◌≡◌, ◌≢◌, ◌∙◌, sym, ap, subst, refl, arith, String, List, [], ◌∷◌, ◌++◌, All,
  Bool-cases, inl, inr,
}
use feishu_agent_mem.Lark.Batcher.{MessageRecord, joins, group_from, group_by_time_and_keywords}

abbrev pub concat : List (List MessageRecord) → List MessageRecord
concat [] = []
concat (g ∷ groups) = g ++ concat groups

-- Each message of the list is at most the window later than the one before it.
abbrev pub IsClose : ℕ → List MessageRecord → Type 0
IsClose window [] = Unit
IsClose window (r ∷ rest) = elim rest [
  | [] ↦ Unit
  | next ∷ others ↦ (next.create_time ≤ r.create_time + window) × IsClose window rest
]

module _ (english_words : String → List (List ℕ)) (window : ℕ) where
  concat-group_from :
      (current : List MessageRecord) (prev : MessageRecord) (records : List MessageRecord)
      → concat (group_from english_words window current prev records) ≡ current ++ records
  unfolding group_from
  concat-group_from current prev [] = refl
  concat-group_from current prev (r ∷ records) =
      elim (Bool-cases (joins english_words window current prev r)) [
        | inl yes_join ↦ rw yes_join (
            concat-group_from (current ++ r ∷ []) r records ∙ append_assoc current (r ∷ []) records)
        | inr no_join ↦ rw no_join (ap (λ l. current ++ l) (concat-group_from (r ∷ []) r records))
      ]

  snoc_ne : (init : List MessageRecord) (prev : MessageRecord) → init ++ prev ∷ [] ≢ []
  snoc_ne [] prev e = cc
  snoc_ne (a ∷ init) prev e = cc

  IsClose-snoc :
      (init : List MessageRecord) (prev r : MessageRecord)
      → r.create_time ≤ prev.create_time + window
      → IsClose window (init ++ prev ∷ [])
      → IsClose window ((init ++ prev ∷ []) ++ r ∷ [])
  IsClose-snoc [] prev r h c = (h, tt)
  IsClose-snoc (a ∷ []) prev r h c = (c.0, IsClose-snoc [] prev r h c.1)
  IsClose-snoc (a ∷ b ∷ init) prev r h c = (c.0, IsClose-snoc (b ∷ init) prev r h c.1)

  -- A group with its last message.
  record IsGroup (current : List MessageRecord) (prev : MessageRecord) : Type 0 where
    init : List MessageRecord
    split : current ≡ init ++ prev ∷ []
    close : IsClose window current

  abbrev pub IsDiscussion : List MessageRecord → Type 0
  IsDiscussion g = (g ≢ []) × IsClose window g

  IsGroup-snoc :
      (current : List MessageRecord) (prev r : MessageRecord)
      → r.create_time ≤ prev.create_time + window
      → IsGroup current prev
      → IsGroup (current ++ r ∷ []) r
  IsGroup-snoc current prev r h g = record {
    init = current;
    split = refl;
    close = rw g.split (IsClose-snoc g.init prev r h (subst (IsClose window) g.split g.close));
  }

  IsGroup-IsDiscussion :
      (current : List MessageRecord) (prev : MessageRecord)
      → IsGroup current prev
      → IsDiscussion current
  IsGroup-IsDiscussion current prev g = (λ e. snoc_ne g.init prev (sym g.split ∙ e), g.close)

  group_from-IsDiscussion :
      (current : List MessageRecord) (prev : MessageRecord) (records : List MessageRecord)
      → IsGroup current prev
      → All IsDiscussion (group_from english_words window current prev records)
  unfolding group_from
  group_from-IsDiscussion current prev [] g = (IsGroup-IsDiscussion current prev g, tt)
  group_from-IsDiscussion current prev (r ∷ records) g =
      elim (Bool-cases (joins english_words window current prev r)) [
        | inl yes_join ↦ rw yes_join (
            group_from-IsDiscussion (current ++ r ∷ []) r records
              (IsGroup-snoc current prev r (ground (arith, yes_join)) g))
        | inr no_join ↦ rw no_join (
          IsGroup-IsDiscussion current prev g,
          group_from-IsDiscussion (r ∷ []) r records
              (record { init = []; split = refl; close = tt }),
        )
      ]

  -- The groups of a list of messages, one behind the other, are the list: no message is lost, doubled or
  -- moved. No group is empty, and in each every message is at most the window later than the one before.
  pub group_by_time_and_keywords_lem :
      (records : List MessageRecord)
      → let groups = group_by_time_and_keywords english_words records window in
        (concat groups ≡ records) × All IsDiscussion groups
  unfolding group_by_time_and_keywords
  group_by_time_and_keywords_lem [] = (refl, tt)
  group_by_time_and_keywords_lem (r ∷ records) = (
    concat-group_from (r ∷ []) r records,
    group_from-IsDiscussion (r ∷ []) r records (record { init = []; split = refl; close = tt }),
  )
