-- ===== src/Signal/Emitting.antt =====
-- The signals that the emitters make (internal/signal/emitter.go).
use feishu_agent_mem.Prelude.{
  codes, contains, ◌||◌, ℕ, ◌≤◌, ◌≡◌, String, str_eq, any, List, [], ◌∷◌, All, Bool, true, false,
  not, ◌&&◌, ltb, length, Option, none, some, if◌then◌else◌,
}
use feishu_agent_mem.Signal.Types.{
  AdapterType, SignalStrength, StateChangeSignal, im, vc, docs, calendar, task, okr, contact, wiki,
  strong,
}
use feishu_agent_mem.Lark.Discussions.{Change}
use feishu_agent_mem.Signal.Emitter.{
  DetectResult, Mark, order, is_weak, vc_mark, docs_mark, calendar_mark, task_mark, wiki_mark,
}

-- How strong a change is by itself.
unfoldable pub order_of : Option SignalStrength → ℕ
unfolding order
order_of none = 0
order_of (some s) = order s

-- A pinned message alone makes a signal strong.
unfoldable pub pin_mark : Change → Mark
pin_mark ch =
    if str_eq ch.entity_type "pin_message"
    then record { raised = some strong; signals = [] }
    else record { raised = none; signals = [] }

abbrev has_pin : List Change → Bool
has_pin = any (λ c. str_eq c.entity_type "pin_message")

-- What the changes of an adapter are by themselves; two adapters look at none of them.
unfoldable pub marks_of : AdapterType → Change → Mark
unfolding pin_mark vc_mark docs_mark calendar_mark task_mark wiki_mark
marks_of im = pin_mark
marks_of vc = vc_mark
marks_of docs = docs_mark
marks_of calendar = calendar_mark
marks_of task = task_mark
marks_of wiki = wiki_mark
marks_of _ = λ ch. record { raised = none; signals = [] }

-- The adapters whose signals may be weak.
unfoldable pub may_be_weak : AdapterType → Bool
may_be_weak im = true
may_be_weak contact = true
may_be_weak _ = false

abbrev is_notable : AdapterType → Change → Bool
is_notable adapter ch = ltb 1 (order_of (marks_of adapter ch).raised)

-- A new message with a word of decision in it.
unfoldable pub is_decisive : Change → Bool
unfolding contains
is_decisive ch =
    (str_eq ch.type "new_text" || str_eq ch.type "new_post")
    && any (λ w. contains (codes ch.summary) (codes w))
        ("决定" ∷ "decided" ∷ "确认" ∷ "LGTM" ∷ "lgtm" ∷ "approve" ∷ "通过" ∷ "定下来" ∷ "就这么办" ∷ [])

-- There is something to emit in the changes: for the messages a pin or a decisive text, for the
-- objectives and the contacts anything, for the other adapters a change above weak; a kind of
-- adapter without an emitter has nothing.
unfoldable pub has_news : AdapterType → List Change → Bool
has_news im changes = any (is_notable im) changes || any is_decisive changes
has_news okr changes = true
has_news contact changes = true
has_news (AdapterType.other name) changes = false
has_news adapter changes = any (is_notable adapter) changes

-- What an adapter emits from a result.
abbrev pub IsEmitted : AdapterType → DetectResult → Option StateChangeSignal → Type 0
IsEmitted adapter result none = (result.has_changes && has_news adapter result.changes ≡ false)
IsEmitted adapter result (some s) =
    (result.has_changes && has_news adapter result.changes ≡ true)
    × ((s.adapter ≡ adapter)
        × ((is_weak s.strength && not (may_be_weak adapter) ≡ false)
            × All (λ (ch : Change). order_of (marks_of adapter ch).raised ≤ order s.strength)
                result.changes))

abbrev is_filled : List String → Bool
is_filled texts = ltb 0 (length texts)
