-- ===== src/Signal/Updater.antt =====
-- The status updater (internal/signal/status_updater.go): statuses that move on with the time. An
-- instant is a number of nanoseconds; ages are exact, where Go divides float64 hours. The layouts of
-- Go's time package, the weekday, `Sscanf` of a count and lower case are the parameter `Calendar`.
use feishu_agent_mem.Prelude.{
  ℕ, ◌+◌, ◌-◌, ◌*◌, ◌%◌, String, str_append, str_eq, codes, List, [], ◌∷◌, Bool, false, ◌&&◌, ◌||◌,
  not, ltb, ◌==◌, Result, ok, err, Option, none, some, trim_space, contains, is_empty,
  if◌then◌else◌,
}
use feishu_agent_mem.Decision.Types.{
  DecisionNode, DecisionStatus, executing, completed, shelved, deprecated,
}
use feishu_agent_mem.Signal.Texts.{status_text}

abbrev pub hour : ℕ
hour = 3600000000000

abbrev pub day : ℕ
day = 24 * hour

pub record Calendar : Type 0 where
  -- time.Parse(layout, s)
  pub parse : String → String → Option ℕ
  -- now.Weekday(), Sunday being 0
  pub weekday : ℕ → ℕ
  -- The count that `Sscanf` reads by a format, or 0.
  pub scan_count : String → String → ℕ
  pub to_lower : String → String

-- The empty status: no change is needed.
abbrev pub no_change : DecisionStatus
no_change = DecisionStatus.other ""

-- d.Status == name
unfoldable pub has_status : DecisionNode → String → Bool
unfolding status_text
has_status d name = str_eq (status_text d.status) name

module _ (cal : Calendar) where
  unfoldable pub first_parsed : List String → String → Option ℕ
  first_parsed [] s = none
  first_parsed (layout ∷ layouts) s =
      let rest = first_parsed layouts s in
      elim (cal.parse layout s) [ some t ↦ some t | none ↦ rest ]

  -- The formats of the code, time.RFC3339 last.
  abbrev layouts : List String
  layouts =
      "2006-01-02" ∷ "2006-01-02 15:04" ∷ "2006-01-02T15:04:05" ∷ "2006-01-02T15:04:05Z07:00"
      ∷ "2006-01-02T15:04:05Z07:00" ∷ []

  abbrev mentions : String → String → Bool
  mentions text word = contains (codes text) (codes word)

  -- Seven days where the count is none.
  abbrev at_least_one : ℕ → ℕ
  at_least_one n = if n == 0 then 7 else n

  abbrev days_after : ℕ → ℕ → Result ℕ
  days_after now n = ok (now + n * day)

  -- `now` is the clock that the code reads; the differences of weekdays do not fall below 0.
  unfoldable pub relative_time : ℕ → String → String → Result ℕ
  unfolding contains
  relative_time now s lower =
      if mentions lower "今天" || str_eq lower "today"
      then ok now
      else if mentions lower "明天" || str_eq lower "tomorrow"
      then days_after now 1
      else if mentions lower "后天"
      then days_after now 2
      else if mentions lower "下周" || mentions lower "下周一"
      then days_after now (at_least_one ((8 - cal.weekday now) % 7))
      else if mentions lower "下周三"
      then days_after now (at_least_one ((3 + 7 - cal.weekday now) % 7))
      else if mentions lower "下周五"
      then days_after now (at_least_one ((5 + 7 - cal.weekday now) % 7))
      else if mentions lower "天后" && ltb 0 (cal.scan_count "%d天后" lower)
      then days_after now (cal.scan_count "%d天后" lower)
      else if mentions lower "days" && ltb 0 (cal.scan_count "%d days" lower)
      then days_after now (cal.scan_count "%d days" lower)
      else if mentions lower "本周五"
      then days_after now ((5 + 7 - cal.weekday now) % 7)
      else if mentions lower "本周三"
      then days_after now ((3 + 7 - cal.weekday now) % 7)
      else err (str_append "unparseable time: " s)

  unfoldable pub parse_flexible_time : ℕ → String → Result ℕ
  unfolding first_parsed relative_time trim_space is_empty
  parse_flexible_time now raw =
      let s = trim_space raw in
      let relative = relative_time now s (cal.to_lower s) in
      if is_empty s
      then err "empty time string"
      else elim (first_parsed layouts s) [ some t ↦ ok t | none ↦ relative ]

  -- A time is given, is read and is over.
  unfoldable pub is_over : ℕ → ℕ → String → Bool
  unfolding parse_flexible_time is_empty
  is_over now clock text =
      not (is_empty text)
      && elim (parse_flexible_time clock text) [ ok t ↦ ltb t now | err e ↦ false ]

  -- The rules in their order; `c1` and `c2` are the clock readings of the two calls of
  -- `parseFlexibleTime`.
  unfoldable pub evaluate_status : ℕ → ℕ → ℕ → DecisionNode → DecisionStatus
  unfolding has_status
  evaluate_status now c1 c2 d =
      if is_over now c1 d.deadline && (has_status d "decided" || has_status d "executing")
      then completed
      else if is_over now c2 d.effective_time && has_status d "pending"
      then executing
      else if has_status d "in_discussion" && ltb (7 * day) (now - d.created_at)
      then shelved
      else if has_status d "pending" && ltb (30 * day) (now - d.created_at)
      then deprecated
      else no_change

-- newStatus != "" && newStatus != d.Status
unfoldable pub is_change : DecisionStatus → DecisionNode → Bool
unfolding has_status status_text
is_change s d = not (str_eq (status_text s) "") && not (has_status d (status_text s))
