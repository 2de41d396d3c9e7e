-- ===== src/Signal/Emitter.antt =====
-- The emitters (internal/signal/emitter.go) and the constructor of a signal (internal/signal/signal.go).
-- The clock and its text are arguments, lower case is the parameter `to_lower`; the error of an emitter is
-- always nil, a nil signal is `none`. The entities of a change are those of the adapters.
use feishu_agent_mem.Prelude.{
  ℕ, String, str_append, str_eq, List, [], ◌∷◌, ◌++◌, keep, any, Bool, true, false, not, ◌&&◌, ◌||◌,
  codes, contains, ltb, length, Option, none, some, if◌then◌else◌,
}
use feishu_agent_mem.Signal.Types.{
  AdapterType, ChangeType, SignalStrength, StateChangeSignal, im, vc, docs, calendar, task, okr,
  contact, wiki, strong, medium, weak,
}
use feishu_agent_mem.Lark.Discussions.{Change}

pub record DetectResult : Type 0 where
  pub has_changes : Bool
  pub source : String
  pub changes : List Change

-- The map `order`; a key that it lacks gives 0.
unfoldable pub order : SignalStrength → ℕ
order weak = 1
order medium = 2
order strong = 3
order (SignalStrength.other s) = 0

unfoldable pub max_strength : SignalStrength → SignalStrength → SignalStrength
unfolding order
max_strength a b = if ltb (order b) (order a) then a else b

-- What one change does to the strength, if anything, and the decision signals it adds.
pub record Mark : Type 0 where
  pub raised : Option SignalStrength
  pub signals : List String

abbrev unmarked : Mark
unmarked = record { raised = none; signals = [] }

abbrev mark : SignalStrength → List String → Mark
mark strength signals = record { raised = some strength; signals = signals }

unfoldable pub vc_mark : Change → Mark
vc_mark ch =
    if str_eq ch.type "meeting_minutes_available"
    then mark strong ("ai_summary" ∷ [])
    else if str_eq ch.type "minutes_created"
        || str_eq ch.type "minutes_updated"
        || str_eq ch.type "minutes_ai_summary_ready"
    then mark strong ("ai_summary" ∷ [])
    else if str_eq ch.type "meeting_todos"
    then mark strong ("action_items" ∷ [])
    else if str_eq ch.type "meeting_ended"
    then mark medium []
    else unmarked

unfoldable pub docs_mark : Change → Mark
docs_mark ch =
    if str_eq ch.type "doc_decision"
    then mark strong ("decision_doc" ∷ [])
    else if str_eq ch.type "doc_comment_added"
    then mark medium ("doc_comment" ∷ [])
    else if str_eq ch.type "doc_comment_approval"
    then mark strong ("approval_comment" ∷ [])
    else if str_eq ch.type "doc_created" || str_eq ch.type "doc_content_updated"
    then mark medium ("doc_change" ∷ [])
    else unmarked

unfoldable pub calendar_mark : Change → Mark
calendar_mark ch =
    if str_eq ch.type "decision_meeting"
    then mark medium ("review_meeting" ∷ [])
    else mark medium ("calendar_change" ∷ [])

unfoldable pub task_mark : Change → Mark
task_mark ch =
    if str_eq ch.type "task_completed"
    then mark medium ("task_done" ∷ [])
    else if str_eq ch.type "task_created" || str_eq ch.type "task_updated"
    then mark weak []
    else unmarked

unfoldable pub wiki_mark : Change → Mark
wiki_mark ch = mark medium ("wiki_change" ∷ [])

unfoldable pub raise : SignalStrength → Option SignalStrength → SignalStrength
unfolding max_strength
raise strength none = strength
raise strength (some s) = max_strength strength s

-- The loop over the changes: the strength and the decision signals so far.
unfoldable pub raised_by :
    (Change → Mark) → List Change → SignalStrength → List String → SignalStrength × List String
unfolding raise
raised_by marks [] strength signals = (strength, signals)
raised_by marks (ch ∷ changes) strength signals =
    raised_by marks changes (raise strength (marks ch).raised) (signals ++ (marks ch).signals)

-- strength == StrengthWeak
unfoldable pub is_weak : SignalStrength → Bool
is_weak strength = elim strength [
  | weak ↦ true
  | medium ↦ false
  | strong ↦ false
  | SignalStrength.other s ↦ str_eq s "weak"
]

-- if len(result.Changes) > 0 { … result.Changes[0].Summary }
unfoldable pub first_summary : List Change → String
first_summary [] = ""
first_summary (ch ∷ changes) = ch.summary

module _ (now : ℕ) (stamp : String) where
  unfoldable pub new_signal : AdapterType → String → StateChangeSignal
  new_signal adapter summary = record {
    signal_id = str_append "sig-" stamp;
    adapter = adapter;
    timestamp = now;
    event_type = "";
    change_type = ChangeType.other "";
    change_summary = summary;
    primary_id = "";
    related_ids = [];
    comment_id = "";
    context = record {
      keywords = [];
      decision_signals = [];
      mentioned_ids = [];
      actor_id = "";
      participant_ids = [];
      embedded_urls = [];
      content_snippet = "";
      event_time = 0;
      is_decision = false;
    };
    strength = medium;
  }

  -- A signal with the strength, the decision signals and the first summary in it.
  unfoldable pub filled :
      SignalStrength × List String → List Change → StateChangeSignal → StateChangeSignal
  unfolding first_summary
  filled found changes s = record s {
    strength = found.0;
    context = record s.context {
      decision_signals = found.1;
      content_snippet = first_summary changes;
    };
  }

  -- The common body of five emitters.
  unfoldable pub emit_marked :
      AdapterType → String → (Change → Mark) → DetectResult → Option StateChangeSignal
  unfolding raised_by new_signal filled is_weak
  emit_marked adapter summary marks result =
      let found = raised_by marks result.changes weak [] in
      if not result.has_changes
      then none
      else if is_weak found.0
      then none
      else some (filled found result.changes (new_signal adapter summary))

  unfoldable pub emit_always :
      AdapterType → String → SignalStrength → DetectResult → Option StateChangeSignal
  unfolding new_signal
  emit_always adapter summary strength result =
      if not result.has_changes
      then none
      else some (record (new_signal adapter summary) { strength = strength })

  module _ (to_lower : String → String) where
    unfoldable pub match_keywords : String → List String
    unfolding contains
    match_keywords text =
        keep (λ kw. contains (codes (to_lower text)) (codes (to_lower kw)))
          ("决定" ∷ "确认" ∷ "结论" ∷ "通过" ∷ "定下来" ∷ "approve" ∷ "decided" ∷ "confirmed" ∷ [])

    unfoldable pub match_decision_words : String → List String
    unfolding contains
    match_decision_words text =
        if any (λ w. contains (codes text) (codes w))
          ("决定" ∷ "decided" ∷ "确认" ∷ "LGTM" ∷ "lgtm" ∷ "approve" ∷ "通过" ∷ "定下来" ∷ "就这么办" ∷ [])
        then "decision" ∷ []
        else []

    abbrev pub is_pin : Change → Bool
    is_pin ch = str_eq ch.entity_type "pin_message"

    abbrev pub is_new_text : Change → Bool
    is_new_text ch = str_eq ch.type "new_text" || str_eq ch.type "new_post"

    -- The decision signals of a message.
    unfoldable pub im_signals : List Change → List String
    im_signals [] = []
    im_signals (ch ∷ changes) =
        (if is_pin ch then "pin" ∷ [] else [])
        ++ (if is_new_text ch then match_decision_words ch.summary else [])
        ++ im_signals changes

    unfoldable pub im_keywords : List Change → List String
    unfolding match_keywords
    im_keywords [] = []
    im_keywords (ch ∷ changes) =
        (if is_new_text ch then match_keywords ch.summary else []) ++ im_keywords changes

    unfoldable pub emit_im : DetectResult → Option StateChangeSignal
    unfolding im_signals im_keywords new_signal filled is_weak
    emit_im result =
        let strength = if any is_pin result.changes then strong else weak in
        let signals = im_signals result.changes in
        let made =
          filled (strength, signals) result.changes
            (new_signal im (str_append result.source " has changes")) in
        if not result.has_changes
        then none
        else if is_weak strength && not (ltb 0 (length signals))
        then none
        else some (record made {
          context = record made.context { keywords = im_keywords result.changes };
        })

    -- The emitter that `NewEmitters` has for an adapter, at a result; another adapter has none.
    unfoldable pub emit_signal : AdapterType → DetectResult → Option StateChangeSignal
    unfolding emit_im emit_marked emit_always vc_mark docs_mark calendar_mark task_mark wiki_mark
    emit_signal im result = emit_im result
    emit_signal vc result = emit_marked vc "VC changes detected" vc_mark result
    emit_signal docs result = emit_marked docs "Doc changes detected" docs_mark result
    emit_signal calendar result =
        emit_marked calendar "Calendar changes detected" calendar_mark result
    emit_signal task result = emit_marked task "Task changes detected" task_mark result
    emit_signal wiki result = emit_marked wiki "Wiki changes detected" wiki_mark result
    emit_signal okr result = emit_always okr "OKR changes detected" medium result
    emit_signal contact result = emit_always contact "Contact changes detected" weak result
    emit_signal (AdapterType.other s) result = none
