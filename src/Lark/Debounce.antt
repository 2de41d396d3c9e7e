-- ===== src/Lark/Debounce.antt =====
-- The debounce tracker of documents (internal/lark-adapter/debounce_tracker.go). Every method holds
-- the tracker's mutex for its whole body, so a call is one step; its clock reading is an argument.
-- The state file, whose errors the source ignores, and the texts of the reasons are left out.
use feishu_agent_mem.Prelude.{
  ℕ, ◌+◌, ◌-◌, String, str_eq, List, [], ◌∷◌, Option, some, none, Bool, true, false, not, ◌&&◌, leb,
  ltb, Map, lookup, insert, if◌then◌else◌,
}

pub record DocEditState : Type 0 where
  pub doc_token : String
  pub last_change : ℕ
  pub first_detected : ℕ
  pub is_staged : Bool
  pub processed_at : Option ℕ
  pub content_hash : String

pub record DocDebounceTracker : Type 0 where
  pub states : Map DocEditState
  pub debounce_window : ℕ

unfoldable pub new_doc_debounce_tracker : ℕ → DocDebounceTracker
new_doc_debounce_tracker window = record { states = []; debounce_window = window }

-- The state that the source starts with when it sees a document for the first time.
abbrev pub first_state : ℕ → String → DocEditState
first_state now doc_token = record {
  doc_token = doc_token;
  last_change = now;
  first_detected = now;
  is_staged = false;
  processed_at = none;
  content_hash = "";
}

abbrev pub state_or_first : ℕ → String → DocDebounceTracker → DocEditState
state_or_first now doc_token t = elim (lookup doc_token t.states) [
  | none ↦ first_state now doc_token
  | some state ↦ state
]

-- Only a hash that is there and differs starts the window again.
unfoldable pub with_content : ℕ → String → DocEditState → DocEditState
with_content now content_hash state =
    if not (str_eq content_hash "") && not (str_eq state.content_hash content_hash)
    then record state { is_staged = false; content_hash = content_hash; last_change = now }
    else state

unfoldable pub on_document_changed : ℕ → String → String → DocDebounceTracker → DocDebounceTracker
unfolding with_content
on_document_changed now doc_token content_hash t = record t {
  states =
      insert doc_token (with_content now content_hash (state_or_first now doc_token t)) t.states;
}

-- Why a document may or may not be processed.
pub data Reason : Type 0 where
  no_prior_state ready : Reason
  waiting : ℕ → Reason
  already_processed : Option ℕ → Reason

-- What `CanProcessNow` says of the state that it finds. `time.Since(LastChange) < window` is
-- `now < LastChange + window`.
unfoldable pub judge : ℕ → ℕ → Option DocEditState → Bool × Reason
judge now window none = (true, no_prior_state)
judge now window (some state) =
    if ltb now (state.last_change + window)
    then (false, waiting (state.last_change + window - now))
    else if state.is_staged && not (str_eq state.content_hash "")
    then (false, already_processed state.processed_at)
    else (true, ready)

unfoldable pub can_process_now : ℕ → String → DocDebounceTracker → Bool × Reason
unfolding judge
can_process_now now doc_token t = judge now t.debounce_window (lookup doc_token t.states)

unfoldable pub mark_state : ℕ → String → DocEditState → DocEditState
mark_state now content_hash state = record state {
  is_staged = true;
  processed_at = some now;
  content_hash = if str_eq content_hash "" then state.content_hash else content_hash;
}

unfoldable pub mark_processed : ℕ → String → String → DocDebounceTracker → DocDebounceTracker
unfolding mark_state
mark_processed now doc_token content_hash t = elim (lookup doc_token t.states) [
  | none ↦ t
  | some state ↦ record t { states = insert doc_token (mark_state now content_hash state) t.states }
]

unfoldable pub get_state : String → DocDebounceTracker → Option DocEditState
get_state doc_token t = lookup doc_token t.states

unfoldable pub ready_in : ℕ → ℕ → Map DocEditState → List String
ready_in now window [] = []
ready_in now window ((doc_token, state) ∷ rest) =
    let others = ready_in now window rest in
    if state.is_staged
    then others
    else if leb (state.last_change + window) now
    then doc_token ∷ others
    else others

unfoldable pub get_ready_docs : ℕ → DocDebounceTracker → List String
unfolding ready_in
get_ready_docs now t = ready_in now t.debounce_window t.states

-- The calls that change the tracker.
pub data Call : Type 0 where
  changed : ℕ → String → String → Call
  processed : ℕ → String → String → Call

unfoldable pub perform : Call → DocDebounceTracker → DocDebounceTracker
unfolding on_document_changed mark_processed
perform (changed now doc_token content_hash) t = on_document_changed now doc_token content_hash t
perform (processed now doc_token content_hash) t = mark_processed now doc_token content_hash t

unfoldable pub perform_all : List Call → DocDebounceTracker → DocDebounceTracker
unfolding perform
perform_all [] t = t
perform_all (call ∷ calls) t = perform_all calls (perform call t)
