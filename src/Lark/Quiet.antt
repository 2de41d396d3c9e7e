-- ===== src/Lark/Quiet.antt =====
-- The debounce tracker behind a changed document (internal/lark-adapter/debounce_tracker.go).
use feishu_agent_mem.Prelude.{
  map_laws, ℕ, ◌+◌, String, str_eq, str_eq_refl, eq_iff, some, none, leb, ◌≡◌, ◌≢◌, ◌∙◌, sym, refl,
  arith, if◌then◌else◌,
}
use feishu_agent_mem.Lark.Debounce.{
  DocEditState, DocDebounceTracker, with_content, on_document_changed, can_process_now, get_state,
  judge, state_or_first,
}

-- The hash that the tracker holds for a document, empty if it does not know it.
abbrev pub content_of : String → DocDebounceTracker → String
content_of doc_token t = elim (get_state doc_token t) [
  | none ↦ ""
  | some state ↦ state.content_hash
]

pub can_process_now-get_state :
    (now : ℕ) (doc_token : String) (t : DocDebounceTracker)
    → can_process_now now doc_token t ≡ judge now t.debounce_window (get_state doc_token t)
unfolding can_process_now get_state
can_process_now-get_state now doc_token t = refl

pub get_state-on_document_changed :
    (now : ℕ) (doc_token other content_hash : String) (t : DocDebounceTracker)
    → get_state other (on_document_changed now doc_token content_hash t) ≡ (
        if str_eq doc_token other
        then some (with_content now content_hash (state_or_first now doc_token t))
        else get_state other t)
unfolding get_state on_document_changed
get_state-on_document_changed now doc_token other content_hash t = simp map_laws

content_of-state_or_first :
    (now : ℕ) (doc_token : String) (t : DocDebounceTracker)
    → (state_or_first now doc_token t).content_hash ≡ content_of doc_token t
unfolding get_state
content_of-state_or_first now doc_token t = ground arith

judge-with_content :
    (now later window : ℕ) (content_hash : String) (state : DocEditState)
    → content_hash ≢ ""
    → state.content_hash ≢ content_hash
    → (judge later window (some (with_content now content_hash state))).0 ≡ leb (now + window) later
unfolding judge with_content
judge-with_content now later window content_hash state some_hash new =
    ground (arith, eq_iff content_hash "", eq_iff state.content_hash content_hash)

-- After a change to a new content at some time, the document may be processed exactly when the window
-- has passed since that time, whatever was processed before.
can_process_now-on_document_changed :
    (now later : ℕ) (doc_token content_hash : String) (t : DocDebounceTracker)
    → content_hash ≢ ""
    → content_of doc_token t ≢ content_hash
    → (can_process_now later doc_token (on_document_changed now doc_token content_hash t)).0
      ≡ leb (now + t.debounce_window) later
unfolding on_document_changed
can_process_now-on_document_changed now later doc_token content_hash t some_hash new =
    rw (can_process_now-get_state, get_state-on_document_changed, str_eq_refl)
      (judge-with_content now later t.debounce_window content_hash (state_or_first now doc_token t)
        some_hash (λ e. new (sym (content_of-state_or_first now doc_token t) ∙ e)))
