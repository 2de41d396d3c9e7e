-- ===== src/Lark/Once.antt =====
-- The debounce tracker behind a processed document (internal/lark-adapter/debounce_tracker.go).
use feishu_agent_mem.Prelude.{
  ℕ, String, str_eq, str_eq_refl, eq_iff, List, [], ◌∷◌, Option, Option-cases, Bool-cases, some,
  none, Bool, true, false, not, ◌||◌, All, lookup-insert, ◌≡◌, ◌≢◌, ◌∙◌, sym, ap, refl, arith, inl,
  inr, if◌then◌else◌, known,
}
use feishu_agent_mem.Lark.Debounce.{
  DocEditState, DocDebounceTracker, with_content, on_document_changed, can_process_now, mark_state,
  mark_processed, get_state, judge, Call, changed, processed, perform_all, state_or_first,
}
use feishu_agent_mem.Lark.Quiet.{can_process_now-get_state, get_state-on_document_changed}

-- The call is about another document, or reports no hash or the hash of this content.
abbrev pub repeats : String → String → Call → Bool
repeats doc_token content_hash (changed now other reported) =
    not (str_eq other doc_token) || str_eq reported "" || str_eq reported content_hash
repeats doc_token content_hash (processed now other reported) =
    not (str_eq other doc_token) || str_eq reported "" || str_eq reported content_hash

-- What the tracker holds for a document once its content is processed.
record IsDone (content_hash : String) (found : Option DocEditState) : Type 0 where
  state : DocEditState
  holds : found ≡ some state
  staged : state.is_staged ≡ true
  content : state.content_hash ≡ content_hash

get_state-mark_processed :
    (now : ℕ) (doc_token other content_hash : String) (t : DocDebounceTracker)
    (state : DocEditState)
    → get_state doc_token t ≡ some state
    → get_state other (mark_processed now doc_token content_hash t) ≡ (
        if str_eq doc_token other
        then some (mark_state now content_hash state)
        else get_state other t)
unfolding get_state mark_processed
get_state-mark_processed now doc_token other content_hash t state h =
    rw (h, mark_processed, lookup-insert) refl

get_state-mark_unknown :
    (now : ℕ) (doc_token other content_hash : String) (t : DocDebounceTracker)
    → get_state doc_token t ≡ none
    → get_state other (mark_processed now doc_token content_hash t) ≡ get_state other t
unfolding get_state mark_processed
get_state-mark_unknown now doc_token other content_hash t h = rw (h, mark_processed) refl

module _ (doc_token content_hash : String) where
  abbrev Done : DocDebounceTracker → Type 0
  Done t = IsDone content_hash (get_state doc_token t)

  with_content-IsDone :
      (now : ℕ) (reported : String) (state : DocEditState)
      → str_eq reported "" || str_eq reported content_hash ≡ true
      → state.is_staged ≡ true
      → state.content_hash ≡ content_hash
      → IsDone content_hash (some (with_content now reported state))
  unfolding with_content
  with_content-IsDone now reported state r s c = record {
    state = with_content now reported state;
    holds = refl;
    staged = ground (arith, eq_iff reported content_hash, eq_iff state.content_hash reported);
    content = ground (arith, eq_iff reported content_hash, eq_iff state.content_hash reported);
  }

  mark_state-IsDone :
      (now : ℕ) (reported : String) (state : DocEditState)
      → str_eq reported "" || str_eq reported content_hash ≡ true
      → state.content_hash ≡ content_hash
      → IsDone content_hash (some (mark_state now reported state))
  unfolding mark_state
  mark_state-IsDone now reported state r c = record {
    state = mark_state now reported state;
    holds = refl;
    staged = refl;
    content = ground (arith, eq_iff reported content_hash, eq_iff reported "");
  }

  state_or_first-known :
      (now : ℕ) (t : DocDebounceTracker) (state : DocEditState)
      → get_state doc_token t ≡ some state
      → state_or_first now doc_token t ≡ state
  unfolding get_state
  state_or_first-known now t state h = rw (h, state_or_first) refl

  on_document_changed-Done :
      (now : ℕ) (other reported : String) (t : DocDebounceTracker)
      → repeats doc_token content_hash (changed now other reported) ≡ true
      → Done t
      → Done (on_document_changed now other reported t)
  on_document_changed-Done now other reported t r d = elim (Bool-cases (str_eq other doc_token)) [
    | inr no_match ↦ rw (get_state-on_document_changed, no_match) d
    | inl match ↦
        rw
          (
            get_state-on_document_changed,
            match,
            (eq_iff other doc_token).0 match,
            state_or_first-known now t d.state d.holds,
          )
          (with_content-IsDone now reported d.state (ground (arith, r, match)) d.staged d.content)
  ]

  mark_processed-Done :
      (now : ℕ) (other reported : String) (t : DocDebounceTracker)
      → repeats doc_token content_hash (processed now other reported) ≡ true
      → Done t
      → Done (mark_processed now other reported t)
  mark_processed-Done now other reported t r d = elim (Option-cases (get_state other t)) [
    | inl unknown ↦ rw (get_state-mark_unknown now other doc_token reported t unknown) d
    | inr (state, found) ↦
        rw (get_state-mark_processed now other doc_token reported t state found)
          (elim (Bool-cases (str_eq other doc_token)) [
            | inr no_match ↦ rw no_match d
            | inl match ↦
                let same : some state ≡ some d.state =
                  sym found
                  ∙ ap (λ k. get_state k t) ((eq_iff other doc_token).0 match)
                  ∙ d.holds in
                rw match (
                  mark_state-IsDone now reported state (ground (arith, r, match))
                    (ground (arith, same, d.content)))
          ])
  ]

  perform_all-Done :
      (calls : List Call) (t : DocDebounceTracker)
      → All (λ call. repeats doc_token content_hash call ≡ true) calls
      → Done t
      → Done (perform_all calls t)
  unfolding perform_all
  perform_all-Done [] t r d = d
  perform_all-Done (changed now other reported ∷ calls) t r d =
      perform_all-Done calls (on_document_changed now other reported t) r.1
        (on_document_changed-Done now other reported t r.0 d)
  perform_all-Done (processed now other reported ∷ calls) t r d =
      perform_all-Done calls (mark_processed now other reported t) r.1
        (mark_processed-Done now other reported t r.0 d)

judge-IsDone :
    (later window : ℕ) (content_hash : String) (found : Option DocEditState)
    → content_hash ≢ ""
    → IsDone content_hash found
    → (judge later window found).0 ≡ false
unfolding judge
judge-IsDone later window content_hash found some_hash d =
    rw d.holds (ground (arith, d.staged, d.content, eq_iff d.state.content_hash "", some_hash))

mark_state-own :
    (now : ℕ) (content_hash : String) (state : DocEditState)
    → content_hash ≢ ""
    → IsDone content_hash (some (mark_state now content_hash state))
unfolding mark_state
mark_state-own now content_hash state some_hash = record {
  state = mark_state now content_hash state;
  holds = refl;
  staged = refl;
  content = ground (arith, eq_iff content_hash "", some_hash);
}

-- A known document that was marked as processed with a content, which has a hash, may never be
-- processed again, at whatever time, as long as no call reports another hash for it: whatever calls
-- are made for other documents, and however often this content is reported or marked again.
pub can_process_now-mark_processed :
    (now later : ℕ) (doc_token content_hash : String) (calls : List Call) (t : DocDebounceTracker)
    (state : DocEditState)
    → content_hash ≢ ""
    → get_state doc_token t ≡ some state
    → All (λ call. repeats doc_token content_hash call ≡ true) calls
    → (can_process_now later doc_token
        (perform_all calls (mark_processed now doc_token content_hash t))).0
      ≡ false
can_process_now-mark_processed now later doc_token content_hash calls t state some_hash known r =
    let marked = mark_processed now doc_token content_hash t in
    let done : IsDone content_hash (get_state doc_token marked) =
      rw (get_state-mark_processed now doc_token doc_token content_hash t state known, str_eq_refl)
        (mark_state-own now content_hash state some_hash) in
    rw can_process_now-get_state (
      judge-IsDone later _ content_hash _ some_hash
        (perform_all-Done doc_token content_hash calls marked r done))
