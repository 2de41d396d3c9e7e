-- ===== src/Llm/Recovery.antt =====
-- The recovery strategy and the classification of failures
-- (internal/llm/error_handling/recovery.go). An error is the text of `err.Error()`, by its code
-- points; nil is none.
use feishu_agent_mem.Prelude.{
  ℕ, Option, some, none, List, [], ◌∷◌, Bool, true, false, ◌&&◌, ◌||◌, leb, ltb, ◌==◌, length,
  begins_with, same_text, codes, if◌then◌else◌,
}

-- The loop `for i := 0; i <= len(s)-len(substr); i++` of `containsSubstring`.
unfoldable pub contains_substring : List ℕ → List ℕ → Bool
unfolding begins_with
contains_substring [] substr = leb (length substr) 0 && begins_with [] substr
contains_substring (c ∷ s) substr =
    let rest = contains_substring s substr in
    if ltb (length (c ∷ s)) (length substr)
    then false
    else if begins_with (c ∷ s) substr
    then true
    else rest

-- The `Contains` of the source's own `strings` value.
unfoldable pub contains : List ℕ → List ℕ → Bool
unfolding contains_substring same_text
contains s substr =
    leb (length substr) (length s)
    && (same_text s substr
        || length substr == 0
        || (ltb (length substr) (length s) && contains_substring s substr))

pub data Failure : Type 0 where
  no_failure explicit implicit_loop implicit_drift implicit_overflow : Failure

unfoldable pub classify_failure : Option (List ℕ) → Failure
unfolding contains
classify_failure none = no_failure
classify_failure (some err) =
    if contains err (codes "timeout")
      || contains err (codes "rate limit")
      || contains err (codes "429")
      || contains err (codes "5xx")
    then explicit
    else if contains err (codes "loop") || contains err (codes "infinite")
    then implicit_loop
    else if contains err (codes "drift") || contains err (codes "off track")
    then implicit_drift
    else if contains err (codes "overflow")
        || contains err (codes "context")
        || contains err (codes "token limit")
    then implicit_overflow
    else explicit

pub data Strategy : Type 0 where
  retry rollback fallback human : Strategy

abbrev strategy_for : Failure → Strategy
strategy_for explicit = retry
strategy_for implicit_loop = rollback
strategy_for implicit_drift = rollback
strategy_for implicit_overflow = fallback
strategy_for no_failure = human

-- The checkpoint argument of the source is not used there.
unfoldable pub recover : Option (List ℕ) → Strategy
unfolding classify_failure
recover err = strategy_for (classify_failure err)
