-- ===== src/Llm/Recovering.antt =====
-- The substring test and the answers of the recovery (internal/llm/error_handling/recovery.go).
use feishu_agent_mem.Prelude.{
  ℕ, ◌≤◌, Option, some, none, List, [], ◌∷◌, ◌++◌, true, ◌≡◌, ◌↔◌, ◌⊎◌, refl, ap, arith, length,
  length-append, begins_with, begins_with_iff, same_text, ltb, Bool-cases, inl, inr,
}
use mathlib.Core.List.{append-nil}
use feishu_agent_mem.Graph.Search.{Occurs, Occurs-length, length-occurs, length-begins}
use feishu_agent_mem.Llm.Recovery.{contains_substring, contains, human, recover}

contains_substring_sound :
    (s substr : List ℕ) → contains_substring s substr ≡ true → Occurs substr s
unfolding contains_substring
contains_substring_sound [] substr h =
    let found = (begins_with_iff [] substr).0 (ground arith) in
    record { before = []; after = found.0; split = found.1 }
contains_substring_sound (c ∷ s) substr h = elim (Bool-cases (begins_with (c ∷ s) substr)) [
  | inl b ↦
      let found = (begins_with_iff (c ∷ s) substr).0 b in
      record { before = []; after = found.0; split = found.1 }
  | inr b ↦
      let rest = contains_substring_sound s substr (ground arith) in
      record { before = c ∷ rest.before; after = rest.after; split = ap (λ t. c ∷ t) rest.split }
]

contains_substring-begins :
    (s substr : List ℕ) → begins_with s substr ≡ true → contains_substring s substr ≡ true
unfolding contains_substring
contains_substring-begins [] substr h = ground (arith, length-begins [] substr h)
contains_substring-begins (c ∷ s) substr h = ground (arith, length-begins (c ∷ s) substr h)

contains_substring-next :
    (c : ℕ) (s substr : List ℕ)
    → length substr ≤ length (c ∷ s)
    → contains_substring s substr ≡ true
    → contains_substring (c ∷ s) substr ≡ true
unfolding contains_substring
contains_substring-next c s substr l h = ground arith

contains_substring_complete :
    (before substr after : List ℕ) → contains_substring (before ++ (substr ++ after)) substr ≡ true
contains_substring_complete [] substr after =
    contains_substring-begins (substr ++ after) substr
      ((begins_with_iff (substr ++ after) substr).1 (after, refl))
contains_substring_complete (b ∷ before) substr after =
    contains_substring-next b (before ++ (substr ++ after)) substr
      (length-occurs (b ∷ before) substr after) (contains_substring_complete before substr after)

same_text-eq : (s t : List ℕ) → same_text s t ≡ true → s ≡ t
unfolding same_text
same_text-eq [] [] h = refl
same_text-eq [] (d ∷ t) h = cc
same_text-eq (c ∷ s) [] h = cc
same_text-eq (c ∷ s) (d ∷ t) h = ground (arith, same_text-eq s t)

same_text_refl : (s : List ℕ) → same_text s s ≡ true
unfolding same_text
same_text_refl [] = refl
same_text_refl (c ∷ s) = ground (arith, same_text_refl s)

length-zero : (s : List ℕ) → length s ≡ 0 → s ≡ []
length-zero [] h = refl
length-zero (c ∷ s) h = absurd (omega (arith, h))

same-Occurs : (s substr : List ℕ) → s ≡ substr → Occurs substr s
same-Occurs s substr e = record { before = []; after = []; split = cc (e, append-nil substr) }

empty-Occurs : (s substr : List ℕ) → substr ≡ [] → Occurs substr s
empty-Occurs s substr e = record { before = []; after = s; split = rw e refl }

contains-tests :
    (s substr : List ℕ)
    → contains s substr ≡ true
    → (same_text s substr ≡ true) ⊎ (length substr ≡ 0) ⊎ (contains_substring s substr ≡ true)
unfolding contains
contains-tests s substr h = ground arith

-- A part as long as the whole text is the text.
Occurs-same : (s substr : List ℕ) → length s ≤ length substr → Occurs substr s → s ≡ substr
Occurs-same s substr h o =
    let total = ap length o.split in
    let sum = length-append o.before (substr ++ o.after) in
    let rest = length-append substr o.after in
    cc (
      o.split,
      length-zero o.before (omega (arith, h, total, sum, rest)),
      length-zero o.after (omega (arith, h, total, sum, rest)),
      append-nil substr,
    )

contains_complete : (s substr : List ℕ) → Occurs substr s → contains s substr ≡ true
unfolding contains
contains_complete s substr o = elim (Bool-cases (ltb (length substr) (length s))) [
  | inl b ↦
      let found : contains_substring s substr ≡ true =
        rw o.split (contains_substring_complete o.before substr o.after) in
      ground (arith, b, found, Occurs-length substr s o)
  | inr b ↦
      let e = Occurs-same s substr (ground (arith, b)) o in
      let same : same_text s substr ≡ true = rw e (same_text_refl substr) in
      ground (arith, same, Occurs-length substr s o)
]

-- The test of the source for a substring, with its special cases and its loop, passes exactly when
-- the text is the substring between a part before and a part after it.
pub contains_iff : (s substr : List ℕ) → (contains s substr ≡ true) ↔ Occurs substr s
contains_iff s substr = (
  λ h. elim (contains-tests s substr h) [
    | inl same ↦ same-Occurs s substr (same_text-eq s substr same)
    | inr (inl none_left) ↦ empty-Occurs s substr (length-zero substr none_left)
    | inr (inr found) ↦ contains_substring_sound s substr found
  ],
  contains_complete s substr,
)

-- An error, whatever its text, is answered by a retry, a rollback or a fallback; a human is asked
-- exactly when there is no error.
recover-human_iff : (err : Option (List ℕ)) → (recover err ≡ human) ↔ (err ≡ none)
unfolding recover
recover-human_iff none = (λ h. refl, λ h. refl)
recover-human_iff (some err) = (λ h. absurd (ground arith), λ h. cc)
