-- ===== src/Graph/Search.antt =====
-- The keyword test of the graph's search (internal/core/memory_graph.go).
use feishu_agent_mem.Prelude.{
  ℕ, suc, ◌≤◌, ◌<◌, List, [], ◌∷◌, ◌++◌, ◌≡◌, ◌≢◌, ◌↔◌, refl, true, Option-cases, some, none,
  length, length-append, known, begins_with, begins_with_iff, arith, Bool-cases, inl, inr, ap,
}
use feishu_agent_mem.Graph.Queries.{
  strings_to_lower, index_from, index_of, strings_contains_ignore_case, contains_ignore_case,
}

-- The list stands in the other, between a part before and a part after it.
pub record Occurs (substr s : List ℕ) : Type 0 where
  pub before : List ℕ
  pub after : List ℕ
  pub split : s ≡ before ++ (substr ++ after)

index_from_sound : (i j : ℕ) (s substr : List ℕ) → index_from i s substr ≡ some j → Occurs substr s
unfolding index_from
index_from_sound i j [] substr h =
    let found = (begins_with_iff [] substr).0 (ground arith) in
    record { before = []; after = found.0; split = found.1 }
index_from_sound i j (c ∷ s) substr h = elim (Bool-cases (begins_with (c ∷ s) substr)) [
  | inl b ↦
      let found = (begins_with_iff (c ∷ s) substr).0 b in
      record { before = []; after = found.0; split = found.1 }
  | inr b ↦
      let rest = index_from_sound (suc i) j s substr (ground arith) in
      record { before = c ∷ rest.before; after = rest.after; split = ap (λ t. c ∷ t) rest.split }
]

pub length-occurs :
    (before substr after : List ℕ) → length substr ≤ length (before ++ (substr ++ after))
length-occurs before substr after =
    omega (arith, length-append {0} before (substr ++ after), length-append {0} substr after)

pub length-begins : (s substr : List ℕ) → begins_with s substr ≡ true → length substr ≤ length s
length-begins s substr h =
    let found = (begins_with_iff s substr).0 h in
    rw found.1 (omega (arith, length-append {0} substr found.0))

index_from-begins :
    (i : ℕ) (s substr : List ℕ) → begins_with s substr ≡ true → index_from i s substr ≡ some i
unfolding index_from
index_from-begins i [] substr h = ground (arith, length-begins [] substr h)
index_from-begins i (c ∷ s) substr h = ground (arith, length-begins (c ∷ s) substr h)

index_from_next :
    (i c : ℕ) (s substr : List ℕ)
    → length substr ≤ length (c ∷ s)
    → index_from (suc i) s substr ≢ none
    → index_from i (c ∷ s) substr ≢ none
unfolding index_from
index_from_next i c s substr h rest = ground arith

index_from_complete :
    (i : ℕ) (before substr after : List ℕ)
    → index_from i (before ++ (substr ++ after)) substr ≢ none
index_from_complete i [] substr after e = cc (
  e,
  index_from-begins i (substr ++ after) substr
      ((begins_with_iff (substr ++ after) substr).1 (after, refl)),
)
index_from_complete i (b ∷ before) substr after e =
    index_from_next i b (before ++ (substr ++ after)) substr
      (length-occurs (b ∷ before) substr after) (index_from_complete (suc i) before substr after) e

index_of_sound : (s substr : List ℕ) → known (index_of s substr) ≡ true → Occurs substr s
unfolding index_of
index_of_sound s substr h = elim (Option-cases (index_from 0 s substr)) [
  | inl e ↦ absurd (ground (arith, e))
  | inr (i, e) ↦ index_from_sound 0 i s substr e
]

index_of_complete : (s substr : List ℕ) → Occurs substr s → known (index_of s substr) ≡ true
unfolding index_of
index_of_complete s substr o = rw o.split (
    ground (
      arith,
      index_from_complete 0 o.before substr o.after,
      Option-cases (index_from 0 (o.before ++ (substr ++ o.after)) substr),
    ))

length-strings_to_lower : (s : List ℕ) → length (strings_to_lower s) ≡ length s
unfolding strings_to_lower
length-strings_to_lower [] = refl
length-strings_to_lower (c ∷ s) = ap suc (length-strings_to_lower s)

length-pos : (s : List ℕ) → s ≢ [] → 0 < length s
length-pos [] h = absurd (h refl)
length-pos (c ∷ s) h = omega arith

pub Occurs-length : (substr s : List ℕ) → Occurs substr s → length substr ≤ length s
Occurs-length substr s o = rw o.split (length-occurs o.before substr o.after)

contains_ignore_case_complete :
    (s substr : List ℕ)
    → substr ≢ []
    → Occurs (strings_to_lower substr) (strings_to_lower s)
    → contains_ignore_case s substr ≡ true
unfolding contains_ignore_case strings_contains_ignore_case
contains_ignore_case_complete s substr h o = ground (
  arith,
  length-pos substr h,
  Occurs-length (strings_to_lower substr) (strings_to_lower s) o,
  length-strings_to_lower s,
  length-strings_to_lower substr,
  index_of_complete (strings_to_lower s) (strings_to_lower substr) o,
)

contains_ignore_case_tests :
    (s substr : List ℕ)
    → contains_ignore_case s substr ≡ true
    → (0 < length substr) × (known (index_of (strings_to_lower s) (strings_to_lower substr)) ≡ true)
unfolding contains_ignore_case strings_contains_ignore_case
contains_ignore_case_tests s substr h = ground arith

-- The keyword test passes exactly when the keyword is not empty and, both in lower case, it occurs in
-- the text.
pub contains_ignore_case_iff :
    (s substr : List ℕ)
    → (contains_ignore_case s substr ≡ true)
      ↔ ((substr ≢ []) × Occurs (strings_to_lower substr) (strings_to_lower s))
contains_ignore_case_iff s substr = (
  λ h.
      let tests = contains_ignore_case_tests s substr h in
      (
        λ e. absurd (omega (arith, tests.0, ap length e)),
        index_of_sound (strings_to_lower s) (strings_to_lower substr) tests.1,
      ),
  λ h. contains_ignore_case_complete s substr h.0 h.1,
)
