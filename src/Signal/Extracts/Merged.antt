-- ===== src/Signal/Extracts/Merged.antt =====
-- What a merged group of extracted decisions holds (internal/signal/engine.go).
use feishu_agent_mem.Prelude.{
  ◌≤◌, ◌≡◌, refl, ◌∙◌, ap, arith, String, str_eq, eq_iff, List, [], ◌∷◌, All, Bool, true, ◌&&◌, leb,
  size, Bool-cases, inl, inr, if◌then◌else◌,
}
use feishu_agent_mem.Graph.State.{append_unique}
use feishu_agent_mem.Signal.Extracts.Filter.{DecisionExtract}
use feishu_agent_mem.Signal.Extracts.Merge.{
  Merging, impact_level_rank, start_merging, merge_one, merge_rest, finish_merging,
  merge_decision_group, add_text, text_list,
}

-- The first of some texts, or another.
abbrev first_or : String → List String → String
first_or s [] = s
first_or s (t ∷ texts) = t

-- The first deadline of a group that is not empty, or another.
unfoldable pub first_deadline : String → List DecisionExtract → String
first_deadline s [] = s
first_deadline s (d ∷ group) =
    let rest = first_deadline s group in if str_eq d.deadline "" then rest else d.deadline

-- A decision of a group ranks no higher, and has no longer title, than what the group became.
unfoldable pub is_covered : String → String → DecisionExtract → Bool
is_covered title impact d =
    leb (impact_level_rank d.impact_level) (impact_level_rank impact)
    && leb (size d.title) (size title)

is_covered-le :
    (title impact : String) (d : DecisionExtract)
    → impact_level_rank d.impact_level ≤ impact_level_rank impact
    → size d.title ≤ size title
    → is_covered title impact d ≡ true
unfolding is_covered
is_covered-le title impact d h k = ground (arith, h, k)

module _ (m : Merging) (d : DecisionExtract) where
  rank-merge_one :
      (impact_level_rank m.best_impact ≤ impact_level_rank (merge_one m d).best_impact)
      × (impact_level_rank d.impact_level ≤ impact_level_rank (merge_one m d).best_impact)
  unfolding merge_one
  rank-merge_one = (ground arith, ground arith)

  size-merge_one :
      (size m.best_title ≤ size (merge_one m d).best_title)
      × (size d.title ≤ size (merge_one m d).best_title)
  unfolding merge_one
  size-merge_one = (ground arith, ground arith)

merge_rest-ge :
    (m : Merging) (group : List DecisionExtract)
    → (impact_level_rank m.best_impact ≤ impact_level_rank (merge_rest m group).best_impact)
      × (size m.best_title ≤ size (merge_rest m group).best_title)
unfolding merge_rest
merge_rest-ge m [] = (omega arith, omega arith)
merge_rest-ge m (d ∷ group) =
    let rest = merge_rest-ge (merge_one m d) group in
    (omega (arith, (rank-merge_one m d).0, rest.0), omega (arith, (size-merge_one m d).0, rest.1))

merge_rest-covers :
    (m : Merging) (group : List DecisionExtract)
    → All
        (λ (d : DecisionExtract).
          is_covered (merge_rest m group).best_title (merge_rest m group).best_impact d ≡ true)
        group
unfolding merge_rest
merge_rest-covers m [] = tt
merge_rest-covers m (d ∷ group) =
    let rest = merge_rest-ge (merge_one m d) group in
    (
      is_covered-le (merge_rest (merge_one m d) group).best_title
          (merge_rest (merge_one m d) group).best_impact d
          (omega (arith, (rank-merge_one m d).1, rest.0))
          (omega (arith, (size-merge_one m d).1, rest.1)),
      merge_rest-covers (merge_one m d) group,
    )

first_or-add_text :
    (s t : String) (texts : List String)
    → first_or s (add_text texts t) ≡ first_or (if str_eq t "" then s else t) texts
unfolding append_unique
first_or-add_text s t [] = ground arith
first_or-add_text s t (u ∷ texts) = ground arith

first_or-merge_rest :
    (s : String) (m : Merging) (group : List DecisionExtract)
    → first_or s (merge_rest m group).deadlines ≡ first_or (first_deadline s group) m.deadlines
unfolding merge_rest merge_one first_deadline
first_or-merge_rest s m [] = refl
first_or-merge_rest s m (d ∷ group) =
    first_or-merge_rest s (merge_one m d) group
    ∙ first_or-add_text (first_deadline s group) d.deadline m.deadlines

deadline-finish_merging :
    (base : DecisionExtract) (m : Merging)
    → (finish_merging base m).deadline ≡ first_or base.deadline m.deadlines
unfolding finish_merging
deadline-finish_merging base m = refl

first_or-text_list :
    (base : DecisionExtract) (group : List DecisionExtract)
    → first_or (first_deadline base.deadline group) (text_list base.deadline)
      ≡ first_deadline "" (base ∷ group)
unfolding first_deadline
first_or-text_list base group = elim (Bool-cases (str_eq base.deadline "")) [
  | inl empty ↦ rw empty (ap (λ s. first_deadline s group) ((eq_iff base.deadline "").0 empty))
  | inr given ↦ rw given refl
]

first_deadline-alone : (base : DecisionExtract) → base.deadline ≡ first_deadline "" (base ∷ [])
unfolding first_deadline
first_deadline-alone base = ground (arith, eq_iff base.deadline "")

-- A merged group has the highest impact level and the longest title of its decisions, and the first
-- deadline that one of them gives, which need not be the earliest.
merge_decision_group_lem :
    (base : DecisionExtract) (group : List DecisionExtract)
    → let merged = merge_decision_group (base ∷ group) in
      All
        (λ (d : DecisionExtract). is_covered merged.title merged.impact_level d ≡ true)
        (base ∷ group)
      × (merged.deadline ≡ first_deadline "" (base ∷ group))
unfolding merge_decision_group finish_merging start_merging
merge_decision_group_lem base [] = (
  (is_covered-le base.title base.impact_level base (omega arith) (omega arith), tt),
  first_deadline-alone base,
)
merge_decision_group_lem base (d ∷ group) =
    let start = start_merging base in
    let m = merge_rest start (d ∷ group) in
    let rest = merge_rest-ge start (d ∷ group) in
    (
      (
        is_covered-le m.best_title m.best_impact base rest.0 rest.1,
        merge_rest-covers start (d ∷ group),
      ),
      deadline-finish_merging base m
          ∙ first_or-merge_rest base.deadline start (d ∷ group)
          ∙ first_or-text_list base (d ∷ group),
    )
