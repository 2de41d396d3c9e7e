-- ===== src/Signal/Settling.antt =====
-- The rules of the status updater over time (internal/signal/status_updater.go).
use feishu_agent_mem.Prelude.{
  ℕ, ◌+◌, ◌-◌, ◌*◌, ◌≤◌, ◌<◌, ◌≡◌, refl, arith, String, str_eq, eq_iff, List, [], ◌∷◌, Bool, true,
  false, inl, inr, ◌⊎◌, ◌&&◌, ◌||◌, not, ltb, if◌then◌else◌,
}
use feishu_agent_mem.Decision.Types.{
  DecisionNode, DecisionStatus, executing, completed, shelved, deprecated,
}
use feishu_agent_mem.Signal.Texts.{status_text}
use feishu_agent_mem.Signal.Updater.{
  Calendar, evaluate_status, is_change, has_status, day, no_change,
}

-- How many of the updater's changes a status may still see.
unfoldable pub rank : DecisionStatus → ℕ
unfolding status_text
rank status =
    let name = status_text status in
    if str_eq name "pending"
    then 2
    else if str_eq name "decided" || str_eq name "executing" || str_eq name "in_discussion"
    then 1
    else 0

rank-values :
    (rank completed ≡ 0) × (rank executing ≡ 1) × (rank shelved ≡ 0) × (rank deprecated ≡ 0)
unfolding rank
rank-values = (refl, refl, refl, refl)

rank-pending : (d : DecisionNode) → has_status d "pending" ≡ true → rank d.status ≡ 2
unfolding rank has_status
rank-pending d h = ground (arith, h)

rank-running :
    (d : DecisionNode)
    → has_status d "decided" || has_status d "executing" ≡ true
    → 1 ≤ rank d.status
unfolding rank has_status
rank-running d h = ground (arith, h)

rank-in_discussion : (d : DecisionNode) → has_status d "in_discussion" ≡ true → 1 ≤ rank d.status
unfolding rank has_status
rank-in_discussion d h = ground (arith, h)

-- Neither no change nor one of the two statuses that time ends.
unfoldable pub is_settled : DecisionStatus → Bool
unfolding status_text
is_settled s = not (
    str_eq (status_text s) ""
    || str_eq (status_text s) "pending"
    || str_eq (status_text s) "in_discussion")

-- The three clock readings of one check of a decision.
pub record Check : Type 0 where
  pub now : ℕ
  pub at_deadline : ℕ
  pub at_effective : ℕ

module _ (cal : Calendar) where
  abbrev pub verdict : Check → DecisionNode → DecisionStatus
  verdict c d = evaluate_status cal c.now c.at_deadline c.at_effective d

  -- A decision after a check whose change, if there is one, is accepted.
  unfoldable pub checked : Check → DecisionNode → DecisionNode
  unfolding is_change
  checked c d = if is_change (verdict c d) d then record d { status = verdict c d } else d

  unfoldable pub changes : List Check → DecisionNode → ℕ
  unfolding checked is_change
  changes [] d = 0
  changes (c ∷ checks) d =
      (if is_change (verdict c d) d then 1 else 0) + changes checks (checked c d)

  -- A verdict other than no change ranks below the status.
  rank-verdict :
      (c : Check) (d : DecisionNode)
      → (verdict c d ≡ no_change) ⊎ (rank (verdict c d) < rank d.status)
  unfolding evaluate_status
  rank-verdict c d = ground (
    arith,
    rank-values.0,
    rank-values.1,
    rank-values.2,
    rank-values.3,
    rank-pending d,
    rank-running d,
    rank-in_discussion d,
  )

  rank-checked :
      (c : Check) (d : DecisionNode)
      → (if is_change (verdict c d) d then 1 else 0) + rank (checked c d).status ≤ rank d.status
  unfolding checked is_change
  rank-checked c d = elim (rank-verdict c d) [
    | inl same ↦ rw (same) (ground arith)
    | inr less ↦ ground (arith, less)
  ]

  changes-le-rank : (checks : List Check) (d : DecisionNode) → changes checks d ≤ rank d.status
  unfolding changes
  changes-le-rank [] d = omega arith
  changes-le-rank (c ∷ checks) d =
      omega (arith, rank-checked c d, changes-le-rank checks (checked c d))

  rank-le : (s : DecisionStatus) → rank s ≤ 2
  unfolding rank
  rank-le s = ground arith

  -- Whatever the times and however often the updater runs, it changes a decision at most twice.
  pub changes-le : (checks : List Check) (d : DecisionNode) → changes checks d ≤ 2
  changes-le checks d = omega (arith, changes-le-rank checks d, rank-le d.status)

  -- A pending decision of more than thirty days since its creation, or a discussion of more than seven.
  unfoldable pub is_stale : Check → DecisionNode → Bool
  is_stale c d =
      has_status d "pending" && ltb (30 * day) (c.now - d.created_at)
      || has_status d "in_discussion" && ltb (7 * day) (c.now - d.created_at)

  -- The two statuses that time ends.
  abbrev pub waits : DecisionNode → Bool
  waits d = has_status d "pending" || has_status d "in_discussion"

  -- One status at a time.
  has_status_unique :
      (d : DecisionNode) (name other : String)
      → has_status d name ≡ true
      → str_eq name other ≡ false
      → has_status d other ≡ false
  unfolding has_status
  has_status_unique d name other h ne = ground (
    arith,
    h,
    ne,
    eq_iff (status_text d.status) name,
    eq_iff (status_text d.status) other,
    eq_iff name other,
  )

  verdict-stale :
      (c : Check) (d : DecisionNode)
      → is_stale c d ≡ true
      → (verdict c d ≡ executing) ⊎ ((verdict c d ≡ deprecated) ⊎ (verdict c d ≡ shelved))
  unfolding evaluate_status is_stale
  verdict-stale c d h = ground (
    arith,
    h,
    has_status_unique d "pending" "decided",
    has_status_unique d "pending" "executing",
    has_status_unique d "in_discussion" "decided",
    has_status_unique d "in_discussion" "executing",
    has_status_unique d "in_discussion" "pending",
  )

  is_change-waits :
      (d : DecisionNode) (s : DecisionStatus)
      → waits d ≡ true
      → is_settled s ≡ true
      → is_change s d ≡ true
  unfolding is_change has_status is_settled
  is_change-waits d s w h = ground (
    arith,
    w,
    h,
    eq_iff (status_text d.status) (status_text s),
    eq_iff (status_text d.status) "pending",
    eq_iff (status_text d.status) "in_discussion",
    eq_iff (status_text s) "pending",
    eq_iff (status_text s) "in_discussion",
  )

  waits-settled :
      (d : DecisionNode) (s : DecisionStatus)
      → is_settled s ≡ true
      → waits (record d { status = s }) ≡ false
  unfolding has_status is_settled
  waits-settled d s h = ground (arith, h)

  waits-checked :
      (c : Check) (d : DecisionNode) (s : DecisionStatus)
      → waits d ≡ true
      → verdict c d ≡ s
      → is_settled s ≡ true
      → waits (checked c d) ≡ false
  unfolding checked has_status
  waits-checked c d s w e h = rw (e, is_change-waits d s w h, checked) (waits-settled d s h)

  waits-stale : (c : Check) (d : DecisionNode) → is_stale c d ≡ true → waits d ≡ true
  unfolding is_stale
  waits-stale c d h = ground (arith, h)

  -- A decision that is pending and was created more than 30 days ago, or in discussion and created
  -- more than 7 days ago, however lately it was updated, is neither pending nor in discussion after
  -- one check whose change is accepted.
  pub stale_settles :
      (c : Check) (d : DecisionNode) → is_stale c d ≡ true → waits (checked c d) ≡ false
  unfolding is_settled
  stale_settles c d h = elim (verdict-stale c d h) [
    | inl e ↦ waits-checked c d executing (waits-stale c d h) e refl
    | inr (inl e) ↦ waits-checked c d deprecated (waits-stale c d h) e refl
    | inr (inr e) ↦ waits-checked c d shelved (waits-stale c d h) e refl
  ]
