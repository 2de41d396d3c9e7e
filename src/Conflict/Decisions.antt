-- ===== src/Conflict/Decisions.antt =====
-- The answers of the resolver and of the detection (internal/core/conflict_resolver.go).
use mathlib.Core.List.{Memᴰ}
use feishu_agent_mem.Prelude.{
  ℕ, suc, String, str_eq, List, [], ◌∷◌, ◌≡◌, ◌≢◌, ◌↔◌, refl, Bool, true, false, arith, All, ltb,
  ◌==◌, if◌then◌else◌, Bool-cases, inl, inr,
}
use feishu_agent_mem.Decision.Types.{DecisionNode}
use feishu_agent_mem.Conflict.Resolver.{
  Float64, Action, no_conflict, supersedes, conflict, blocked, impact_level_weight, Client,
  score_of, resolve, Detected, detect_from, detect_conflicts,
}

abbrev weight : DecisionNode → ℕ
weight d = impact_level_weight d.impact_level

-- What the weights decide for a contradictory pair.
abbrev action_of : ℕ → ℕ → Action
action_of new_weight old_weight =
    if ltb old_weight new_weight
    then supersedes
    else if new_weight == old_weight
    then conflict
    else blocked

abbrev asks_user : ℕ → ℕ → Bool
asks_user new_weight old_weight = new_weight == old_weight

module _ (fl : Float64) (client : Client fl) where
  open fl use {lt, low, high}

  -- The score is at the upper threshold or past it.
  abbrev pub IsContradictory : DecisionNode → DecisionNode → Type 0
  IsContradictory new old =
      (lt (score_of fl client new old) low ≡ false) × (lt (score_of fl client new old) high ≡ false)

  action-resolve :
      (new old : DecisionNode)
      → IsContradictory new old
      → (resolve fl client new old).action ≡ action_of (weight new) (weight old)
  unfolding resolve
  action-resolve new old h = ground arith

  needs_user-resolve :
      (new old : DecisionNode)
      → IsContradictory new old
      → (resolve fl client new old).needs_user ≡ asks_user (weight new) (weight old)
  unfolding resolve
  needs_user-resolve new old h = ground arith

module _ (fl : Float64) where
  open fl use {lt, low, high}

  by_weights : (m n : ℕ) → (action_of m n ≡ supersedes) ↔ (action_of n m ≡ blocked)
  by_weights m n = (λ e. ground arith, λ e. ground arith)

  -- For a pair of decisions that contradict one another whichever is the new one, by the answers of
  -- two calls: the new one supersedes the old exactly when the old one, coming second, would be
  -- blocked by it; and the user is asked exactly when the levels weigh the same, then in both orders.
  pub resolve_symmetric :
      (first second : Client fl) (a b : DecisionNode)
      → IsContradictory fl first a b
      → IsContradictory fl second b a
      → (((resolve fl first a b).action ≡ supersedes) ↔ ((resolve fl second b a).action ≡ blocked))
        × (((resolve fl first a b).needs_user ≡ true)
            ↔ (impact_level_weight a.impact_level ≡ impact_level_weight b.impact_level))
        × ((resolve fl first a b).needs_user ≡ (resolve fl second b a).needs_user)
  resolve_symmetric first second a b h k = (
    rw (action-resolve fl first a b h, action-resolve fl second b a k)
        (by_weights (weight a) (weight b)),
    rw (needs_user-resolve fl first a b h) (λ e. ground arith, λ e. ground arith),
    rw (needs_user-resolve fl first a b h, needs_user-resolve fl second b a k) (ground arith),
  )

  low_not_no_conflict :
      (client : Client fl) (new old : DecisionNode)
      → lt low (score_of fl client new old) ≡ true
      → (resolve fl client new old).action ≢ no_conflict
  unfolding resolve
  low_not_no_conflict client new old h =
      ground (arith, h, fl.lt_asymm low (score_of fl client new old))

  module _ (clients : ℕ → Client fl) (stamp : DecisionNode → String) (new : DecisionNode) where
    -- Without a score from the client nothing is detected.
    detect_from-quiet :
        (round : ℕ) (existing : List DecisionNode)
        → ((n : ℕ) (old : DecisionNode) → score_of fl (clients n) new old ≡ fl.zero_score)
        → detect_from fl clients stamp new round existing ≡ []
    unfolding detect_from
    detect_from-quiet round [] h = refl
    detect_from-quiet round (old ∷ existing) h = ground (
      arith,
      detect_from-quiet (suc round) existing h,
      h round old,
      fl.lt_asymm fl.zero_score low fl.zero-lt-low,
    )

    -- A report is of an existing decision of another id, with the score of one of the calls, which is
    -- above the lower threshold and on which the resolver would not answer no conflict.
    abbrev pub IsJustified : List DecisionNode → Detected fl → Type 0
    IsJustified pool c =
        (c.decision_a ≡ new.sdr_id)
        × ((old : DecisionNode) × (round : ℕ) × Memᴰ old pool
            × (c.decision_b ≡ old.sdr_id)
            × (str_eq old.sdr_id new.sdr_id ≡ false)
            × (c.contradiction_score ≡ score_of fl (clients round) new old)
            × (lt low c.contradiction_score ≡ true)
            × ((resolve fl (clients round) new old).action ≢ no_conflict))

    detect_from-IsJustified :
        (pool : List DecisionNode) (round : ℕ) (existing : List DecisionNode)
        → ((old : DecisionNode) → Memᴰ old existing → Memᴰ old pool)
        → All (IsJustified pool) (detect_from fl clients stamp new round existing)
    unfolding detect_from
    detect_from-IsJustified pool round [] within = tt
    detect_from-IsJustified pool round (old ∷ existing) within =
        let ih =
          detect_from-IsJustified pool (suc round) existing (λ d m. within d (Memᴰ.tail m)) in
        elim (Bool-cases (str_eq old.sdr_id new.sdr_id)) [
          | inl same ↦ rw same ih
          | inr other ↦ elim (Bool-cases (lt low (score_of fl (clients round) new old))) [
            | inl high_score ↦
                rw (other, high_score)
                  (
                    (
                      refl,
                      (
                        old,
                        round,
                        within old (Memᴰ.head refl),
                        refl,
                        other,
                        refl,
                        high_score,
                        low_not_no_conflict (clients round) new old high_score,
                      ),
                    ),
                    ih,
                  )
            | inr low_score ↦ rw (other, low_score) ih
          ]
        ]

    -- Every conflict that the detection reports is between the new decision and one of the existing
    -- decisions, of another id, with the score that the client gave in one of the calls for the two;
    -- that score is above the lower threshold, and a resolver that is given the same answer does not
    -- say that there is no conflict.
    pub detect_conflicts_sound :
        (existing : List DecisionNode)
        → All (IsJustified existing) (detect_conflicts fl clients stamp new existing)
    unfolding detect_conflicts
    detect_conflicts_sound existing = detect_from-IsJustified existing 0 existing (λ old m. m)
