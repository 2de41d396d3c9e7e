-- ===== src/Pipeline/Aging.antt =====
-- What a run of the status updater does to a decision (`runCheck` of internal/signal/status_updater.go,
-- over internal/core/pipeline.go).
use mathlib.Core.List.{Memᴰ}
use feishu_agent_mem.Prelude.{
  ℕ, ◌≡◌, refl, ◌∙◌, sym, subst, arith, String, str_eq, eq_iff, List, [], ◌∷◌, Bool, true, ◌&&◌,
  Option, some, Result-cases, Bool-cases, inl, inr, ◌⊎◌, lookup-insert, if◌then◌else◌,
}
use feishu_agent_mem.Decision.Types.{DecisionNode, DecisionStatus}
use feishu_agent_mem.Decision.Node.{is_active}
use feishu_agent_mem.Graph.State.{MemoryGraph, upsert_decision}
use feishu_agent_mem.Graph.Queries.{get_decision, get_all_decisions}
use feishu_agent_mem.Graph.Consistency.{IsConsistent}
use feishu_agent_mem.Signal.Updater.{Calendar, is_change}
use feishu_agent_mem.Signal.Settling.{Check, verdict}
use feishu_agent_mem.Pipeline.Engine.{
  Outcome, done, failed, panicked, GitStorage, Engine, commit, remember,
}
use feishu_agent_mem.Pipeline.Handlers.{apply_mutation, apply_status_change, place_in_graph}
use feishu_agent_mem.Pipeline.Effects.{saved, commit_ok}
use feishu_agent_mem.Pipeline.Conflicts.{ReadsById}
use feishu_agent_mem.Pipeline.Updates.{
  status_mutation, is_due, update_one, tally, update_all, run_check, run_check-IsConsistent,
}

get_decision-upsert_decision :
    (k project : String) (d : DecisionNode) (mg : MemoryGraph)
    → get_decision k (upsert_decision d project mg)
      ≡ (if str_eq d.sdr_id k then some d else get_decision k mg)
unfolding get_decision upsert_decision
get_decision-upsert_decision k project d mg = rw lookup-insert refl

-- Found under an id: a decision with the status.
abbrev HasStatus : DecisionStatus → Option DecisionNode → Type 0
HasStatus status found = (new : DecisionNode) × (found ≡ some new) × (new.status ≡ status)

both_true : (a b : Bool) → a && b ≡ true → (a ≡ true) × (b ≡ true)
both_true a b h = (ground (arith, h), ground (arith, h))

module _ (G : GitStorage) (cal : Calendar) (at : DecisionNode → Check) where
  -- Of a decision of the list that is active and whose rules ask for another status: the status
  -- that they ask for.
  abbrev pub IsAged : String → List DecisionNode → Option DecisionNode → Type 0
  IsAged k pool found =
      (d : DecisionNode) × Memᴰ d pool
      × (d.sdr_id ≡ k)
      × (is_active d ≡ true)
      × (is_change (verdict cal (at d) d) d ≡ true)
      × ((new : DecisionNode) × (found ≡ some new) × (new.status ≡ verdict cal (at d) d))

  -- Under the id stands what stood there, or a decision that has aged.
  abbrev Moves : String → List DecisionNode → Engine G → Engine G → Type 0
  Moves k pool e after =
      (get_decision k after.graph ≡ get_decision k e.graph)
      ⊎ IsAged k pool (get_decision k after.graph)

  Moves-trans :
      (k : String) (pool : List DecisionNode) (e mid after : Engine G)
      → Moves k pool e mid
      → Moves k pool mid after
      → Moves k pool e after
  Moves-trans k pool e mid after (inl h) (inl i) = inl (i ∙ h)
  Moves-trans k pool e mid after (inr h) (inl i) = inr (subst (IsAged k pool) (sym i) h)
  Moves-trans k pool e mid after h (inr i) = inr i

  -- What a commit puts under an id: nothing, or its node under the node's own.
  commit-remember :
      (k context : String) (node : DecisionNode) (e : Engine G)
      → (get_decision k (commit G context node (remember G) e).1.graph ≡ get_decision k e.graph)
        ⊎ ((node.sdr_id ≡ k)
            × HasStatus node.status (get_decision k (commit G context node (remember G) e).1.graph))
  unfolding remember commit get_decision
  commit-remember k context node e = elim (Result-cases (G.write_decision node e.repo).outcome) [
    | inl fault ↦ rw (fault.1, commit) (inl refl)
    | inr hash ↦
        let new = saved G node e hash.0 in
        rw
          (
            commit_ok G context node (remember G) e hash.0 hash.1,
            get_decision-upsert_decision k node.project new e.graph,
          )
          (elim (Bool-cases (str_eq node.sdr_id k)) [
            | inl own ↦ rw own (inr ((eq_iff node.sdr_id k).0 own, (new, refl, refl)))
            | inr other ↦ rw other (inl refl)
          ])
  ]

  module _ (by_id : ReadsById G) (k : String) where
    -- A status change leaves another id alone, and puts its status under its own or nothing.
    apply_status_change_lem :
        (d : DecisionNode) (status : DecisionStatus) (e : Engine G)
        → let after = (apply_status_change G (status_mutation d status) e).1 in
          (get_decision k after.graph ≡ get_decision k e.graph)
          ⊎ ((d.sdr_id ≡ k) × HasStatus status (get_decision k after.graph))
    unfolding apply_status_change status_mutation
    apply_status_change_lem d status e =
        let place = place_in_graph d.sdr_id e.graph in
        elim (Result-cases (G.read_decision place.project place.topic d.sdr_id e.repo)) [
          | inl fault ↦ rw (fault.1, apply_status_change) (inl refl)
          | inr found ↦
              let same = by_id place.project place.topic d.sdr_id e.repo found.0 found.1 in
              rw (found.1, apply_status_change)
                (elim (commit-remember k "" (record found.0 { status = status }) e) [
                  | inl kept ↦ inl kept
                  | inr put ↦ inr (sym same ∙ put.0, put.1)
                ])
        ]

    Moves-update_one :
        (pool : List DecisionNode) (d : DecisionNode) (e : Engine G)
        → Memᴰ d pool
        → is_due G cal at d ≡ true
        → Moves k pool e (update_one G cal at d e).1
    unfolding update_one apply_mutation is_due
    Moves-update_one pool d e listed due =
        let both = both_true (is_active d) (is_change (verdict cal (at d) d) d) due in
        elim (apply_status_change_lem d (verdict cal (at d) d) e) [
          | inl kept ↦ inl kept
          | inr put ↦ inr (d, listed, put.0, both.0, both.1, put.1)
        ]

    Moves-tally :
        (pool : List DecisionNode) (outcome : Outcome) (after : ℕ × Engine G) (e next : Engine G)
        → Moves k pool e next
        → Moves k pool next after.1
        → Moves k pool e (tally G cal at outcome after next).1
    unfolding tally
    Moves-tally pool done after e next h i = Moves-trans k pool e next after.1 h i
    Moves-tally pool (failed x) after e next h i = Moves-trans k pool e next after.1 h i
    Moves-tally pool panicked after e next h i = h

    Moves-update_all :
        (pool decisions : List DecisionNode) (e : Engine G)
        → ((d : DecisionNode) → Memᴰ d decisions → Memᴰ d pool)
        → Moves k pool e (update_all G cal at decisions e).1
    unfolding update_all
    Moves-update_all pool [] e within = inl refl
    Moves-update_all pool (d ∷ decisions) e within =
        let rest : (c : DecisionNode) → Memᴰ c decisions → Memᴰ c pool =
          λ c m. within c (Memᴰ.tail m) in
        let applied = update_one G cal at d e in
        elim (Bool-cases (is_due G cal at d)) [
          | inl due ↦ rw due (
              Moves-tally pool applied.0 (update_all G cal at decisions applied.1) e applied.1
                (Moves-update_one pool d e (within d (Memᴰ.head refl)) due)
                (Moves-update_all pool decisions applied.1 rest))
          | inr fresh ↦ rw fresh (Moves-update_all pool decisions e rest)
        ]

    -- A run of the updater on a consistent graph leaves the graph consistent, and under every id
    -- either what stood there, or a decision with the status that the rules ask for on a decision of
    -- that id which was stored and active before the run and whose status is another; where Git reads
    -- a decision by its id.
    pub run_check_lem :
        (e : Engine G)
        → IsConsistent e.graph
        → IsConsistent (run_check G cal at e).1.graph
          × ((get_decision k (run_check G cal at e).1.graph ≡ get_decision k e.graph)
              ⊎ IsAged k
                  (get_all_decisions e.graph)
                  (get_decision k (run_check G cal at e).1.graph))
    unfolding run_check
    run_check_lem e c = (
      run_check-IsConsistent G cal at e c,
      Moves-update_all (get_all_decisions e.graph) (get_all_decisions e.graph) e (λ d m. m),
    )
