-- ===== src/Storage/Arriving.antt =====
-- The way of `WriteDecision` to the branch and the directory of a decision
-- (internal/storage/git/git_storage.go).
use feishu_agent_mem.Prelude.{
  ◌≡◌, ◌∙◌, sym, subst, arith, String, str_eq, eq_iff, List, [], ◌∷◌, false, any, Bool-cases,
  Option-cases, Result-cases, inl, inr, Result, ok, err, none,
}
use feishu_agent_mem.Decision.Types.{DecisionNode, Objection}
use feishu_agent_mem.Decision.Node.{get_decision_branch}
use feishu_agent_mem.Storage.Format.{Yaml}
use feishu_agent_mem.Storage.Names.{decision_dir}
use feishu_agent_mem.Storage.Cli.{
  World, then_call, run, run_only, file_call, wrapping, answer, get_current_branch, list_branches,
  switch_branch, create_branch_from,
}
use feishu_agent_mem.Storage.Laws.{IsLawful, words, ask_branch, ask_branches, current}
use feishu_agent_mem.Storage.Saving.{state-run, Stays-run}
use feishu_agent_mem.Storage.Store.{
  Config, prepare, arrive, switch_from, go_to_branch, ensure_decision_branch,
}

module _ (W : World) where
  run_ok :
      (args : List String) (s : W.State) {out : String}
      → (run W args s).0 ≡ ok out
      → (W.git args s).0.failure ≡ none
  unfolding run
  run_ok args s h = ground (arith, h)

  state-run_only : (args : List String) (s : W.State) → (run_only W args s).1 ≡ (W.git args s).1
  unfolding run_only then_call answer
  state-run_only args s = elim (Result-cases (run W args s).0) [
    | inl e ↦ rw (e.1, run_only, then_call) (state-run W args s)
    | inr out ↦ rw (out.1, run_only, then_call) (state-run W args s)
  ]

  state-list_branches : (s : W.State) → (list_branches W s).1 ≡ (W.git ("branch" ∷ "-a" ∷ []) s).1
  unfolding list_branches then_call answer
  state-list_branches s = elim (Result-cases (run W ("branch" ∷ "-a" ∷ []) s).0) [
    | inl e ↦ rw (e.1, list_branches, then_call) (state-run W ("branch" ∷ "-a" ∷ []) s)
    | inr out ↦ rw (out.1, list_branches, then_call) (state-run W ("branch" ∷ "-a" ∷ []) s)
  ]

module _ (W : World) (yaml : Yaml DecisionNode) (objections : Yaml Objection) (config : Config)
    {path dir name : String} (law : IsLawful W config.branch path dir name)
    (named : str_eq "" name ≡ false) where
  -- Settled, and on the branch when there is no error.
  abbrev Arrived : Result (Unit {0}) × W.State → Type 0
  Arrived r = law.Settled r.1 × (r.0 ≡ ok tt → current W r.1 ≡ ok name)

  Arrived-switch_branch : (s : W.State) → law.Settled s → Arrived (switch_branch W name s)
  unfolding switch_branch run_only then_call answer
  Arrived-switch_branch s h =
      let checkout = "checkout" ∷ name ∷ [] in
      let settled = subst law.Settled (sym (state-run W checkout s)) (law.settled-checkout s h) in
      elim (Result-cases (run W checkout s).0) [
        | inl e ↦
            rw (e.1, switch_branch, run_only, then_call) (settled, λ fine. ground (arith, fine))
        | inr out ↦
            rw (out.1, switch_branch, run_only, then_call)
              (
                settled,
                λ fine.
                    rw (state-run W checkout s)
                      (law.current-checkout s h (run_ok W checkout s out.1)),
              )
      ]

  Arrived-switch_from :
      (asked : Result String × W.State)
      → law.Settled asked.1
      → current W asked.1 ≡ asked.0
      → Arrived (switch_from W yaml objections config name asked)
  unfolding switch_from wrapping
  Arrived-switch_from (err e, s) h kept =
      let there = Arrived-switch_branch s h in
      rw (named, switch_from, wrapping) (there.0, λ fine. there.1 (ground (arith, fine)))
  Arrived-switch_from (ok found, s) h kept = elim (Bool-cases (str_eq found name)) [
    | inl same ↦ rw (same, switch_from) (h, λ fine. ground (arith, kept, same, eq_iff found name))
    | inr other ↦
        let there = Arrived-switch_branch s h in
        rw (other, switch_from, wrapping) (there.0, λ fine. there.1 (ground (arith, fine)))
  ]

  Arrived-go_to_branch :
      (s : W.State) → law.Settled s → Arrived (go_to_branch W yaml objections config name s)
  unfolding go_to_branch get_current_branch words
  Arrived-go_to_branch s h =
      let asked = Stays-run W law ask_branch s h in
      Arrived-switch_from (get_current_branch W s) asked.0 asked.2

  Arrived-make_dir :
      (s : W.State)
      → law.Settled s
      → law.Settled (file_call W (W.mkdir_all dir) s).1
        × (current W (file_call W (W.mkdir_all dir) s).1 ≡ current W s)
  unfolding file_call
  Arrived-make_dir s h = elim (Option-cases (W.mkdir_all dir s).0) [
    | inl fine ↦ rw (fine, file_call) (law.settled-mkdir s h, law.current-mkdir s h)
    | inr e ↦ rw (e.1, file_call) (law.settled-mkdir s h, law.current-mkdir s h)
  ]

  settled-ensure_decision_branch :
      (s : W.State)
      → law.Settled s
      → law.Settled (ensure_decision_branch W yaml objections config name s).1
  unfolding ensure_decision_branch then_call answer create_branch_from words
  settled-ensure_decision_branch s h =
      let listed = list_branches W s in
      let here =
        subst law.Settled (sym (state-list_branches W s)) (law.settled-git ask_branches s h) in
      let made =
        subst law.Settled
          (sym (state-run_only W ("checkout" ∷ "-b" ∷ name ∷ config.branch ∷ []) listed.1))
          (law.settled-create listed.1 here) in
      elim (Result-cases listed.0) [
        | inl e ↦ rw (e.1, ensure_decision_branch, then_call) here
        | inr found ↦ elim (Bool-cases (any (λ b. str_eq b name) found.0)) [
          | inl old ↦ rw (found.1, ensure_decision_branch, then_call, old) here
          | inr new ↦ rw (found.1, ensure_decision_branch, then_call, new) made
        ]
      ]

module _ (W : World) (yaml : Yaml DecisionNode) (objections : Yaml Objection) (config : Config)
    (d : DecisionNode) {path : String}
    (law : IsLawful W config.branch path (decision_dir d.project d.topic) (get_decision_branch d))
    (named : str_eq "" (get_decision_branch d) ≡ false) where
  Arrived-arrive :
      (s : W.State)
      → law.Settled s
      → Arrived W yaml objections config law named (arrive W yaml objections config d s)
  unfolding arrive then_call
  Arrived-arrive s h =
      let gone = go_to_branch W yaml objections config (get_decision_branch d) s in
      let there = Arrived-go_to_branch W yaml objections config law named s h in
      let dir = Arrived-make_dir W yaml objections config law named gone.1 there.0 in
      elim (Result-cases gone.0) [
        | inl e ↦ rw (e.1, arrive, then_call) (there.0, λ fine. ground (arith, fine))
        | inr a ↦ rw (a.1, arrive, then_call) (dir.0, λ fine. dir.1 ∙ there.1 a.1)
      ]

  -- The preparation of a write keeps to the settled states, and ends on the decision's branch when
  -- it reports no error.
  pub Arrived-prepare :
      (s : W.State)
      → law.Settled s
      → law.Settled (prepare W yaml objections config d s).1
        × ((prepare W yaml objections config d s).0 ≡ ok tt
            → current W (prepare W yaml objections config d s).1 ≡ ok (get_decision_branch d))
  unfolding prepare then_call wrapping
  Arrived-prepare s h =
      let ensured = ensure_decision_branch W yaml objections config (get_decision_branch d) s in
      let here = settled-ensure_decision_branch W yaml objections config law named s h in
      let there = Arrived-arrive ensured.1 here in
      elim (Result-cases ensured.0) [
        | inl e ↦ rw (e.1, prepare, then_call, wrapping) (here, λ fine. ground (arith, fine))
        | inr a ↦ rw (a.1, prepare, then_call, wrapping) there
      ]
