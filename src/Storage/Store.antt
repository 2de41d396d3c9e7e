-- ===== src/Storage/Store.antt =====
-- `GitStorage` (internal/storage/git/git_storage.go): its branches, and the writing and reading of
-- decisions and objections. `workDir` is where the paths of `World` begin.
use feishu_agent_mem.Prelude.{
  String, str_append, str_eq, List, [], ◌∷◌, Bool, ◌&&◌, not, any, keep, Result, ok, err,
  strip_prefix, known, is_empty, if◌then◌else◌,
}
use feishu_agent_mem.Decision.Types.{DecisionNode, Objection}
use feishu_agent_mem.Decision.Node.{get_decision_branch, branch_prefix_decision}
use feishu_agent_mem.Pipeline.Engine.{GitStorage, Written}
use feishu_agent_mem.Storage.Format.{
  Yaml, render_decision_file, parse_decision_file, render_objection_file,
}
use feishu_agent_mem.Storage.Names.{
  decision_dir, decision_path, objection_dir, objection_path, with_count, format_commit_message,
  objection_message,
}
use feishu_agent_mem.Storage.Cli.{
  World, Call, then_call, file_call, wrapping, answer, run, run_only, commit_path,
  create_branch_from, switch_branch, get_current_branch, list_branches, read_file_at_commit,
}

-- The part of `Config` that the methods read.
pub record Config : Type 0 where
  pub remote : String
  pub auto_push : Bool
  pub branch : String

module _ (W : World) (yaml : Yaml DecisionNode) (objections : Yaml Objection)
    (config : Config) where
  open W use {State, git, mkdir_all, write_file, read_file, read_dir, stat}

  unfoldable pub push : Call W Unit
  unfolding is_empty run_only answer
  push s =
      let pushed = run_only W ("push" ∷ "-u" ∷ "origin" ∷ config.branch ∷ []) s in
      if is_empty config.remote then (ok tt, s) else pushed

  unfoldable pub pull : Call W Unit
  unfolding run_only
  pull = run_only W ("pull" ∷ "origin" ∷ config.branch ∷ [])

  unfoldable pub ensure_decision_branch : String → Call W Unit
  unfolding then_call list_branches create_branch_from answer
  ensure_decision_branch name = then_call W (list_branches W) λ branches.
      if any (λ b. str_eq b name) branches
      then answer W tt
      else create_branch_from W name config.branch

  unfoldable pub list_decision_branches : Call W (List String)
  unfolding then_call list_branches answer strip_prefix
  list_decision_branches =
      then_call W (list_branches W)
        λ branches. answer W (keep (λ b. known (strip_prefix branch_prefix_decision b)) branches)

  -- if currentBranch != branch { SwitchBranch(branch) }
  unfoldable pub switch_from : String → Result String × State → Result (Unit {0}) × State
  unfolding switch_branch wrapping
  switch_from name current =
      let switched =
        wrapping W (str_append "switch to branch " (str_append name " failed: "))
          (switch_branch W name) current.1 in
      if str_eq (elim current.0 [ ok found ↦ found | err e ↦ "" ]) name
      then (ok tt, current.1)
      else switched

  -- The branch that `WriteDecision` goes to before it writes.
  unfoldable pub go_to_branch : String → Call W Unit
  unfolding get_current_branch switch_from
  go_to_branch name s = switch_from name (get_current_branch W s)

  unfoldable pub rev_list_count : String → Call W String
  unfolding run
  rev_list_count name = run W ("rev-list" ∷ "--count" ∷ name ∷ str_append "^" config.branch ∷ [])

  -- The file of a decision, written and committed; the version of `d` is the final one.
  unfoldable pub save_decision : DecisionNode → Call W String
  unfolding then_call file_call commit_path render_decision_file decision_path format_commit_message
  save_decision d =
      let path = decision_path d.project d.topic d.sdr_id in
      then_call W (file_call W (write_file path (render_decision_file yaml d)))
        λ _. commit_path W path (format_commit_message "decision" d)

  -- From the checkout to the directory of the file.
  unfoldable pub arrive : DecisionNode → Call W Unit
  unfolding then_call go_to_branch file_call decision_dir get_decision_branch
  arrive d =
      then_call W (go_to_branch (get_decision_branch d))
        λ _. file_call W (mkdir_all (decision_dir d.project d.topic))

  -- What `WriteDecision` does before it asks for the version.
  unfoldable pub prepare : DecisionNode → Call W Unit
  unfolding then_call ensure_decision_branch wrapping arrive get_decision_branch
  prepare d =
      then_call W
        (wrapping W (str_append "ensure branch " (str_append (get_decision_branch d) " failed: "))
          (ensure_decision_branch (get_decision_branch d)))
        (λ _. arrive d)

  -- A write that succeeded is pushed, if the configuration says so; the result is dropped.
  unfoldable pub auto_pushed : Result String × State → State
  unfolding push is_empty
  auto_pushed saved = elim saved.0 [
    | err e ↦ saved.1
    | ok hash ↦
        if config.auto_push && not (is_empty config.remote) then (push saved.1).1 else saved.1
  ]

  unfoldable pub write_decision : DecisionNode → State → Written State
  unfolding prepare rev_list_count with_count save_decision auto_pushed get_decision_branch
  write_decision d s =
      let ready = prepare d s in
      elim ready.0 [
        | err e ↦ record { version = d.version; outcome = err e; repo = ready.1 }
        | ok _ ↦
            let counted = rev_list_count (get_decision_branch d) ready.1 in
            let d' = with_count counted.0 d in
            let saved = save_decision d' counted.1 in
            record { version = d'.version; outcome = saved.0; repo = auto_pushed saved }
      ]

  unfoldable pub read_decision : String → String → String → State → Result DecisionNode
  unfolding decision_path parse_decision_file
  read_decision project topic sdr_id s = elim (read_file (decision_path project topic sdr_id) s) [
    | err e ↦ err e
    | ok text ↦ parse_decision_file yaml text
  ]

  unfoldable pub write_objection : Objection → Call W String
  unfolding then_call file_call commit_path render_objection_file objection_path objection_dir
      objection_message
  write_objection o = then_call W (file_call W (mkdir_all (objection_dir o.project o.topic))) λ _.
      then_call W (file_call W (write_file (objection_path o) (render_objection_file objections o)))
        λ _. commit_path W (objection_path o) (objection_message o)

  unfoldable pub read_decision_at_commit :
      String → String → String → String → State → Result DecisionNode
  unfolding decision_path read_file_at_commit parse_decision_file
  read_decision_at_commit project topic sdr_id commit s =
      elim (read_file_at_commit W (decision_path project topic sdr_id) commit s).0 [
        | err e ↦ err (str_append "read at commit " (str_append commit (str_append " failed: " e)))
        | ok text ↦ parse_decision_file yaml text
      ]

  -- What the pipeline sees of the storage; it never uses what a read may leave behind.
  unfoldable pub git_storage : GitStorage
  unfolding write_decision read_decision write_objection read_decision_at_commit
  git_storage = record {
    Repo = State;
    write_decision = write_decision;
    read_decision = read_decision;
    write_objection = write_objection;
    read_decision_at_commit = read_decision_at_commit;
  }
