-- ===== src/Storage/Listing.antt =====
-- What `GitStorage` lists, archives and compares (internal/storage/git/git_storage.go).
use feishu_agent_mem.Prelude.{
  ℕ, String, str_append, str_eq, List, [], ◌∷◌, Bool, true, Map, Result, ok, err, Option, none,
  some, split_lines, has_suffix, if◌then◌else◌,
}
use feishu_agent_mem.Decision.Types.{DecisionNode, Objection}
use feishu_agent_mem.Pipeline.Engine.{or_default}
use feishu_agent_mem.Storage.Format.{Yaml, parse_decision_file, parse_objection_file}
use feishu_agent_mem.Storage.Names.{
  join, joined, decision_dir, decision_path, objection_dir, trim_suffix, trimmed_path,
}
use feishu_agent_mem.Storage.Cli.{
  World, entries, not_exist, unreadable, Call, then_call, file_call, answer, run, run_only,
  CommitLogEntry, SearchHit, BlameEntry, get_commit_log, git_grep, git_blame, read_file_at_commit,
  move_with_git,
}
use feishu_agent_mem.Storage.Store.{Config, read_decision}

pub record SyncDrift : Type 0 where
  pub sdr_id : String
  pub bitable_hash : String
  pub git_hash : String
  pub detected_at : ℕ
  pub needs_fix : Bool

module _ (W : World) (yaml : Yaml DecisionNode) (objections : Yaml Objection)
    (config : Config) where
  open W use {State, mkdir_all, write_file, read_file, read_dir, stat}

  -- The decisions that are read, of the entries of a directory.
  unfoldable pub read_entries : String → String → List (String × Bool) → State → List DecisionNode
  unfolding has_suffix trim_suffix
  read_entries project topic [] s = []
  read_entries project topic ((name, is_dir) ∷ files) s =
      let rest = read_entries project topic files s in
      if has_suffix name ".md"
      then elim (read_decision W yaml objections config project topic (trim_suffix name ".md") s) [
        | ok d ↦ d ∷ rest
        | err e ↦ rest
      ]
      else rest

  unfoldable pub list_decisions : String → String → State → Result (List DecisionNode)
  unfolding read_entries decision_dir
  list_decisions project topic s = elim (read_dir (decision_dir project topic) s) [
    | entries files ↦ ok (read_entries project topic files s)
    | not_exist ↦ ok []
    | unreadable e ↦ err e
  ]

  unfoldable pub read_objections : String → List (String × Bool) → State → List Objection
  unfolding has_suffix join parse_objection_file
  read_objections dir [] s = []
  read_objections dir ((name, is_dir) ∷ files) s =
      let rest = read_objections dir files s in
      if has_suffix name ".md"
      then elim (read_file (join (dir ∷ name ∷ [])) s) [
        | err e ↦ rest
        | ok text ↦ elim (parse_objection_file objections text) [ ok o ↦ o ∷ rest | err e ↦ rest ]
      ]
      else rest

  unfoldable pub list_objections : String → String → State → Result (List Objection)
  unfolding read_objections objection_dir
  list_objections project topic s =
      let dir = objection_dir project (or_default topic "general") in
      elim (read_dir dir s) [
        | entries files ↦ ok (read_objections dir files s)
        | not_exist ↦ ok []
        | unreadable e ↦ err e
      ]

  unfoldable pub directories : List (String × Bool) → List String
  directories [] = []
  directories ((name, is_dir) ∷ rest) =
      let others = directories rest in if is_dir then name ∷ others else others

  unfoldable pub list_topics : String → State → Result (List String)
  unfolding directories join
  list_topics project s = elim (read_dir (join ("decisions" ∷ project ∷ [])) s) [
    | entries files ↦ ok (directories files)
    | not_exist ↦ ok []
    | unreadable e ↦ err e
  ]

  unfoldable pub get_file_hash : String → String → String → Call W String
  unfolding run decision_path
  get_file_hash project topic sdr_id =
      run W ("rev-parse" ∷ str_append "HEAD:" (decision_path project topic sdr_id) ∷ [])

  -- The first path of the listing that names the decision.
  unfoldable pub find_path : String → List String → Option String
  unfolding trimmed_path has_suffix
  find_path sdr_id [] = none
  find_path sdr_id (raw ∷ lines) =
      let rest = find_path sdr_id lines in
      if has_suffix (trimmed_path raw) (str_append "/" (str_append sdr_id ".md"))
      then some (trimmed_path raw)
      else rest

  unfoldable pub read_decision_from_branch : String → String → Call W DecisionNode
  unfolding run find_path split_lines read_file_at_commit parse_decision_file joined
  read_decision_from_branch branch sdr_id s =
      let listed = run W ("ls-tree" ∷ "-r" ∷ "--name-only" ∷ branch ∷ []) s in
      elim listed.0 [
        | err e ↦ (err (joined "" ("ls-tree on " ∷ branch ∷ " failed: " ∷ e ∷ [])), listed.1)
        | ok output ↦ elim (find_path sdr_id (split_lines output)) [
          | none ↦ (
            err (joined "" ("decision " ∷ sdr_id ∷ " not found on branch " ∷ branch ∷ [])),
            listed.1,
          )
          | some path ↦
              let shown = read_file_at_commit W path branch listed.1 in
              elim shown.0 [
                | err e ↦ (
                  err (joined "" ("read " ∷ path ∷ " at " ∷ branch ∷ " failed: " ∷ e ∷ [])),
                  shown.1,
                )
                | ok text ↦ (parse_decision_file yaml text, shown.1)
              ]
        ]
      ]

  unfoldable pub get_decision_history : String → String → String → Call W (List CommitLogEntry)
  unfolding get_commit_log decision_path
  get_decision_history project topic sdr_id =
      get_commit_log W (decision_path project topic sdr_id) none

  unfoldable pub blame_decision : String → String → String → Call W (List BlameEntry)
  unfolding git_blame decision_path
  blame_decision project topic sdr_id = git_blame W (decision_path project topic sdr_id)

  unfoldable pub search_content : String → String → Call W (List SearchHit)
  unfolding git_grep join
  search_content project query = git_grep W query (join ("decisions" ∷ project ∷ []))

  unfoldable pub archive_project : String → Call W Unit
  unfolding then_call file_call join joined move_with_git run_only answer
  archive_project project = then_call W (file_call W (mkdir_all "archive")) λ _ s.
      if stat (join ("decisions" ∷ project ∷ [])) s
      then then_call W
          (move_with_git W (join ("decisions" ∷ project ∷ [])) (join ("archive" ∷ project ∷ [])))
          (λ _. run_only W (
            "commit"
            ∷ "-m"
            ∷ joined "" ("archive(" ∷ project ∷ "): 项目 " ∷ project ∷ " 已归档" ∷ [])
            ∷ []))
          s
      else (ok tt, s)

  -- The records of Bitable by id, each with its hash; a hash that git does not give is empty.
  unfoldable pub check_consistency : ℕ → Map String → State → List SyncDrift × State
  unfolding get_file_hash
  check_consistency now [] s = ([], s)
  check_consistency now ((sdr_id, bitable_hash) ∷ records) s =
      let asked = get_file_hash "test" "sync" sdr_id s in
      let git_hash : String = elim asked.0 [ ok h ↦ h | err e ↦ "" ] in
      let rest = check_consistency now records asked.1 in
      if str_eq git_hash bitable_hash then rest else (
        record {
          sdr_id = sdr_id;
          bitable_hash = bitable_hash;
          git_hash = git_hash;
          detected_at = now;
          needs_fix = true;
        }
            ∷ rest.0,
        rest.1,
      )
