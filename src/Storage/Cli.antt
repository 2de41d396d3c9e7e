-- ===== src/Storage/Cli.antt =====
-- The Git commands (internal/storage/git/git_ops.go). The git program and the files of the working
-- directory are the parameter `World`; paths are relative to that directory. Integers that the code
-- parses from git's output are its decimal digits.
use Prim.Native.Char.{code}
use feishu_agent_mem.Prelude.{
  ℕ, String, str_append, str_eq, codes, List, [], ◌∷◌, ◌++◌, Bool, ◌&&◌, ◌||◌, not, Result, ok, err,
  wrap, Option, none, some, trim_space, split_lines, is_empty, contains, strip_prefix, known, ◌==◌,
  if◌then◌else◌,
}

-- How a process ended: its error if it failed, and what it printed.
pub record Exited : Type 0 where
  pub failure : Option String
  pub stdout : String
  pub stderr : String

-- What os.ReadDir answers: the entries by name and whether they are directories.
pub data DirRead : Type 0 where
  entries : List (String × Bool) → DirRead
  not_exist : DirRead
  unreadable : String → DirRead

pub record World : Type 1 where
  pub State : Type 0
  pub git : List String → State → Exited × State
  pub mkdir_all : String → State → Option String × State
  pub write_file : String → String → State → Option String × State
  pub read_file : String → State → Result String
  pub read_dir : String → State → DirRead
  pub stat : String → State → Bool

pub record CommitLogEntry : Type 0 where
  pub hash : String
  pub message : String

pub record SearchHit : Type 0 where
  pub file : String
  pub line_num : ℕ
  pub content : String

pub record BlameEntry : Type 0 where
  pub commit : String
  pub line_num : ℕ
  pub content : String
  pub author : String
  pub date : ℕ

-- The arguments as `%v` prints them.
unfoldable pub spaced : List String → String
spaced [] = ""
spaced (a ∷ []) = a
spaced (a ∷ b ∷ rest) = str_append a (str_append " " (spaced (b ∷ rest)))

-- The text before the first separator, and what is behind it.
unfoldable pub cut_at : ℕ → String → String × Option String
cut_at sep String.[] = ("", none)
cut_at sep (String.◌∷◌ c s) =
    let rest = cut_at sep s in if code c == sep then ("", some s) else (String.◌∷◌ c rest.0, rest.1)

-- One line of `git branch -a`.
unfoldable pub branch_names : List String → List String
unfolding trim_space is_empty strip_prefix
branch_names [] = []
branch_names (raw ∷ lines) =
    let line = trim_space raw in
    let rest = branch_names lines in
    if not (is_empty line) && not (known (strip_prefix "remotes/" line))
    then elim (strip_prefix "* " line) [ none ↦ line | some name ↦ name ] ∷ rest
    else rest

-- The lines of `git log --oneline`.
unfoldable pub log_entries : List String → List CommitLogEntry
unfolding trim_space is_empty cut_at
log_entries [] = []
log_entries (raw ∷ lines) =
    let line = trim_space raw in
    let rest = log_entries lines in
    let parts = cut_at b' ' line in
    if is_empty line
    then rest
    else record { hash = parts.0; message = elim parts.1 [ none ↦ "" | some text ↦ text ] } ∷ rest

unfoldable pub grep_hits : List String → List SearchHit
unfolding is_empty cut_at
grep_hits [] = []
grep_hits (line ∷ lines) =
    let rest = grep_hits lines in
    let first = cut_at b':' line in
    if is_empty line then rest else elim first.1 [
      | none ↦ rest
      | some behind ↦ elim (cut_at b':' behind).1 [
        | none ↦ rest
        | some text ↦ record { file = first.0; line_num = 0; content = text } ∷ rest
      ]
    ]

unfoldable pub parse_grep_output : String → List SearchHit
unfolding grep_hits split_lines
parse_grep_output output = grep_hits (split_lines output)

unfoldable pub parse_blame_output : String → List BlameEntry
parse_blame_output _ = []

module _ (W : World) where
  open W use {State, git, read_file}

  -- A call that answers with a value or an error.
  abbrev pub Call : Type 0 → Type 0
  Call A = State → Result A × State

  -- The value of a call, handed on; an error ends the chain.
  unfoldable pub then_call : {A B : Type 0} → Call A → (A → Call B) → Call B
  then_call call next s = elim (call s).0 [ err e ↦ (err e, (call s).1) | ok a ↦ next a (call s).1 ]

  unfoldable pub answer : {A : Type 0} → A → Call A
  answer a s = (ok a, s)

  -- A file operation as a call: its error ends the chain.
  unfoldable pub file_call : (State → Option String × State) → Call Unit
  file_call act s = elim (act s).0 [ none ↦ (ok tt, (act s).1) | some e ↦ (err e, (act s).1) ]

  -- fmt.Errorf("context: %w", err)
  unfoldable pub wrapping : {A : Type 0} → String → Call A → Call A
  wrapping context call s = (wrap context (call s).0, (call s).1)

  -- `GitCLI.Run`
  unfoldable pub run : List String → Call String
  unfolding spaced trim_space
  run args s =
      let x = git args s in
      elim x.0.failure [
        | none ↦ (ok (trim_space x.0.stdout), x.1)
        | some e ↦ (
          err (
              str_append "git [" (
                str_append (spaced args)
                  (str_append "]: " (str_append e (str_append ": " x.0.stderr))))),
          x.1,
        )
      ]

  unfoldable pub get_head_hash : Call String
  unfolding run
  get_head_hash = run ("rev-parse" ∷ "HEAD" ∷ [])

  -- `GitCLI.Commit`
  unfoldable pub commit_path : String → String → Call String
  unfolding then_call run get_head_hash contains
  commit_path path message = then_call (run ("add" ∷ path ∷ [])) λ _ s.
      let made = run ("commit" ∷ "-m" ∷ message ∷ []) s in
      elim made.0 [
        | ok _ ↦ get_head_hash made.1
        | err e ↦
            if contains (codes e) (codes "nothing to commit")
            then get_head_hash made.1
            else (err e, made.1)
      ]

  -- `_, err := g.Run(…); return err`
  unfoldable pub run_only : List String → Call Unit
  unfolding then_call run answer
  run_only args = then_call (run args) (λ _. answer tt)

  unfoldable pub create_branch : String → Call Unit
  unfolding run_only
  create_branch name = run_only ("checkout" ∷ "-b" ∷ name ∷ [])

  unfoldable pub create_branch_from : String → String → Call Unit
  unfolding run_only
  create_branch_from name base = run_only ("checkout" ∷ "-b" ∷ name ∷ base ∷ [])

  unfoldable pub switch_branch : String → Call Unit
  unfolding run_only
  switch_branch name = run_only ("checkout" ∷ name ∷ [])

  unfoldable pub merge_branch : String → Call Unit
  unfolding run_only
  merge_branch name = run_only ("merge" ∷ "--no-ff" ∷ name ∷ [])

  unfoldable pub get_current_branch : Call String
  unfolding run
  get_current_branch = run ("rev-parse" ∷ "--abbrev-ref" ∷ "HEAD" ∷ [])

  unfoldable pub list_branches : Call (List String)
  unfolding then_call run answer branch_names split_lines
  list_branches =
      then_call (run ("branch" ∷ "-a" ∷ [])) (λ output. answer (branch_names (split_lines output)))

  unfoldable pub move_with_git : String → String → Call Unit
  unfolding run_only
  move_with_git src dst = run_only ("mv" ∷ src ∷ dst ∷ [])

  -- The limit as text, or none where it is not positive.
  unfoldable pub get_commit_log : String → Option String → Call (List CommitLogEntry)
  unfolding then_call run answer log_entries split_lines is_empty
  get_commit_log path limit =
      then_call
        (run (
          ("log" ∷ "--oneline" ∷ [])
          ++ elim limit [ none ↦ [] | some n ↦ str_append "-" n ∷ [] ]
          ++ (if is_empty path then [] else "--" ∷ path ∷ [])))
        (λ output. answer (log_entries (split_lines output)))

  unfoldable pub git_grep : String → String → Call (List SearchHit)
  unfolding run parse_grep_output is_empty contains
  git_grep pattern path s =
      let x =
        run
          (("grep" ∷ "-i" ∷ "-n" ∷ pattern ∷ [])
            ++ (if is_empty path then [] else "--" ∷ path ∷ []))
          s in
      elim x.0 [
        | ok output ↦ (ok (parse_grep_output output), x.1)
        | err e ↦ (if contains (codes e) (codes "exit status 1") then ok [] else err e, x.1)
      ]

  unfoldable pub git_blame : String → Call (List BlameEntry)
  unfolding then_call run answer parse_blame_output
  git_blame path =
      then_call (run ("blame" ∷ "-p" ∷ path ∷ [])) (λ output. answer (parse_blame_output output))

  unfoldable pub read_file_at_commit : String → String → Call String
  unfolding run
  read_file_at_commit path commit s =
      let shown = run ("show" ∷ str_append commit (str_append ":" path) ∷ []) s in
      if str_eq commit "" || str_eq commit "HEAD" then (read_file path s, s) else shown
