-- ===== src/Storage/Laws.antt =====
-- What `WriteDecision` relies on of git and of the file system, as the manuals of git-checkout,
-- git-rev-parse and the other commands say it, for one branch, file and directory.
use feishu_agent_mem.Prelude.{◌≡◌, String, str_append, List, [], ◌∷◌, Result, ok, none}
use feishu_agent_mem.Storage.Cli.{World, get_current_branch}

-- The git commands of a write that neither switch branches nor change a file of the working directory:
-- `git add` of the file, `git commit`, the questions, and `git push` of the base branch.
pub data Command : Type 0 where
  add_file ask_head ask_branch ask_count push_base ask_branches : Command
  make_commit : String → Command

unfoldable pub words : String → String → String → Command → List String
words base path name add_file = "add" ∷ path ∷ []
words base path name (make_commit message) = "commit" ∷ "-m" ∷ message ∷ []
words base path name ask_head = "rev-parse" ∷ "HEAD" ∷ []
words base path name ask_branch = "rev-parse" ∷ "--abbrev-ref" ∷ "HEAD" ∷ []
words base path name ask_count = "rev-list" ∷ "--count" ∷ name ∷ str_append "^" base ∷ []
words base path name push_base = "push" ∷ "-u" ∷ "origin" ∷ base ∷ []
words base path name ask_branches = "branch" ∷ "-a" ∷ []

abbrev pub current : (W : World) → W.State → Result String
current W s = (get_current_branch W s).0

-- The laws are asked of settled states alone: a readable repository without hooks, with a first
-- commit, in whose working directory and branches `path` is at most a regular file outside `.git` and
-- `dir` at most a directory, and in which `name` is a valid name of a branch, with a character that
-- no hash has, and names no tag, no file and nothing else. No command of a write leaves these states.
pub record IsLawful (W : World) (base path dir name : String) : Type 1 where
  pub Settled : W.State → Type 0
  pub settled-git :
      (c : Command) (s : W.State) → Settled s → Settled (W.git (words base path name c) s).1
  pub settled-checkout : (s : W.State) → Settled s → Settled (W.git ("checkout" ∷ name ∷ []) s).1
  pub settled-create :
      (s : W.State) → Settled s → Settled (W.git ("checkout" ∷ "-b" ∷ name ∷ base ∷ []) s).1
  pub settled-write :
      (text : String) (s : W.State) → Settled s → Settled (W.write_file path text s).1
  pub settled-mkdir : (s : W.State) → Settled s → Settled (W.mkdir_all dir s).1
  pub read-write :
      (text : String) (s : W.State)
      → Settled s
      → (W.write_file path text s).0 ≡ none
      → W.read_file path (W.write_file path text s).1 ≡ ok text
  pub read-git :
      (c : Command) (s : W.State)
      → Settled s
      → W.read_file path (W.git (words base path name c) s).1 ≡ W.read_file path s
  -- `git checkout <branch>` that succeeds ends on the branch.
  pub current-checkout :
      (s : W.State)
      → Settled s
      → (W.git ("checkout" ∷ name ∷ []) s).0.failure ≡ none
      → current W (W.git ("checkout" ∷ name ∷ []) s).1 ≡ ok name
  pub current-git :
      (c : Command) (s : W.State)
      → Settled s
      → current W (W.git (words base path name c) s).1 ≡ current W s
  pub current-write :
      (text : String) (s : W.State)
      → Settled s
      → current W (W.write_file path text s).1 ≡ current W s
  pub current-mkdir : (s : W.State) → Settled s → current W (W.mkdir_all dir s).1 ≡ current W s
