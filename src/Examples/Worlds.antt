-- ===== src/Examples/Worlds.antt =====
-- A git program and a file system to run the storage on: branches with their files and the number of
-- their commits, and the YAML of a decision that is its id.
use feishu_agent_mem.Prelude.{
  ℕ, zero, suc, ◌≡◌, refl, ◌∙◌, ap, arith, String, str_append, str_eq, eq_iff, List, [], ◌∷◌, false,
  sym, Result, ok, err, Option, none, some, known, Map, lookup, insert, trim_space, lookup-insert,
  str_eq_refl, if◌then◌else◌,
}
use feishu_agent_mem.Decision.Types.{DecisionNode, Objection}
use feishu_agent_mem.Storage.Format.{Yaml}
use feishu_agent_mem.Storage.Cli.{Exited, not_exist, World, run, get_current_branch}
use feishu_agent_mem.Storage.Laws.{
  IsLawful, Command, words, add_file, make_commit, ask_head, ask_branch, ask_count, push_base,
  ask_branches,
}
use feishu_agent_mem.Storage.Store.{Config}
use feishu_agent_mem.Examples.Samples.{decision_a}

pub record Branch : Type 0 where
  pub commits : ℕ
  pub files : Map String

pub record Disk : Type 0 where
  pub branches : Map Branch
  pub head : String
  pub work : Map String

abbrev fine : String → Exited
fine out = record { failure = none; stdout = out; stderr = "" }

abbrev fault : String → Exited
fault text = record { failure = some "exit status 1"; stdout = ""; stderr = text }

unfoldable pub digit : ℕ → String
digit zero = "0"
digit (suc zero) = "1"
digit (suc (suc zero)) = "2"
digit (suc (suc (suc n))) = "3"

unfoldable pub branch_listing : String → Map Branch → String
branch_listing head [] = ""
branch_listing head ((name, b) ∷ rest) =
    str_append (if str_eq name head then "* " else "  ")
      (str_append name (str_append "\n" (branch_listing head rest)))

-- The branch `name` from the files of a branch `base`.
unfoldable pub start : String → Option Branch → Disk → Exited × Disk
start name none w = (fault "unknown branch", w)
start name (some b) w =
    if str_eq (trim_space name) name
    then (fine "", record w { branches = insert name b w.branches; head = name; work = b.files })
    else (fault "bad name", w)

unfoldable pub checkout : List String → Disk → Exited × Disk
unfolding start lookup
checkout (name ∷ []) w = start name (lookup name w.branches) w
checkout (option ∷ name ∷ base ∷ []) w = start name (lookup base w.branches) w
checkout _ w = (fault "usage", w)

unfoldable pub record_commit : Disk → Disk
unfolding lookup insert
record_commit w = elim (lookup w.head w.branches) [
  | none ↦ w
  | some b ↦ record w {
    branches = insert w.head (record { commits = suc b.commits; files = w.work }) w.branches;
  }
]

unfoldable pub commits_of : String → Disk → ℕ
unfolding lookup
commits_of name w = elim (lookup name w.branches) [ none ↦ 0 | some b ↦ b.commits ]

unfoldable pub reply : String → List String → Disk → String
unfolding digit commits_of branch_listing
reply command (first ∷ []) w =
    if str_eq command "branch" then branch_listing w.head w.branches else "c1"
reply command (first ∷ second ∷ args) w =
    if str_eq command "rev-list" then digit (commits_of second w) else w.head
reply command [] w = ""

unfoldable pub memory_exec : List String → Disk → Exited × Disk
unfolding checkout record_commit reply
memory_exec [] w = (fault "usage", w)
memory_exec (command ∷ args) w =
    if str_eq command "checkout"
    then checkout args w
    else if str_eq command "commit"
    then (fine "", record_commit w)
    else (fine (reply command args w), w)

unfoldable pub read_work : String → Map String → Result String
unfolding lookup
read_work path work = elim (lookup path work) [ none ↦ err "no such file" | some text ↦ ok text ]

pub read_work-insert :
    (path text : String) (work : Map String) → read_work path (insert path text work) ≡ ok text
unfolding read_work
read_work-insert path text work =
    ground (arith, lookup-insert path path text work, str_eq_refl path)

abbrev pub memory_world : World
memory_world = record {
  State = Disk;
  git = memory_exec;
  mkdir_all = λ path w. (none, w);
  write_file = λ path text w. (none, record w { work = insert path text w.work });
  read_file = λ path w. read_work path w.work;
  read_dir = λ path w. not_exist;
  stat = λ path w. known (lookup path w.work);
}

abbrev pub disk : Disk
disk = record {
  branches = ("main", record { commits = 0; files = [] }) ∷ [];
  head = "main";
  work = [];
}

work-record_commit : (w : Disk) → (record_commit w).work ≡ w.work
unfolding record_commit
work-record_commit w = ground arith

head-record_commit : (w : Disk) → (record_commit w).head ≡ w.head
unfolding record_commit
head-record_commit w = ground arith

-- What a command of a write changes is the branches alone.
pub words-memory_exec :
    (path name : String) (c : Command) (w : Disk)
    → ((memory_exec (words "main" path name c) w).1.work ≡ w.work)
      × ((memory_exec (words "main" path name c) w).1.head ≡ w.head)
unfolding memory_exec words
words-memory_exec path name add_file w = (refl, refl)
words-memory_exec path name (make_commit message) w = (work-record_commit w, head-record_commit w)
words-memory_exec path name ask_head w = (refl, refl)
words-memory_exec path name ask_branch w = (refl, refl)
words-memory_exec path name ask_count w = (refl, refl)
words-memory_exec path name push_base w = (refl, refl)
words-memory_exec path name ask_branches w = (refl, refl)

pub head_trimmed : (w : Disk) → (get_current_branch memory_world w).0 ≡ ok (trim_space w.head)
unfolding get_current_branch run memory_exec
head_trimmed w = refl

start_trimmed :
    (name : String) (b : Option Branch) (w : Disk)
    → (start name b w).0.failure ≡ none
    → ((start name b w).1.head ≡ name) × (trim_space name ≡ name)
unfolding start
start_trimmed name none w h = ground (arith, h)
start_trimmed name (some b) w h = ground (arith, h, eq_iff (trim_space name) name)

pub current-checkout_memory :
    (name : String) (s : Disk)
    → (memory_exec ("checkout" ∷ name ∷ []) s).0.failure ≡ none
    → (get_current_branch memory_world (memory_exec ("checkout" ∷ name ∷ []) s).1).0 ≡ ok name
unfolding memory_exec checkout
current-checkout_memory name s h =
    let there = start_trimmed name (lookup name s.branches) s h in
    head_trimmed (memory_exec ("checkout" ∷ name ∷ []) s).1
    ∙ ap ok (ap trim_space there.0 ∙ there.1)

-- Every state of the program is settled, for every file, directory and branch.
abbrev pub memory_world-IsLawful :
    (path dir name : String) → IsLawful memory_world "main" path dir name
memory_world-IsLawful path dir name = record {
  Settled = λ s. Unit;
  settled-git = λ c s h. tt;
  settled-checkout = λ s h. tt;
  settled-create = λ s h. tt;
  settled-write = λ text s h. tt;
  settled-mkdir = λ s h. tt;
  read-write = λ text s h fine. read_work-insert path text s.work;
  read-git = λ c s h. ap (read_work path) (words-memory_exec path name c s).0;
  current-checkout = λ s h fine. current-checkout_memory name s fine;
  current-git = λ c s h.
      head_trimmed (memory_exec (words "main" path name c) s).1
      ∙ ap (λ found. ok (trim_space found)) (words-memory_exec path name c s).1
      ∙ sym (head_trimmed s);
  current-write = λ text s h. head_trimmed _ ∙ sym (head_trimmed s);
  current-mkdir = λ s h. refl;
}

-- The YAML of decisions with the id and the version alone.
abbrev pub small_yaml : Yaml DecisionNode
small_yaml = record {
  encode = λ d.
      str_append "sdr_id: "
        (str_append d.sdr_id (str_append "\nversion: " (str_append (digit d.version) "\n")));
  unmarshal = λ text.
      if str_eq text "sdr_id: a\nversion: 1\n" then ok decision_a else err "unknown document";
}

abbrev pub no_objections : Yaml Objection
no_objections = record { encode = λ o. ""; unmarshal = λ text. err "none" }

abbrev pub local : Config
local = record { remote = ""; auto_push = false; branch = "main" }

-- A YAML whose second line is three dashes, indented as in a long text.
abbrev pub ruled_yaml : Yaml DecisionNode
ruled_yaml = record {
  encode = λ d. "rationale: |-\n  ---\nproject: mem\n";
  unmarshal = λ text.
      if str_eq text "rationale: |-\n"
      then ok (record decision_a { project = "" })
      else ok decision_a;
}
