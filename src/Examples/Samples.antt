-- ===== src/Examples/Samples.antt =====
-- Decisions, signals and stores to run the models on: a repository that keeps every commit, and
-- scores in tenths.
use feishu_agent_mem.Prelude.{
  ℕ, ◌+◌, ◌≡◌, refl, arith, String, str_eq, eq_iff, List, [], ◌∷◌, some, none, Bool, true, false,
  ◌&&◌, ltb, Bool-cases, inl, inr, Result, ok, err, if◌then◌else◌,
}
use feishu_agent_mem.Decision.Types.{DecisionNode, decided, major}
use feishu_agent_mem.Decision.Node.{new_decision_node}
use feishu_agent_mem.Signal.Types.{
  AdapterType, im, created, SignalStrength, strong, StateChangeSignal,
}
use feishu_agent_mem.Graph.State.{MemoryGraph, new_memory_graph, upsert_decision}
use feishu_agent_mem.Pipeline.Engine.{GitStorage, Engine}
use feishu_agent_mem.Conflict.Resolver.{Float64}

-- The newest commit of the decision that passes the test, newest first.
unfoldable pub find_commit :
    (DecisionNode → Bool) → String → List DecisionNode → Result DecisionNode
find_commit test sdr_id [] = err "not found"
find_commit test sdr_id (d ∷ repo) =
    let rest = find_commit test sdr_id repo in
    if str_eq d.sdr_id sdr_id && test d then ok d else rest

abbrev pub memory_git : GitStorage
memory_git = record {
  Repo = List DecisionNode;
  write_decision = λ d repo. record {
    version = d.version + 1;
    outcome = ok "c9";
    repo = record d { version = d.version + 1; git_commit_hash = "c9" } ∷ repo;
  };
  read_decision = λ project topic sdr_id repo. find_commit (λ _. true) sdr_id repo;
  write_objection = λ o repo. (ok "c9", repo);
  read_decision_at_commit = λ project topic sdr_id commit repo.
      find_commit (λ d. str_eq d.git_commit_hash commit) sdr_id repo;
}

-- A repository that refuses every write.
abbrev pub broken_git : GitStorage
broken_git = record memory_git {
  write_decision =
      λ d repo. record { version = d.version + 1; outcome = err "disk full"; repo = repo };
}

pub sdr_id-find_commit :
    (test : DecisionNode → Bool) (sdr_id : String) (repo : List DecisionNode) (d : DecisionNode)
    → find_commit test sdr_id repo ≡ ok d
    → d.sdr_id ≡ sdr_id
unfolding find_commit
sdr_id-find_commit test sdr_id [] d h = cc
sdr_id-find_commit test sdr_id (c ∷ repo) d h =
    elim (Bool-cases (str_eq c.sdr_id sdr_id && test c)) [
      | inl hit ↦ ground (arith, h, hit, eq_iff c.sdr_id sdr_id)
      | inr miss ↦ sdr_id-find_commit test sdr_id repo d (ground (arith, h, miss))
    ]

abbrev pub decision_a : DecisionNode
decision_a = record (new_decision_node 1000 "a" "Use Go" "mem" "lang") {
  status = decided;
  git_commit_hash = "c1";
}

-- The version before it.
abbrev pub decision_a_old : DecisionNode
decision_a_old = record decision_a { title = "Use C"; git_commit_hash = "c0" }

abbrev pub decision_b : DecisionNode
decision_b = record (new_decision_node 2000 "b" "Use Rust" "mem" "lang") { impact_level = major }

abbrev pub graph : MemoryGraph
graph = upsert_decision decision_a "mem" new_memory_graph

abbrev pub signal_of : AdapterType → SignalStrength → StateChangeSignal
signal_of adapter strength = record {
  signal_id = "s1";
  adapter = adapter;
  timestamp = 3000;
  event_type = "message";
  change_type = created;
  change_summary = "";
  primary_id = "m1";
  related_ids = [];
  comment_id = "";
  context = record {
    keywords = [];
    decision_signals = [];
    mentioned_ids = [];
    actor_id = "";
    participant_ids = [];
    embedded_urls = [];
    content_snippet = "";
    event_time = 3000;
    is_decision = true;
  };
  strength = strength;
}

abbrev pub signal : StateChangeSignal
signal = signal_of im strong

abbrev pub engine : Engine memory_git
engine = record {
  repo = decision_a ∷ decision_a_old ∷ [];
  bitable = some [];
  graph = graph;
  notifier = some [];
}

abbrev pub broken_engine : Engine broken_git
broken_engine = record { repo = decision_a ∷ []; bitable = some []; graph = graph; notifier = none }

pub ltb_asymm : (a b : ℕ) → ltb a b ≡ true → ltb b a ≡ false
ltb_asymm a b h = ground arith

-- Scores in tenths.
abbrev pub tenths : Float64
tenths = record {
  F = ℕ;
  lt = ltb;
  zero_score = 0;
  low = 3;
  high = 6;
  lt_asymm = ltb_asymm;
  zero-lt-low = refl;
}
