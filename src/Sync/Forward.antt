-- ===== src/Sync/Forward.antt =====
-- The forward direction: Bitable after Git (internal/sync/sync.go). Bitable may refuse, change or lose
-- what it is sent; nothing is asked of it.
use feishu_agent_mem.Prelude.{
  String, str_append, str_eq, List, [], ◌∷◌, ◌++◌, Bool, true, not, map, known, Map, lookup, none,
  some, ok, err, if◌then◌else◌,
}
use feishu_agent_mem.Decision.Types.{DecisionNode}
use feishu_agent_mem.Sync.Manager.{Stores, SyncManager, ChangeLogEntry}

-- Bitable has nothing of the id, or another hash.
unfoldable pub is_outdated : Map DecisionNode → DecisionNode → Bool
is_outdated index d = elim (lookup d.sdr_id index) [
  | none ↦ true
  | some existing ↦ not (str_eq existing.git_commit_hash d.git_commit_hash)
]

-- How the change log names what was sent.
abbrev pub operation : Map DecisionNode → DecisionNode → String
operation index d = if known (lookup d.sdr_id index) then "update" else "create"

module _ (S : Stores) where
  -- What Bitable lists, or nothing where it does not answer.
  unfoldable pub listed : S.Table → List DecisionNode
  listed table = elim (S.list_all table) [ err e ↦ [] | ok records ↦ records ]

  -- The table after every decision was sent once, in order, whatever the answers.
  unfoldable pub sent_all : List DecisionNode → S.Table → S.Table
  sent_all [] table = table
  sent_all (d ∷ decisions) table = sent_all decisions (S.upsert d table).1

  -- Those of the decisions, sent in order, that Bitable takes.
  unfoldable pub taken : List DecisionNode → S.Table → List DecisionNode
  taken [] table = []
  taken (d ∷ decisions) table =
      let rest = taken decisions (S.upsert d table).1 in
      if known (S.upsert d table).0 then rest else d ∷ rest

  -- The entry of the change log for a decision of Git.
  abbrev pub entry : Map DecisionNode → DecisionNode → ChangeLogEntry
  entry index d = record {
    source = "git";
    op = operation index d;
    sdr_id = d.sdr_id;
    title = d.title;
    details = str_append "Git hash: " d.git_commit_hash;
  }

  -- The manager after the decisions were sent, by the descriptions above.
  abbrev pub carried : Map DecisionNode → List DecisionNode → SyncManager S → SyncManager S
  carried index decisions sm = record sm {
    table = sent_all decisions sm.table;
    change_log = sm.change_log ++ map (entry index) (taken decisions sm.table);
  }
