-- ===== src/Sync/Manager.antt =====
-- The reconciliation of the decisions in Git with those in Bitable (internal/sync/sync.go). Bitable is
-- a parameter: the list that it answers with, and the calls that change it, with their errors. The log
-- and the clock of the change log are left out.
use feishu_agent_mem.Prelude.{
  String, str_append, str_eq, List, [], ◌∷◌, ◌++◌, Bool, not, ◌||◌, ◌&&◌, Map, lookup, insert,
  Option, none, some, Result, ok, err, if◌then◌else◌,
}
use feishu_agent_mem.Decision.Types.{DecisionNode}
use feishu_agent_mem.Signal.Texts.{status_text, impact_text}
use feishu_agent_mem.Pipeline.Engine.{GitStorage, or_default}

pub record ChangeLogEntry : Type 0 where
  pub source : String
  pub op : String
  pub sdr_id : String
  pub title : String
  pub details : String

-- The stores behind the manager. `list_git` is `readAllGitDecisions` and `file_hash` is
-- `getGitFileHash`, which read the files and the log of the repository.
pub record Stores : Type 1 where
  pub git : GitStorage
  pub Table : Type 0
  pub list_git : git.Repo → Result (List DecisionNode)
  pub file_hash : String → String → String → git.Repo → Result String
  pub list_all : Table → Result (List DecisionNode)
  pub upsert : DecisionNode → Table → Option String × Table

-- if c { return true } …, over the eight compared fields
unfoldable pub has_changes : DecisionNode → DecisionNode → Bool
unfolding status_text impact_text
has_changes a b =
    not (str_eq a.title b.title)
    || not (str_eq a.decision b.decision)
    || not (str_eq a.rationale b.rationale)
    || not (str_eq (status_text a.status) (status_text b.status))
    || not (str_eq (impact_text a.impact_level) (impact_text b.impact_level))
    || not (str_eq a.topic b.topic)
    || not (str_eq a.proposer b.proposer)
    || not (str_eq a.executor b.executor)

-- if new != "" { field = new }
abbrev pub prefer : String → String → String
prefer new old = if str_eq new "" then old else new

abbrev pub prefer_list : List String → List String → List String
prefer_list [] old = old
prefer_list (s ∷ new) old = s ∷ new

unfoldable pub merge_decisions : DecisionNode → DecisionNode → DecisionNode
unfolding status_text impact_text
merge_decisions git_node bitable_node = record git_node {
  title = prefer bitable_node.title git_node.title;
  decision = prefer bitable_node.decision git_node.decision;
  rationale = prefer bitable_node.rationale git_node.rationale;
  status =
      if str_eq (status_text bitable_node.status) "" then git_node.status else bitable_node.status;
  impact_level =
      if str_eq (impact_text bitable_node.impact_level) ""
      then git_node.impact_level
      else bitable_node.impact_level;
  topic = prefer bitable_node.topic git_node.topic;
  proposer = prefer bitable_node.proposer git_node.proposer;
  executor = prefer bitable_node.executor git_node.executor;
  cross_topic_refs = prefer_list bitable_node.cross_topic_refs git_node.cross_topic_refs;
  stakeholders = prefer_list bitable_node.stakeholders git_node.stakeholders;
  feishu_links = record git_node.feishu_links {
    related_chat_ids =
        prefer_list bitable_node.feishu_links.related_chat_ids
          git_node.feishu_links.related_chat_ids;
  };
}

-- The index by id, of the records that have one; the last of equal ids stands.
unfoldable pub index_decisions : List DecisionNode → Map DecisionNode → Map DecisionNode
unfolding insert
index_decisions [] index = index
index_decisions (d ∷ decisions) index =
    index_decisions decisions (if str_eq d.sdr_id "" then index else insert d.sdr_id d index)

module _ (S : Stores) where
  open S use {git, Table, list_git, file_hash, list_all, upsert}

  pub record SyncManager : Type 0 where
    pub repo : git.Repo
    pub table : Table
    pub change_log : List ChangeLogEntry

  unfoldable pub log_change : ChangeLogEntry → SyncManager → SyncManager
  log_change entry sm = record sm { change_log = sm.change_log ++ entry ∷ [] }

  -- sm.bitableStore.UpsertDecision(d), the error dropped
  unfoldable pub push_record : DecisionNode → SyncManager → SyncManager
  push_record d sm = record sm { table = (upsert d sm.table).1 }

  -- An upsert that is logged when it succeeds.
  unfoldable pub publish_record : String → DecisionNode → SyncManager → SyncManager
  unfolding log_change
  publish_record op d sm =
      let answer = upsert d sm.table in
      let sent = record sm { table = answer.1 } in
      elim answer.0 [
        | some e ↦ sent
        | none ↦
            log_change
              (record {
                source = "git";
                op = op;
                sdr_id = d.sdr_id;
                title = d.title;
                details = str_append "Git hash: " d.git_commit_hash;
              })
              sent
      ]

  -- The loop body of `SyncGitToBitable`.
  unfoldable pub forward_one : Map DecisionNode → DecisionNode → SyncManager → SyncManager
  unfolding lookup publish_record
  forward_one index d sm = elim (lookup d.sdr_id index) [
    | none ↦ publish_record "create" d sm
    | some existing ↦
        let updated = publish_record "update" d sm in
        if str_eq existing.git_commit_hash d.git_commit_hash then sm else updated
  ]

  unfoldable pub forward_all : Map DecisionNode → List DecisionNode → SyncManager → SyncManager
  unfolding forward_one
  forward_all index [] sm = sm
  forward_all index (d ∷ decisions) sm = forward_all index decisions (forward_one index d sm)

  -- A list of Bitable that fails counts as empty.
  unfoldable pub sync_git_to_bitable : SyncManager → Option String × SyncManager
  unfolding forward_all index_decisions
  sync_git_to_bitable sm = elim (list_git sm.repo) [
    | err e ↦ (some (str_append "读取 Git 决策失败: " e), sm)
    | ok decisions ↦
        let known : List DecisionNode = elim (list_all sm.table) [
          | err e ↦ []
          | ok records ↦ records
        ] in
        (none, forward_all (index_decisions known []) decisions sm)
  ]

  unfoldable pub with_defaults : DecisionNode → DecisionNode
  with_defaults d = record d {
    project = or_default d.project "feishu-mem";
    topic = or_default d.topic "general";
  }

  -- A write to Git that is logged, and whose hash goes to Bitable.
  unfoldable pub write_back : String → DecisionNode → DecisionNode → SyncManager → SyncManager
  unfolding log_change push_record
  write_back op d node sm =
      let w = git.write_decision node sm.repo in
      let moved = record sm { repo = w.repo } in
      elim w.outcome [
        | err e ↦ moved
        | ok hash ↦
            push_record (record node { version = w.version; git_commit_hash = hash })
              (log_change
                (record {
                  source = "bitable";
                  op = op;
                  sdr_id = d.sdr_id;
                  title = d.title;
                  details = str_append "Commit: " hash;
                })
                moved)
      ]

  -- if d.GitCommitHash == "" && gitHash != "" { … }
  unfoldable pub fill_hash : DecisionNode → DecisionNode → SyncManager → SyncManager
  unfolding push_record
  fill_hash existing d sm =
      let git_hash : String = elim (file_hash d.project d.topic d.sdr_id sm.repo) [
        | err e ↦ ""
        | ok h ↦ h
      ] in
      let filled = push_record (record existing { git_commit_hash = git_hash }) sm in
      if str_eq d.git_commit_hash "" && not (str_eq git_hash "") then filled else sm

  -- The loop body of `SyncBitableToGit`, for a record with an id.
  unfoldable pub backward_one : Map DecisionNode → DecisionNode → SyncManager → SyncManager
  unfolding lookup has_changes merge_decisions write_back fill_hash
  backward_one index d sm = elim (lookup d.sdr_id index) [
    | none ↦ write_back "create" d d sm
    | some existing ↦
        let updated = write_back "update" d (merge_decisions existing d) sm in
        let filled = fill_hash existing d sm in if has_changes existing d then updated else filled
  ]

  unfoldable pub backward_all : Map DecisionNode → List DecisionNode → SyncManager → SyncManager
  unfolding backward_one with_defaults
  backward_all index [] sm = sm
  backward_all index (d ∷ records) sm =
      backward_all index records
        (if str_eq d.sdr_id "" then sm else backward_one index (with_defaults d) sm)

  -- A list of Git that fails counts as empty.
  unfoldable pub sync_bitable_to_git : SyncManager → Option String × SyncManager
  unfolding backward_all index_decisions
  sync_bitable_to_git sm = elim (list_all sm.table) [
    | err e ↦ (some (str_append "读取 Bitable 决策失败: " e), sm)
    | ok records ↦
        let known : List DecisionNode = elim (list_git sm.repo) [
          | err e ↦ []
          | ok decisions ↦ decisions
        ] in
        (none, backward_all (index_decisions known []) records sm)
  ]
