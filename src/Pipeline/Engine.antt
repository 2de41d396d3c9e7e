-- ===== src/Pipeline/Engine.antt =====
-- The pipeline engine: its stores and the commit (internal/core/pipeline.go). The Git store is the parameter `GitStorage`, the source's interface of
-- that name. The Bitable store and the notifier answer with errors that the source only logs, so
-- each is the list of the calls made on it, or `none` where the source holds nil. Writes to the log
-- are left out.
use feishu_agent_mem.Prelude.{
  ℕ, String, str_append, str_eq, List, [], ◌∷◌, ◌++◌, Option, some, none, ◌||◌, Result, ok, err,
  if◌then◌else◌,
}
use feishu_agent_mem.Decision.Types.{DecisionNode, Objection}
use feishu_agent_mem.Signal.Types.{Any, text, other}
use feishu_agent_mem.Signal.Texts.{impact_of_text, status_of_text}
use feishu_agent_mem.Graph.State.{MemoryGraph, append_unique, upsert_decision}

-- What a handler returns: nil, an error, or no return at all.
pub data Outcome : Type 0 where
  done : Outcome
  failed : String → Outcome
  panicked : Outcome

-- What `WriteDecision` did: the version that it wrote into the node, the hash or an error, and the
-- repository. On success it writes the hash into the node too.
pub record Written (Repo : Type 0) : Type 0 where
  pub version : ℕ
  pub outcome : Result String
  pub repo : Repo

pub record GitStorage : Type 1 where
  pub Repo : Type 0
  pub write_decision : DecisionNode → Repo → Written Repo
  pub read_decision : String → String → String → Repo → Result DecisionNode
  pub write_objection : Objection → Repo → Result String × Repo
  pub read_decision_at_commit : String → String → String → String → Repo → Result DecisionNode

pub data BitableCall : Type 0 where
  upsert : DecisionNode → BitableCall
  upsert_with_conflict : DecisionNode → String → BitableCall
  update_conflict_fields : String → String → BitableCall
  clear_conflict_fields : String → BitableCall

pub record Notice : Type 0 where
  pub node_a : DecisionNode
  pub node_b : DecisionNode
  pub reason : String

-- `switch k` of `applyUpdate`: the assertion `v.(string)` panics on another type.
unfoldable pub apply_field : String → Any → DecisionNode → Option DecisionNode
unfolding impact_of_text status_of_text
apply_field k (text v) d =
    if str_eq k "title"
    then some (record d { title = v })
    else if str_eq k "decision"
    then some (record d { decision = v })
    else if str_eq k "rationale"
    then some (record d { rationale = v })
    else if str_eq k "impact_level"
    then some (record d { impact_level = impact_of_text v })
    else if str_eq k "executor"
    then some (record d { executor = v })
    else if str_eq k "proposer"
    then some (record d { proposer = v })
    else if str_eq k "status"
    then some (record d { status = status_of_text v })
    else some d
apply_field k other d =
    if str_eq k "title"
      || str_eq k "decision"
      || str_eq k "rationale"
      || str_eq k "impact_level"
      || str_eq k "executor"
      || str_eq k "proposer"
      || str_eq k "status"
    then none
    else some d

unfoldable pub apply_fields : List (String × Any) → DecisionNode → Option DecisionNode
unfolding apply_field
apply_fields [] d = some d
apply_fields ((k, v) ∷ rest) d = elim (apply_field k v d) [
  | none ↦ none
  | some d' ↦ apply_fields rest d'
]

unfoldable pub append_tokens : List String → List String → List String
unfolding append_unique
append_tokens tokens [] = tokens
append_tokens tokens (token ∷ rest) = append_tokens (append_unique tokens token) rest

unfoldable pub merge_doc_tokens : DecisionNode → DecisionNode → DecisionNode
unfolding append_tokens
merge_doc_tokens existing node = record existing {
  feishu_links = record existing.feishu_links {
    related_doc_tokens =
        append_tokens existing.feishu_links.related_doc_tokens node.feishu_links.related_doc_tokens;
  };
}

-- if s == "" { s = fallback }
abbrev pub or_default : String → String → String
or_default s fallback = if str_eq s "" then fallback else s

module _ (G : GitStorage) where
  open G use {Repo, write_decision, read_decision, write_objection, read_decision_at_commit}

  pub record Engine : Type 0 where
    pub repo : Repo
    pub bitable : Option (List BitableCall)
    pub graph : MemoryGraph
    pub notifier : Option (List Notice)

  abbrev pub Handler : Type 0
  Handler = Engine → Outcome × Engine

  -- if pe.BitableStore != nil { … }
  unfoldable pub sync : List BitableCall → Engine → Engine
  sync calls e = elim e.bitable [
    | none ↦ e
    | some made ↦ record e { bitable = some (made ++ calls) }
  ]

  -- The node after a write: `WriteDecision` sets the version always and the hash on success.
  unfoldable pub stamped : DecisionNode → Written Repo → DecisionNode
  stamped node w = elim w.outcome [
    | err x ↦ record node { version = w.version }
    | ok hash ↦ record node { version = w.version; git_commit_hash = hash }
  ]

  -- `hash, err := WriteDecision(node); if err != nil { return context: err }; node.hash = hash; …`
  unfoldable pub commit : String → DecisionNode → (DecisionNode → Engine → Engine) → Handler
  unfolding stamped
  commit context node after e =
      let w = write_decision node e.repo in
      elim w.outcome [
        | err x ↦ (failed (str_append context x), record e { repo = w.repo })
        | ok hash ↦ (done, after (stamped node w) (record e { repo = w.repo }))
      ]

  unfoldable pub remember : DecisionNode → Engine → Engine
  unfolding upsert_decision
  remember node e = record e { graph = upsert_decision node node.project e.graph }

  -- pe.BitableStore.UpsertDecision(node), then pe.MemoryGraph.UpsertDecision(node, node.Project)
  unfoldable pub publish : DecisionNode → Engine → Engine
  unfolding sync remember
  publish node e = remember node (sync (upsert node ∷ []) e)
