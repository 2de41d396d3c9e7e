-- ===== src/Pipeline/Handlers/Restore.antt =====
-- The handler of a revert (internal/core/pipeline.go).
use feishu_agent_mem.Prelude.{◌+◌, str_append, str_eq, ◌||◌, ok, err, if◌then◌else◌}
use feishu_agent_mem.Decision.Types.{DecisionNode, superseded, supersedes}
use feishu_agent_mem.Decision.Node.{branch_prefix_decision, add_relation}
use feishu_agent_mem.Signal.Types.{DecisionMutation}
use feishu_agent_mem.Pipeline.Engine.{
  failed, GitStorage, Engine, Handler, stamped, commit, remember, publish,
}
use feishu_agent_mem.Pipeline.Handlers.Places.{place_in_graph, read_at}

module _ (G : GitStorage) where
  open G use {write_decision, read_decision, write_objection, read_decision_at_commit}

  -- if branch == "" || branch == "main" { branch = prefix + id }
  unfoldable pub own_branch : DecisionNode → DecisionNode
  own_branch d =
      if str_eq d.branch "" || str_eq d.branch "main"
      then record d { branch = str_append branch_prefix_decision d.sdr_id }
      else d

  -- The current version is marked superseded and written; an error of the write is only logged.
  unfoldable pub supersede :
      DecisionNode → DecisionNode → DecisionMutation → Engine G → DecisionNode × Engine G
  unfolding add_relation stamped
  supersede current target mut e =
      let marked =
        add_relation (record current { status = superseded }) supersedes target.sdr_id
          (str_append "reverted to commit " mut.target_commit_hash) in
      let w = write_decision marked e.repo in (stamped G marked w, record e { repo = w.repo })

  -- The node that is written: the target's content under the version behind the current one.
  unfoldable pub next_version : DecisionNode → DecisionNode → DecisionNode
  unfolding own_branch
  next_version current target = own_branch (record target {
    previous_commit_hash = current.git_commit_hash;
    version = current.version + 1;
  })

  -- The graph gets the target and then, under the same id, the old version.
  unfoldable pub after_revert : DecisionNode → DecisionNode → Engine G → Engine G
  unfolding publish remember
  after_revert old written e = remember G old (publish G written e)

  unfoldable pub apply_revert : DecisionMutation → Handler G
  unfolding commit publish place_in_graph own_branch next_version supersede after_revert
  apply_revert mut e =
      let place = place_in_graph mut.sdr_id e.graph in
      elim (read_decision_at_commit place.project place.topic mut.sdr_id mut.target_commit_hash
        e.repo) [
          | err x ↦ (failed (str_append "read target commit failed: " x), e)
          | ok target ↦ elim (read_at G place mut.sdr_id e) [
            | err x ↦ commit G "git write failed: " (own_branch target) (publish G) e
            | ok current ↦
                let next = next_version current target in
                let (old, marked) = supersede current next mut e in
                commit G "git write failed: " next (after_revert old) marked
          ]
        ]
