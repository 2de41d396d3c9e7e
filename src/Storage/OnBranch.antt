-- ===== src/Storage/OnBranch.antt =====
-- The branch on which `WriteDecision` leaves the repository (internal/storage/git/git_storage.go).
use feishu_agent_mem.Prelude.{◌≡◌, String, ok}
use feishu_agent_mem.Decision.Types.{DecisionNode, Objection}
use feishu_agent_mem.Decision.Node.{get_decision_branch}
use feishu_agent_mem.Storage.Format.{Yaml}
use feishu_agent_mem.Storage.Names.{decision_path, decision_dir}
use feishu_agent_mem.Storage.Cli.{World, get_current_branch}
use feishu_agent_mem.Storage.Laws.{IsLawful}
use feishu_agent_mem.Storage.ReadBack.{write_decision_lem}
use feishu_agent_mem.Storage.Store.{Config, write_decision}

-- From a settled state, a write without an error leaves the repository on the branch of the decision.
pub current-write_decision :
    (W : World) (yaml : Yaml DecisionNode) (objections : Yaml Objection) (config : Config)
    (d : DecisionNode)
    (law : IsLawful W config.branch
      (decision_path d.project d.topic d.sdr_id)
      (decision_dir d.project d.topic)
      (get_decision_branch d))
    (s : W.State) {hash : String}
    → law.Settled s
    → (write_decision W yaml objections config d s).outcome ≡ ok hash
    → (get_current_branch W (write_decision W yaml objections config d s).repo).0
      ≡ ok (get_decision_branch d)
current-write_decision W yaml objections config d law s h i =
    (write_decision_lem W yaml objections config d law s h i).1
