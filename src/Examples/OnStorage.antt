-- ===== src/Examples/OnStorage.antt =====
-- The theorems on the storage, at a decision and a repository.
use feishu_agent_mem.Prelude.{◌≡◌, refl, true, [], ◌∷◌, ok, unlines}
use feishu_agent_mem.Decision.Node.{new_decision_node, get_decision_branch}
use feishu_agent_mem.Storage.Format.{parse_decision_file, render_decision_file, is_rule}
use feishu_agent_mem.Storage.RoundTrip.{
  IsPlain, is_plain, is_scanned, parse-render_decision_file, parse-render_decision_file_cut,
}
use feishu_agent_mem.Storage.Cli.{get_current_branch}
use feishu_agent_mem.Storage.Names.{decision_path, decision_dir}
use feishu_agent_mem.Storage.Store.{write_decision, read_decision}
use feishu_agent_mem.Storage.ReadBack.{read_decision-write_decision}
use feishu_agent_mem.Storage.OnBranch.{current-write_decision}
use feishu_agent_mem.Examples.Samples.{decision_a}
use feishu_agent_mem.Examples.Worlds.{
  memory_world, memory_world-IsLawful, disk, memory_exec, small_yaml, ruled_yaml, no_objections,
  local, digit,
}

IsPlain-lines : IsPlain "sdr_id: a" × IsPlain "version: 1" × IsPlain "rationale: |-"
unfolding is_plain
IsPlain-lines = (refl, refl, refl)

indented_rule : (is_scanned "  ---" ≡ true) × (is_rule "  ---" ≡ true)
unfolding is_scanned is_rule
indented_rule = (refl, refl)

parse-render_decision_file_example :
    parse_decision_file small_yaml (render_decision_file small_yaml decision_a) ≡ ok decision_a
unfolding unlines digit new_decision_node
parse-render_decision_file_example =
    parse-render_decision_file small_yaml decision_a "sdr_id: a" ("version: 1" ∷ [])
      (IsPlain-lines.0, (IsPlain-lines.1, tt)) refl refl

parse-render_decision_file_cut_example :
    parse_decision_file ruled_yaml (render_decision_file ruled_yaml decision_a)
    ≡ ok (record decision_a { project = "" })
unfolding unlines
parse-render_decision_file_cut_example =
    parse-render_decision_file_cut ruled_yaml decision_a "rationale: |-" [] "  ---" "project: mem\n"
      (IsPlain-lines.2, tt) indented_rule.0 indented_rule.1 refl

written :
    (write_decision memory_world small_yaml no_objections local decision_a disk).outcome ≡ ok "c1"
unfolding write_decision memory_exec new_decision_node
written = refl

read_decision-write_decision_example :
    read_decision memory_world small_yaml no_objections local "mem" "lang" "a"
      (write_decision memory_world small_yaml no_objections local decision_a disk).repo
    ≡ ok (record decision_a {
      version =
          (write_decision memory_world small_yaml no_objections local decision_a disk).version;
    })
unfolding new_decision_node write_decision memory_exec unlines digit
read_decision-write_decision_example =
    read_decision-write_decision memory_world small_yaml no_objections local decision_a
      (memory_world-IsLawful (decision_path decision_a.project decision_a.topic decision_a.sdr_id)
        (decision_dir decision_a.project decision_a.topic) (get_decision_branch decision_a))
      disk "sdr_id: a" ("version: 1" ∷ []) tt written (IsPlain-lines.0, (IsPlain-lines.1, tt)) refl
      refl

current-write_decision_example :
    (get_current_branch memory_world
      (write_decision memory_world small_yaml no_objections local decision_a disk).repo).0
    ≡ ok (get_decision_branch decision_a)
current-write_decision_example =
    current-write_decision memory_world small_yaml no_objections local decision_a
      (memory_world-IsLawful (decision_path decision_a.project decision_a.topic decision_a.sdr_id)
        (decision_dir decision_a.project decision_a.topic) (get_decision_branch decision_a))
      disk tt written
