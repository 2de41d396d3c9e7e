-- ===== src/Examples/OnWorkers.antt =====
-- The theorems on the workers that read messages, documents and both stores, at samples.
use feishu_agent_mem.Prelude.{
  some, ◌⊎◌, ◌*◌, ◌≡◌, ◌≤◌, refl, arith, String, str_eq, List, [], ◌∷◌, ◌++◌, none, true, false,
  ◌&&◌, leb, count_if, length, ◌+◌, Map, ok, if◌then◌else◌,
}
use feishu_agent_mem.Decision.Types.{DecisionNode, pending}
use feishu_agent_mem.Decision.Node.{new_decision_node}
use feishu_agent_mem.Graph.Consistency.{IsConsistent}
use feishu_agent_mem.Signal.Updater.{Calendar, day, has_status}
use feishu_agent_mem.Signal.Settling.{
  Check, changes, changes-le, checked, waits, is_stale, stale_settles,
}
use feishu_agent_mem.Pipeline.Updates.{run_check}
use feishu_agent_mem.Pipeline.Aging.{IsAged, run_check_lem}
use feishu_agent_mem.Graph.Queries.{get_decision, get_all_decisions}
use feishu_agent_mem.Signal.Detector.Details.{Texts, with_first, contains_any, when}
use feishu_agent_mem.Signal.Detector.Patterns.{
  analyze_patterns, compile_patterns, compile_doc_patterns,
}
use feishu_agent_mem.Signal.Detector.Structural.{analyze_structural, analyze_dynamic}
use feishu_agent_mem.Signal.Detector.Documents.{spec}
use feishu_agent_mem.Signal.Detector.Analysis.{
  analyze, analyze_document, one_score, hundredths, is_skipped_type,
}
use feishu_agent_mem.Signal.Detector.Verdicts.{
  analyze_lem, analyze_keywords_alone, analyze_document_lem,
}
use feishu_agent_mem.Lark.Batcher.{MessageRecord}
use feishu_agent_mem.Lark.Grouping.{concat}
use feishu_agent_mem.Lark.Noise.{new_noise_filter}
use feishu_agent_mem.Lark.Discussions.{group_messages, valid_messages}
use feishu_agent_mem.Lark.Conservation.{count_if-group_messages}
use feishu_agent_mem.Sync.Manager.{Stores, SyncManager, index_decisions}
use feishu_agent_mem.Sync.Forward.{listed}
use feishu_agent_mem.Examples.Samples.{
  decision_a, decision_b, memory_git, engine, sdr_id-find_commit,
}
use feishu_agent_mem.Examples.OnGraph.{graph_IsConsistent}
use feishu_agent_mem.Signal.Emitter.{DetectResult}
use feishu_agent_mem.Push.Engine.{Outside, PushEngine, new_push_engine, notify_decision_update}
use feishu_agent_mem.Push.Cooldown.{notify_decision_update_once}
use feishu_agent_mem.Lark.Discussions.{Change}
use feishu_agent_mem.Examples.Samples.{graph}

abbrev calendar : Calendar
calendar = record {
  parse = λ layout s. none;
  weekday = λ now. 1;
  scan_count = λ format s. 0;
  to_lower = λ s. s;
}

abbrev waiting : DecisionNode
waiting = record decision_b { status = pending }

abbrev later : Check
later = record { now = 40 * day; at_deadline = 40 * day; at_effective = 40 * day }

changes-le_example : changes calendar (later ∷ later ∷ later ∷ []) waiting ≤ 2
changes-le_example = changes-le calendar (later ∷ later ∷ later ∷ []) waiting

stale_settles_example : waits calendar (checked calendar later waiting) ≡ false
unfolding has_status is_stale new_decision_node
stale_settles_example = stale_settles calendar later waiting refl

run_check_lem_example :
    IsConsistent (run_check memory_git calendar (λ d. later) engine).1.graph
    × ((get_decision "a" (run_check memory_git calendar (λ d. later) engine).1.graph
          ≡ get_decision "a" engine.graph)
        ⊎ IsAged memory_git calendar
            (λ d. later)
            "a"
            (get_all_decisions engine.graph)
            (get_decision "a" (run_check memory_git calendar (λ d. later) engine).1.graph))
run_check_lem_example =
    run_check_lem memory_git calendar (λ d. later)
      (λ project topic sdr_id repo d h. sdr_id-find_commit (λ _. true) sdr_id repo d h) "a" engine
      graph_IsConsistent

-- Texts of one case in which no regular expression matches.
abbrev plain : Texts
plain = record { to_lower = λ s. s; find = λ regex s. none }

analyze_lem_example :
    ((analyze plain "决定" none).is_decision ≡ leb (hundredths 50) (analyze plain "决定" none).score)
    × ((analyze plain "决定" none).score ≤ one_score)
analyze_lem_example = analyze_lem plain "决定" none

no_pattern : analyze_patterns plain compile_patterns "决定" ≡ []
unfolding analyze_patterns
no_pattern = refl

no_structure : analyze_structural plain "决定" ≡ []
unfolding analyze_structural with_first contains_any when
no_structure = refl

analyze_keywords_alone_example : (analyze plain "决定" none).is_decision ≡ false
unfolding analyze_dynamic
analyze_keywords_alone_example = analyze_keywords_alone plain "决定" none no_pattern no_structure refl

analyze_document_lem_example :
    ((analyze_document plain compile_doc_patterns "决定" "spec" spec).is_decision
      ≡ leb (hundredths 30) (analyze_document plain compile_doc_patterns "决定" "spec" spec).score)
    × (is_skipped_type spec
          && (analyze_document plain compile_doc_patterns "决定" "spec" spec).is_decision
        ≡ false)
analyze_document_lem_example = analyze_document_lem plain compile_doc_patterns "决定" "spec" spec

abbrev message : String → String → String → MessageRecord
message message_id thread_id content = record {
  message_id = message_id;
  chat_id = "c";
  thread_id = thread_id;
  sender_id = "u";
  sender_name = "U";
  content = content;
  msg_type = "text";
  create_time = 5;
  mentions = [];
}

abbrev messages : List MessageRecord
messages =
    message "m1" "t1" "We use Go here" ∷ message "m2" "" "好的" ∷ message "m3" "" "And Redis" ∷ []

count_if-group_messages_example :
    count_if
      (λ r. str_eq r.chat_id "c")
      (concat (group_messages (λ s. s) (λ s. []) new_noise_filter messages))
    ≡ count_if (λ r. str_eq r.chat_id "c") (valid_messages (λ s. s) new_noise_filter messages)
count_if-group_messages_example =
    count_if-group_messages (λ r. str_eq r.chat_id "c") (λ s. s) (λ s. []) new_noise_filter messages

-- A table that keeps what it is sent, the newest last, but for the decision `b`.
abbrev memory_stores : Stores
memory_stores = record {
  git = memory_git;
  Table = List DecisionNode;
  list_git = λ repo. ok repo;
  file_hash = λ project topic sdr_id repo. ok "c9";
  list_all = λ table. ok table;
  upsert =
      λ d table. if str_eq d.sdr_id "b" then (some "quota", table) else (none, table ++ d ∷ []);
}

abbrev manager : SyncManager memory_stores
manager = record {
  repo = decision_a ∷ decision_b ∷ [];
  table = record decision_a { git_commit_hash = "c0" } ∷ [];
  change_log = [];
}

abbrev bitable_index : Map DecisionNode
bitable_index = index_decisions (listed memory_stores manager.table) []

abbrev minutes : Change
minutes = record {
  type = "minutes_created";
  entity_type = "minute";
  entity_id = "1";
  summary = "We take Go";
  timestamp = 5;
  chat_id = "";
  thread_id = "";
  sender_id = "";
  sender_name = "";
  mention_ids = [];
  raw_content = "";
  context_text = "";
}

abbrev detected : DetectResult
detected = record { has_changes = true; source = "vc"; changes = minutes ∷ [] }

-- A command that takes every text.
abbrev outside : Outside
outside = record {
  render_card = λ d score. ok d.title;
  summary_text = λ header d. header;
  hash = λ text. text;
  deliver = λ chat_id text sent. none;
}

abbrev pushes : PushEngine
pushes = new_push_engine graph

notify_decision_update_once_example :
    length (notify_decision_update outside (("c1", 5) ∷ ("c2", 6) ∷ []) decision_a pushes).sent
    ≤ length pushes.sent + 1
unfolding new_push_engine
notify_decision_update_once_example =
    notify_decision_update_once outside (("c1", 5) ∷ ("c2", 6) ∷ []) decision_a 5 pushes
      (omega arith, (omega arith, tt)) (omega arith, (omega arith, tt))
