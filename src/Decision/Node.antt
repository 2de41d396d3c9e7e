-- ===== src/Decision/Node.antt =====
-- The constructors and the methods of a decision (internal/decision/node.go). A method that writes
-- through its pointer returns the new record, and the clock is read by the caller. The counters
-- `Version`, `AccessCount` and `ReferenceCount` are ints that grow by one a call: they are numbers
-- here, since 2^63 calls are out of reach.
use feishu_agent_mem.Prelude.{
  ℕ, ◌+◌, String, [], ◌∷◌, ◌++◌, some, none, str_append, Bool, true, false, ◌&&◌, any, str_eq, ◌*◌,
  if◌then◌else◌,
}
use feishu_agent_mem.Decision.Types.{
  RelationType, conflicts_with, relation_text, Relation, new_relation, PhaseScope, point,
  ImpactLevel, minor, DecisionStatus, pending, in_discussion, decided, executing, completed,
  pending_confirmation, FeishuLinks, AccessStats, DecisionNode,
}

-- One point of a hot score in the unit of `hot_score`: a quarter of what 57600 seconds take away.
abbrev pub hot_point : ℕ
hot_point = 4 * 57600 * 1000000000

abbrev pub branch_prefix_decision : String
branch_prefix_decision = "decision/"

abbrev pub dummy_sdr_id : String
dummy_sdr_id = "DEC-000"

abbrev pub conflict_active : String
conflict_active = "active"

abbrev pub conflict_resolved : String
conflict_resolved = "resolved"

unfoldable pub get_decision_branch : DecisionNode → String
get_decision_branch d =
    if str_eq d.branch "" then str_append branch_prefix_decision d.sdr_id else d.branch

unfoldable pub bump_version : DecisionNode → DecisionNode
bump_version d = record d { version = d.version + 1 }

-- The test of the loop in `AddRelation`.
unfoldable pub same_edge : RelationType → String → Relation → Bool
same_edge type target r =
    str_eq (relation_text r.type) (relation_text type) && str_eq r.target_sdr_id target

unfoldable pub add_relation : DecisionNode → RelationType → String → String → DecisionNode
unfolding same_edge
add_relation d type target description =
    if any (same_edge type target) d.relations
    then d
    else record d { relations = d.relations ++ new_relation type target description ∷ [] }

unfoldable pub set_conflict : DecisionNode → String → DecisionNode
unfolding add_relation
set_conflict d other =
    add_relation (record d { conflict_status = conflict_active; conflict_with = other })
      conflicts_with other ""

unfoldable pub resolve_conflict : DecisionNode → DecisionNode
resolve_conflict d = record d { conflict_status = conflict_resolved; conflict_with = "" }

unfoldable pub record_access : ℕ → AccessStats → AccessStats
record_access now a = record a { last_accessed_at = some now; access_count = a.access_count + 1 }

unfoldable pub record_reference : AccessStats → AccessStats
record_reference a = record a { reference_count = a.reference_count + 1 }

abbrev no_links : FeishuLinks
no_links = record {
  related_chat_ids = [];
  related_message_ids = [];
  related_doc_tokens = [];
  related_event_ids = [];
  related_meeting_ids = [];
  related_task_guids = [];
  related_minute_tokens = [];
  related_comment_ids = [];
}

-- The zero value of the struct.
abbrev pub zero_node : DecisionNode
zero_node = record {
  sdr_id = "";
  git_commit_hash = "";
  previous_commit_hash = "";
  title = "";
  decision = "";
  rationale = "";
  project = "";
  topic = "";
  branch = "";
  version = 0;
  conflict_status = "";
  conflict_with = "";
  phase = "";
  phase_scope = PhaseScope.other "";
  version_range = record { from = ""; to = "" };
  project_phase = "";
  decision_time = "";
  effective_time = "";
  deadline = "";
  decision_type = "";
  impact_level = ImpactLevel.other "";
  cross_topic_refs = [];
  parent_decision = "";
  children_count = 0;
  proposer = "";
  executor = "";
  stakeholders = [];
  relations = [];
  feishu_links = no_links;
  objection_ids = [];
  status = DecisionStatus.other "";
  created_at = 0;
  decided_at = none;
  access_stats = record {
    last_accessed_at = none;
    access_count = 0;
    reference_count = 0;
    hot_score = 0;
    last_calculated = none;
  };
}

unfoldable pub new_decision_node : ℕ → String → String → String → String → DecisionNode
new_decision_node now sdr_id title project topic = record zero_node {
  sdr_id = sdr_id;
  title = title;
  project = project;
  topic = topic;
  branch = str_append branch_prefix_decision sdr_id;
  version = 1;
  phase_scope = point;
  impact_level = minor;
  status = pending;
  created_at = now;
  access_stats = record {
    last_accessed_at = none;
    access_count = 0;
    reference_count = 0;
    hot_score = 100 * hot_point;
    last_calculated = some now;
  };
}

unfoldable pub new_dummy_decision : ℕ → DecisionNode
new_dummy_decision now = record zero_node {
  sdr_id = dummy_sdr_id;
  title = "Root Dummy";
  project = "feishu-mem";
  topic = "general";
  branch = "main";
  status = completed;
  phase_scope = point;
  impact_level = minor;
  created_at = now;
}

unfoldable pub status_is_active : DecisionStatus → Bool
status_is_active pending = true
status_is_active pending_confirmation = true
status_is_active in_discussion = true
status_is_active decided = true
status_is_active executing = true
status_is_active _ = false

unfoldable pub is_active : DecisionNode → Bool
unfolding status_is_active
is_active d = status_is_active d.status

unfoldable pub status_is_valid : DecisionStatus → Bool
status_is_valid (DecisionStatus.other s) = false
status_is_valid _ = true

unfoldable pub impact_is_valid : ImpactLevel → Bool
impact_is_valid (ImpactLevel.other s) = false
impact_is_valid _ = true
