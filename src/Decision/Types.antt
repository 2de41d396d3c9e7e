-- ===== src/Decision/Types.antt =====
-- The data of a decision: internal/decision/node.go, relation.go and objection.go.
-- Go's string types with named constants are data types whose last constructor stands for any other
-- string. An instant is a number of nanoseconds. `hot_score` is a float64 in Go; here it is a number
-- of points in the unit of `hot_point`.
use feishu_agent_mem.Prelude.{ℕ, String, List, Option, Bool, true, false}

pub data RelationType : Type 0 where
  depends_on supersedes refines conflicts_with relates_to objection : RelationType
  other : String → RelationType

-- The string that a relation type is in Go, which `==` compares.
unfoldable pub relation_text : RelationType → String
relation_text RelationType.depends_on = "DEPENDS_ON"
relation_text RelationType.supersedes = "SUPERSEDES"
relation_text RelationType.refines = "REFINES"
relation_text RelationType.conflicts_with = "CONFLICTS_WITH"
relation_text RelationType.relates_to = "RELATES_TO"
relation_text RelationType.objection = "OBJECTION"
relation_text (RelationType.other s) = s

unfoldable pub relation_type_is_valid : RelationType → Bool
relation_type_is_valid (RelationType.other s) = false
relation_type_is_valid _ = true

pub record Relation : Type 0 where
  pub type : RelationType
  pub target_sdr_id : String
  pub description : String

unfoldable pub new_relation : RelationType → String → String → Relation
new_relation type target description = record {
  type = type;
  target_sdr_id = target;
  description = description;
}

pub data PhaseScope : Type 0 where
  point span retroactive : PhaseScope
  other : String → PhaseScope

pub data ImpactLevel : Type 0 where
  advisory minor major critical : ImpactLevel
  other : String → ImpactLevel

pub data DecisionStatus : Type 0 where
  pending in_discussion decided executing completed shelved rejected superseded deprecated
        pending_confirmation :
      DecisionStatus
  other : String → DecisionStatus

pub data ObjectionStatus : Type 0 where
  active resolved overruled : ObjectionStatus
  other : String → ObjectionStatus

unfoldable pub objection_status_is_valid : ObjectionStatus → Bool
objection_status_is_valid (ObjectionStatus.other s) = false
objection_status_is_valid _ = true

pub record VersionRange : Type 0 where
  pub from : String
  pub to : String

pub record FeishuLinks : Type 0 where
  pub related_chat_ids : List String
  pub related_message_ids : List String
  pub related_doc_tokens : List String
  pub related_event_ids : List String
  pub related_meeting_ids : List String
  pub related_task_guids : List String
  pub related_minute_tokens : List String
  pub related_comment_ids : List String

pub record AccessStats : Type 0 where
  pub last_accessed_at : Option ℕ
  pub access_count : ℕ
  pub reference_count : ℕ
  pub hot_score : ℕ
  pub last_calculated : Option ℕ

pub record DecisionNode : Type 0 where
  pub sdr_id : String
  pub git_commit_hash : String
  pub previous_commit_hash : String
  pub title : String
  pub decision : String
  pub rationale : String
  pub project : String
  pub topic : String
  pub branch : String
  pub version : ℕ
  pub conflict_status : String
  pub conflict_with : String
  pub phase : String
  pub phase_scope : PhaseScope
  pub version_range : VersionRange
  pub project_phase : String
  pub decision_time : String
  pub effective_time : String
  pub deadline : String
  pub decision_type : String
  pub impact_level : ImpactLevel
  pub cross_topic_refs : List String
  pub parent_decision : String
  pub children_count : ℕ
  pub proposer : String
  pub executor : String
  pub stakeholders : List String
  pub relations : List Relation
  pub feishu_links : FeishuLinks
  pub objection_ids : List String
  pub status : DecisionStatus
  pub created_at : ℕ
  pub decided_at : Option ℕ
  pub access_stats : AccessStats

pub record Objection : Type 0 where
  pub oid : String
  pub objection_content : String
  pub rationale : String
  pub alternative : String
  pub objector : String
  pub status : ObjectionStatus
  pub references_decision : String
  pub source_type : String
  pub source_doc_token : String
  pub source_comment_id : String
  pub source_message_id : String
  pub source_chat_id : String
  pub topic : String
  pub project : String
  pub created_at : ℕ
