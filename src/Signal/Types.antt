-- ===== src/Signal/Types.antt =====
-- Signals of the adapters and the mutations that they lead to (internal/signal/signal.go and the
-- types of internal/signal/state_machine.go). Go's string types with named constants are data types
-- whose last constructor stands for any other string.
use feishu_agent_mem.Prelude.{ℕ, String, List, [], Option, Bool, none}
use feishu_agent_mem.Decision.Types.{DecisionNode, DecisionStatus, Objection}

pub data AdapterType : Type 0 where
  im vc docs calendar task okr contact wiki : AdapterType
  other : String → AdapterType

pub data ChangeType : Type 0 where
  created updated deleted status_change : ChangeType
  other : String → ChangeType

pub data SignalStrength : Type 0 where
  strong medium weak : SignalStrength
  other : String → SignalStrength

pub record EmbeddedUrl : Type 0 where
  pub raw_url : String
  pub extracted_token : String
  pub url_type : String

-- The score of the source's context is a float64 that nothing here reads; it is left out.
pub record SignalContext : Type 0 where
  pub keywords : List String
  pub decision_signals : List String
  pub mentioned_ids : List String
  pub actor_id : String
  pub participant_ids : List String
  pub embedded_urls : List EmbeddedUrl
  pub content_snippet : String
  pub event_time : ℕ
  pub is_decision : Bool

pub record StateChangeSignal : Type 0 where
  pub signal_id : String
  pub adapter : AdapterType
  pub timestamp : ℕ
  pub event_type : String
  pub change_type : ChangeType
  pub change_summary : String
  pub primary_id : String
  pub related_ids : List String
  pub comment_id : String
  pub context : SignalContext
  pub strength : SignalStrength

pub record StateTransition : Type 0 where
  pub sdr_id : String
  pub from_status : DecisionStatus
  pub to_status : DecisionStatus
  pub reason : String
  pub trigger_signal : String

pub data MutationType : Type 0 where
  create update status_change conflict objection deprecate revert : MutationType
  other : String → MutationType

-- A value of a `map[string]any`: a string, or a value of some other type.
pub data Any : Type 0 where
  text : String → Any
  other : Any

pub record DecisionMutation : Type 0 where
  pub type : MutationType
  pub sdr_id : String
  pub node : Option DecisionNode
  pub field_changes : List (String × Any)
  pub new_status : DecisionStatus
  pub conflict_sdr_id : String
  pub conflict_action : String
  pub conflict_reason : String
  pub objection : Option Objection
  pub commit_message : String
  pub target_commit_hash : String

-- The zero value of the struct, but for the type.
abbrev pub zero_mutation : MutationType → DecisionMutation
zero_mutation type = record {
  type = type;
  sdr_id = "";
  node = none;
  field_changes = [];
  new_status = DecisionStatus.other "";
  conflict_sdr_id = "";
  conflict_action = "";
  conflict_reason = "";
  objection = none;
  commit_message = "";
  target_commit_hash = "";
}
