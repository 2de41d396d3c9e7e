-- ===== src/Signal/Texts.antt =====
-- The conversions `string(level)`, `ImpactLevel(s)`, `string(status)` and `DecisionStatus(s)`
-- between the named string types and the strings (internal/decision/node.go has the constants).
use feishu_agent_mem.Prelude.{String, str_eq, ◌≡◌, refl, true, arith, if◌then◌else◌}
use feishu_agent_mem.Decision.Types.{
  ImpactLevel, advisory, minor, major, critical, DecisionStatus, pending, in_discussion, decided,
  executing, completed, shelved, rejected, superseded, deprecated, pending_confirmation,
}
use feishu_agent_mem.Decision.Node.{status_is_valid, impact_is_valid}

unfoldable pub impact_text : ImpactLevel → String
impact_text advisory = "advisory"
impact_text minor = "minor"
impact_text major = "major"
impact_text critical = "critical"
impact_text (ImpactLevel.other s) = s

unfoldable pub impact_of_text : String → ImpactLevel
impact_of_text s =
    if str_eq s "advisory"
    then advisory
    else if str_eq s "minor"
    then minor
    else if str_eq s "major"
    then major
    else if str_eq s "critical"
    then critical
    else ImpactLevel.other s

unfoldable pub status_text : DecisionStatus → String
status_text pending = "pending"
status_text in_discussion = "in_discussion"
status_text decided = "decided"
status_text executing = "executing"
status_text completed = "completed"
status_text shelved = "shelved"
status_text rejected = "rejected"
status_text superseded = "superseded"
status_text deprecated = "deprecated"
status_text pending_confirmation = "pending_confirmation"
status_text (DecisionStatus.other s) = s

unfoldable pub status_of_text : String → DecisionStatus
status_of_text s =
    if str_eq s "pending"
    then pending
    else if str_eq s "in_discussion"
    then in_discussion
    else if str_eq s "decided"
    then decided
    else if str_eq s "executing"
    then executing
    else if str_eq s "completed"
    then completed
    else if str_eq s "shelved"
    then shelved
    else if str_eq s "rejected"
    then rejected
    else if str_eq s "superseded"
    then superseded
    else if str_eq s "deprecated"
    then deprecated
    else if str_eq s "pending_confirmation"
    then pending_confirmation
    else DecisionStatus.other s

pub status_of_text-status_text :
    (s : DecisionStatus) → status_is_valid s ≡ true → status_of_text (status_text s) ≡ s
unfolding status_of_text status_text status_is_valid
status_of_text-status_text (DecisionStatus.other s) h = ground arith
status_of_text-status_text _ h = refl

pub impact_of_text-impact_text :
    (i : ImpactLevel) → impact_is_valid i ≡ true → impact_of_text (impact_text i) ≡ i
unfolding impact_of_text impact_text impact_is_valid
impact_of_text-impact_text (ImpactLevel.other s) h = ground arith
impact_of_text-impact_text _ h = refl
