-- ===== src/Protocol/Messages.antt =====
-- protocol/messages/messages.go: the envelope, the payloads, and their validation.
pub mod Laws
mod Changes
mod Tests
use on_code.Prelude.{
  is_empty, ℕ, Bool, true, false, not, ◌&&◌, ◌||◌, Option, none, some, List, [], ◌∷◌, Bytes, Result,
  ok, err, ◌>>=◌, ◌>>◌, ensure, if◌then◌else◌,
}
use on_code.Protocol.Errors
use on_code.Protocol.Errors.{Error}
use on_code.Protocol.Ids
use on_code.Protocol.Ids.{IdError}
use on_code.Protocol.Ids.Kinds
use on_code.Protocol.Ids.Kinds.{Kind}
use on_code.Protocol.Ids.Uuids.{Uuid}
use on_code.Protocol.Json.{Fields, Value}
use on_code.Protocol.Versioning

-- The constants of the message types; `unknown` is any other text.
pub data MessageType : Type 0 where
  request response event cancel ack : MessageType
  unknown : Bytes → MessageType

-- The constants of type ActorType; `other_actor` is any other text.
pub data ActorType : Type 0 where
  user_actor agent_actor orchestrator_actor local_agent_actor ide_actor system_actor : ActorType
  other_actor : Bytes → ActorType

pub record Actor : Type 0 where
  pub actor_type : ActorType
  pub actor_id : Bytes

pub record Target : Type 0 where
  pub target_type : Bytes
  pub target_id : Bytes

-- The constants of the response states; `other_status` is any other text.
pub data Status : Type 0 where
  success failed partial accepted running cancelled rejected timed_out : Status
  other_status : Bytes → Status

pub record ToolRequest : Type 0 where
  pub call_id : Bytes
  pub tool : Bytes
  pub arguments : Option Fields
  pub timeout_ms : Option ℕ

pub record ToolResponse : Type 0 where
  pub reply_id : Bytes
  pub status : Status
  pub reply : Option Value
  pub error : Option Error
  pub duration_ms : Option ℕ

pub record EventPayload : Type 0 where
  pub name : Bytes
  pub execution_id : Bytes
  pub body : Option Fields

-- The JSON of a payload, by what it decodes to; `garbled` decodes to none of these.
pub data Payload : Type 0 where
  tool_request : ToolRequest → Payload
  tool_response : ToolResponse → Payload
  tool_event : EventPayload → Payload
  garbled : Bytes → Payload

pub record Envelope : Type 0 where
  pub protocol : Bytes
  pub message_type : MessageType
  pub message_id : Bytes
  pub timestamp : Bytes
  pub session_id : Bytes
  pub project_id : Bytes
  pub workspace_id : Bytes
  pub workflow_id : Bytes
  pub work_item_id : Bytes
  pub task_id : Bytes
  pub actor : Option Actor
  pub target : Option Target
  pub payload : Payload

-- Why a message is refused.
pub data Refusal : Type 0 where
  nil_envelope protocol_version bad_message_type no_timestamp no_tool bad_status : Refusal
  no_error unknown_error_code no_changes no_path bad_operation no_base_hash no_target_path : Refusal
  no_diff_hash bad_decision no_reason no_agent_id no_id : Refusal
  bad_id : IdError → Refusal

abbrev pub fresh_envelope : Bytes → Bytes → MessageType → Payload → Envelope
fresh_envelope mid now kind payload = record {
  protocol = Versioning.current;
  message_type = kind;
  message_id = mid;
  timestamp = now;
  session_id = [];
  project_id = [];
  workspace_id = [];
  workflow_id = [];
  work_item_id = [];
  task_id = [];
  actor = none;
  target = none;
  payload = payload;
}

-- `NewEnvelope`: the UUID behind the message's identifier and the text of the time are arguments.
unfoldable pub new_envelope : Uuid → Bytes → MessageType → Payload → Result IdError Envelope
new_envelope uuid now kind payload = do
  mid ← Ids.new Kinds.message uuid
  ok (fresh_envelope mid now kind payload)

abbrev pub known_type : MessageType → Bool
known_type (unknown t) = false
known_type _ = true

abbrev pub bad_ids : Result IdError (Unit {0}) → Result Refusal (Unit {0})
bad_ids (ok u) = ok tt
bad_ids (err e) = err (bad_id e)

unfoldable pub check_id : Kind → Bytes → Result Refusal (Unit {0})
check_id kind id = bad_ids (Ids.validate kind id)

-- an identifier that may be absent
unfoldable pub check_optional : Kind → Bytes → Result Refusal (Unit {0})
unfolding check_id
check_optional kind id = if is_empty id then ok tt else check_id kind id

abbrev pub supported : Result Versioning.VersionError Versioning.Version → Bool
supported (ok v) = true
supported (err e) = false

unfoldable pub validate_envelope : Envelope → Result Refusal (Unit {0})
validate_envelope e = do
  ensure (supported (Versioning.parse_compatible e.protocol)) protocol_version
  ensure (known_type e.message_type) bad_message_type
  check_id Kinds.message e.message_id
  ensure (not (is_empty e.timestamp)) no_timestamp
  check_optional Kinds.session e.session_id
  check_optional Kinds.project e.project_id
  check_optional Kinds.workspace e.workspace_id
  check_optional Kinds.workflow e.workflow_id
  check_optional Kinds.work_item e.work_item_id
  check_optional Kinds.task e.task_id

-- the request as it is behind `Validate`, which fills in missing arguments
unfoldable pub validate_request : ToolRequest → Result Refusal ToolRequest
validate_request p = do
  check_id Kinds.call p.call_id
  ensure (not (is_empty p.tool)) no_tool
  ok (record p { arguments = elim p.arguments [ none ↦ some Fields.end | some m ↦ some m ] })

abbrev pub known_status : Status → Bool
known_status (other_status t) = false
known_status _ = true

abbrev pub check_error : Option Error → Result Refusal (Unit {0})
check_error none = err no_error
check_error (some e) = ensure (Errors.known e.code) unknown_error_code

abbrev pub check_failure : Status → Option Error → Result Refusal (Unit {0})
check_failure failed e = check_error e
check_failure _ e = ok tt

unfoldable pub validate_response : ToolResponse → Result Refusal (Unit {0})
validate_response p = do
  check_id Kinds.call p.reply_id
  ensure (known_status p.status) bad_status
  check_failure p.status p.error

pub record Heartbeat : Type 0 where
  pub agent_id : Bytes
  pub protocol_version_text : Bytes
  pub sent_at : Bytes

pub validate_heartbeat : Heartbeat → Result Refusal (Unit {0})
validate_heartbeat h = do
  ensure (not (is_empty h.agent_id)) no_agent_id
  ensure (supported (Versioning.parse_compatible h.protocol_version_text)) protocol_version
  ensure (not (is_empty h.sent_at)) no_timestamp

-- The constants of type ApprovalDecision; `other_decision` is any other text.
pub data Decision : Type 0 where
  approve reject : Decision
  other_decision : Bytes → Decision

pub record Approval : Type 0 where
  pub approval_id : Bytes
  pub approval_type : Bytes
  pub decision : Decision
  pub reason : Bytes
  pub approved_hash : Bytes
  pub resource_id : Bytes

abbrev pub known_decision : Decision → Bool
known_decision (other_decision t) = false
known_decision _ = true

abbrev pub is_reject : Decision → Bool
is_reject reject = true
is_reject _ = false

pub validate_approval : Approval → Result Refusal (Unit {0})
validate_approval a = do
  check_id Kinds.approval a.approval_id
  ensure (known_decision a.decision) bad_decision
  ensure (not (is_reject a.decision && is_empty a.reason)) no_reason

-- The constants of type ChangeOperation; `other_operation` is any other text.
pub data Operation : Type 0 where
  create modify delete rename : Operation
  other_operation : Bytes → Operation

pub record FileChange : Type 0 where
  pub path : Bytes
  pub operation : Operation
  pub base_hash : Bytes
  pub content : Bytes
  pub target_path : Bytes

pub record ChangeSet : Type 0 where
  pub change_set_id : Bytes
  pub in_workspace : Bytes
  pub base_revision : Bytes
  pub changes : List FileChange

abbrev pub known_operation : Operation → Bool
known_operation (other_operation t) = false
known_operation _ = true

abbrev pub needs_base : Operation → Bool
needs_base modify = true
needs_base delete = true
needs_base rename = true
needs_base _ = false

abbrev pub is_rename : Operation → Bool
is_rename rename = true
is_rename _ = false

-- one round of the loop over the changes
unfoldable pub validate_change : FileChange → Result Refusal (Unit {0})
validate_change c = do
  ensure (not (is_empty c.path)) no_path
  ensure (known_operation c.operation) bad_operation
  ensure (not (needs_base c.operation && is_empty c.base_hash)) no_base_hash
  ensure (not (is_rename c.operation && is_empty c.target_path)) no_target_path

unfoldable pub validate_changes : List FileChange → Result Refusal (Unit {0})
validate_changes [] = ok tt
validate_changes (c ∷ cs) = do validate_change c; validate_changes cs

abbrev pub has_changes : List FileChange → Bool
has_changes [] = false
has_changes (c ∷ cs) = true

unfoldable pub validate_change_set : ChangeSet → Result Refusal (Unit {0})
unfolding validate_changes validate_change
validate_change_set p = do
  check_id Kinds.change_set p.change_set_id
  check_optional Kinds.workspace p.in_workspace
  ensure (has_changes p.changes) no_changes
  validate_changes p.changes

pub record ActualDiff : Type 0 where
  pub diff_of : Bytes
  pub diff : Bytes
  pub diff_hash : Bytes
  pub diff_workspace : Bytes

pub validate_diff : ActualDiff → Result Refusal (Unit {0})
validate_diff d = do
  check_id Kinds.change_set d.diff_of
  ensure (not (is_empty d.diff_hash)) no_diff_hash
