-- ===== src/Protocol/Adapter.antt =====
-- protocol/grpcadapt/adapt.go: envelopes to and from the generated messages of gRPC. A value of a generated
-- enumeration is its number, and an error is carried as it is, less its details. The codec of JSON is a
-- parameter; what was read from JSON can be written.
pub mod Convert
pub mod RoundTrip
mod Tests
use on_code.Prelude.{
  ℕ, ◌≡◌, ◌^◌, ◌-◌, ◌%◌, Bool, true, false, Option, none, some, Bytes, Result, ok, err, ◌>>=◌, ltb,
  ◌==◌, if◌then◌else◌, is_empty, codes,
}
use on_code.Prelude.Decimal.{ℤ, pos, negsuc, decimal}
use on_code.Protocol.Errors.{Error}
use on_code.Protocol.Json.{Value, null, boolean, number, str, array, object, Fields, end}
use on_code.Protocol.Messages.{
  MessageType, request, response, event, cancel, ack, unknown, ActorType, user_actor, agent_actor,
  orchestrator_actor, local_agent_actor, ide_actor, system_actor, other_actor, Actor, Target,
  Status, success, failed, partial, accepted, running, cancelled, rejected, timed_out, other_status,
  ToolRequest, ToolResponse, EventPayload, Payload, tool_request, tool_response, tool_event,
  garbled, Envelope,
}

pub record Codec : Type 0 where
  pub encode : Value → Bytes
  pub decode : Bytes → Option Value

-- The codec reads a value from the text that it wrote for it, which is not empty.
pub record IsRead (c : Codec) (v : Value) : Type 0 where
  pub decode-encode : c.decode (c.encode v) ≡ some v
  pub encode_text : is_empty (c.encode v) ≡ false

-- The messages of the generated package toolv1.
pub record ProtoRequest : Type 0 where
  pub call_id : Bytes
  pub tool : Bytes
  pub arguments_json : Bytes
  pub timeout_ms : ℤ

pub record ProtoResponse : Type 0 where
  pub call_id : Bytes
  pub status : ℕ
  pub result_json : Bytes
  pub error : Option Error
  pub duration_ms : Option ℕ

pub record ProtoEvent : Type 0 where
  pub event : Bytes
  pub execution_id : Bytes
  pub data_json : Bytes

pub record ProtoActor : Type 0 where
  pub actor_type : ℕ
  pub actor_id : Bytes

pub record ProtoEnvelope : Type 0 where
  pub protocol : Bytes
  pub message_type : ℕ
  pub message_id : Bytes
  pub timestamp : Bytes
  pub session_id : Bytes
  pub project_id : Bytes
  pub workspace_id : Bytes
  pub workflow_id : Bytes
  pub work_item_id : Bytes
  pub task_id : Bytes
  pub actor : Option ProtoActor
  pub target : Option Target
  pub tool_request : Option ProtoRequest
  pub tool_response : Option ProtoResponse
  pub event_payload : Option ProtoEvent

pub data AdapterError : Type 0 where
  nil_message bad_payload no_request no_event bad_json : AdapterError

unfoldable pub to_proto_message_type : MessageType → ℕ
to_proto_message_type request = 1
to_proto_message_type response = 2
to_proto_message_type event = 3
to_proto_message_type cancel = 4
to_proto_message_type ack = 5
to_proto_message_type (unknown t) = 0

unfoldable pub from_proto_message_type : ℕ → MessageType
from_proto_message_type n =
    if n == 1
    then request
    else if n == 2
    then response
    else if n == 3
    then event
    else if n == 4
    then cancel
    else if n == 5
    then ack
    else unknown (codes "")

unfoldable pub to_proto_actor_type : ActorType → ℕ
to_proto_actor_type user_actor = 1
to_proto_actor_type agent_actor = 2
to_proto_actor_type orchestrator_actor = 3
to_proto_actor_type local_agent_actor = 4
to_proto_actor_type ide_actor = 5
to_proto_actor_type system_actor = 6
to_proto_actor_type (other_actor t) = 0

unfoldable pub from_proto_actor_type : ℕ → ActorType
from_proto_actor_type n =
    if n == 1
    then user_actor
    else if n == 2
    then agent_actor
    else if n == 3
    then orchestrator_actor
    else if n == 4
    then local_agent_actor
    else if n == 5
    then ide_actor
    else if n == 6
    then system_actor
    else other_actor (codes "")

unfoldable pub to_proto_actor : Option Actor → Option ProtoActor
unfolding to_proto_actor_type
to_proto_actor none = none
to_proto_actor (some a) =
    some (record { actor_type = to_proto_actor_type a.actor_type; actor_id = a.actor_id })

unfoldable pub from_proto_actor : Option ProtoActor → Option Actor
unfolding from_proto_actor_type
from_proto_actor none = none
from_proto_actor (some a) =
    some (record { actor_type = from_proto_actor_type a.actor_type; actor_id = a.actor_id })

-- by the table of the generated package, in which a text of no state is not, or has the number 0
unfoldable pub to_proto_status : Status → ℕ
to_proto_status success = 1
to_proto_status failed = 2
to_proto_status partial = 3
to_proto_status accepted = 4
to_proto_status running = 5
to_proto_status cancelled = 6
to_proto_status rejected = 7
to_proto_status timed_out = 8
to_proto_status (other_status t) = 0

-- a number that has no name is printed
unfoldable pub from_proto_status : ℕ → Status
from_proto_status n =
    if n == 0
    then other_status (codes "")
    else if n == 1
    then success
    else if n == 2
    then failed
    else if n == 3
    then partial
    else if n == 4
    then accepted
    else if n == 5
    then running
    else if n == 6
    then cancelled
    else if n == 7
    then rejected
    else if n == 8
    then timed_out
    else other_status (decimal n)

-- `int32(n)`
unfoldable pub int32 : ℕ → ℤ
int32 n = let w = n % 2 ^ 32 in if ltb w (2 ^ 31) then pos w else negsuc (2 ^ 32 - 1 - w)

unfoldable pub to_timeout : Option ℕ → ℤ
unfolding int32
to_timeout none = pos 0
to_timeout (some ms) = int32 ms

unfoldable pub from_timeout : ℤ → Option ℕ
from_timeout (pos ms) = if ms == 0 then none else some ms
from_timeout (negsuc n) = none

abbrev pub arguments_value : Option Fields → Value
arguments_value none = null
arguments_value (some m) = object m

-- What the JSON of a payload reads as, for each type of a message: a payload of another type has the fields that
-- it shares.
abbrev pub request_of : Payload → Option ToolRequest
request_of (tool_request r) = some r
request_of (tool_response r) =
    some (record { call_id = r.reply_id; tool = codes ""; arguments = none; timeout_ms = none })
request_of (tool_event ev) =
    some (record { call_id = codes ""; tool = codes ""; arguments = none; timeout_ms = none })
request_of (garbled raw) = none

abbrev pub empty_response : Bytes → ToolResponse
empty_response call = record {
  reply_id = call;
  status = other_status (codes "");
  reply = none;
  error = none;
  duration_ms = none;
}

abbrev pub response_of : Payload → Option ToolResponse
response_of (tool_request r) = some (empty_response r.call_id)
response_of (tool_response r) = some r
response_of (tool_event ev) = some (empty_response (codes ""))
response_of (garbled raw) = none

abbrev pub event_of : Payload → Option EventPayload
event_of (tool_request r) = some (record { name = codes ""; execution_id = codes ""; body = none })
event_of (tool_response r) = some (record { name = codes ""; execution_id = codes ""; body = none })
event_of (tool_event ev) = some ev
event_of (garbled raw) = none
