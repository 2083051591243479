-- ===== src/Agent.antt =====
-- local-agent/internal/agent/agent.go: an envelope of the server is answered by the tools.
pub mod Answers
mod Tests
use on_code.Prelude.{
  ℕ, Bool, true, false, Option, none, some, List, [], ◌∷◌, Bytes, String, Result, ok, err,
  if◌then◌else◌,
}
use on_code.Protocol.Errors
use on_code.Protocol.Errors.{Code, Error}
use on_code.Protocol.Ids.{IdError}
use on_code.Protocol.Ids.Uuids.{Uuid}
use on_code.Protocol.Messages.{
  MessageType, request, response, ActorType, local_agent_actor, Actor, Envelope, Payload,
  tool_request, tool_response, tool_event, garbled, ToolRequest, ToolResponse, failed, Refusal,
  new_envelope, validate_envelope, supported,
}
use on_code.Protocol.Versioning
use on_code.Tools.{Registry, State, dispatch}

abbrev pub is_request : MessageType → Bool
is_request request = true
is_request _ = false

-- What the JSON of a payload reads as: that of another payload has the fields that it shares.
abbrev pub as_request : Payload → Option ToolRequest
as_request (tool_request r) = some r
as_request (tool_response r) =
    some (record { call_id = r.reply_id; tool = []; arguments = none; timeout_ms = none })
as_request (tool_event ev) =
    some (record { call_id = []; tool = []; arguments = none; timeout_ms = none })
as_request (garbled raw) = none

abbrev pub made : Result IdError Envelope → Option Envelope
made (ok e) = some e
made (err x) = none

-- the UUID and the time of the answer, and who answers
pub record Stamp : Type 0 where
  pub uuid : Uuid
  pub now : Bytes
  pub agent_id : Bytes

abbrev pub failed_envelope : Stamp → Bytes → Option Error → Option Envelope
failed_envelope t call none = none
failed_envelope t call (some e) = made (
    new_envelope t.uuid t.now response (
      tool_response (record {
        reply_id = call;
        status = failed;
        reply = none;
        error = some e;
        duration_ms = none;
      })))

-- `errorEnvelope`; `none` is its error. The text of the error that is answered is one for each place.
unfoldable pub error_envelope : Stamp → Bytes → Code → String → Option Envelope
error_envelope t call code msg = failed_envelope t call (Errors.new code msg)

-- the identifiers of the request, which its answer has too
abbrev pub addressed : Stamp → Envelope → Envelope → Envelope
addressed t env out = record out {
  session_id = env.session_id;
  project_id = env.project_id;
  workspace_id = env.workspace_id;
  workflow_id = env.workflow_id;
  work_item_id = env.work_item_id;
  task_id = env.task_id;
  actor = some (record { actor_type = local_agent_actor; actor_id = t.agent_id });
}

abbrev pub answered : Stamp → Envelope → Result IdError Envelope → Option Envelope
answered t env (ok out) = some (addressed t env out)
answered t env (err x) = none

module _ {W : Type 0} (tools : Registry W) (audited : Bool) (ms : ℕ) (t : Stamp) where
  abbrev pub Answer : Type 0
  Answer = Option Envelope × State W

  abbrev pub refuse : Code → String → State W → Answer
  refuse code msg s = (error_envelope t [] code msg, s)

  -- a request that is read, or not
  abbrev pub handle_request : Envelope → Option ToolRequest → State W → Answer
  handle_request env none s = refuse Errors.invalid_request "invalid tool request payload" s
  handle_request env (some req) s =
      let (resp, after) = dispatch tools audited ms (some req) s in
      (answered t env (new_envelope t.uuid t.now response (tool_response resp)), after)

  abbrev pub handle_typed : Envelope → Bool → State W → Answer
  handle_typed env false s = refuse Errors.invalid_request "expected REQUEST" s
  handle_typed env true s = handle_request env (as_request env.payload) s

  abbrev pub handle_versioned : Envelope → Bool → State W → Answer
  handle_versioned env false s =
      refuse Errors.protocol_version_unsupported "unsupported protocol version" s
  handle_versioned env true s = handle_typed env (is_request env.message_type) s

  abbrev pub handle_valid : Envelope → Result Refusal (Unit {0}) → State W → Answer
  handle_valid env (err x) s = refuse Errors.invalid_request "invalid envelope" s
  handle_valid env (ok u) s =
      handle_versioned env (supported (Versioning.parse_compatible env.protocol)) s

  -- `HandleEnvelope`
  unfoldable pub handle_envelope : Option Envelope → State W → Answer
  unfolding error_envelope
  handle_envelope none s = refuse Errors.invalid_request "nil envelope" s
  handle_envelope (some env) s = handle_valid env (validate_envelope env) s
