-- ===== src/Protocol/Adapter/Convert.antt =====
-- ToProto and FromProto of protocol/grpcadapt/adapt.go.
use on_code.Prelude.{
  Option, none, some, Bytes, Result, ok, err, ◌>>=◌, if◌then◌else◌, is_empty, codes,
}
use on_code.Protocol.Json.{Value, null, object, Fields, end}
use on_code.Protocol.Messages.{
  MessageType, request, response, event, ToolRequest, ToolResponse, EventPayload, Payload,
  tool_request, tool_response, tool_event, garbled, Envelope,
}
use on_code.Protocol.Adapter.{
  Codec, ProtoRequest, ProtoResponse, ProtoEvent, ProtoEnvelope, AdapterError, nil_message,
  bad_payload, no_request, no_event, bad_json, to_proto_message_type, from_proto_message_type,
  to_proto_actor, from_proto_actor, to_proto_status, from_proto_status, to_timeout, from_timeout,
  arguments_value, request_of, response_of, event_of, empty_response,
}

-- the fields of an envelope but its payload
unfoldable pub plain_proto : Envelope → ProtoEnvelope
unfolding to_proto_message_type to_proto_actor
plain_proto env = record {
  protocol = env.protocol;
  message_type = to_proto_message_type env.message_type;
  message_id = env.message_id;
  timestamp = env.timestamp;
  session_id = env.session_id;
  project_id = env.project_id;
  workspace_id = env.workspace_id;
  workflow_id = env.workflow_id;
  work_item_id = env.work_item_id;
  task_id = env.task_id;
  actor = to_proto_actor env.actor;
  target = env.target;
  tool_request = none;
  tool_response = none;
  event_payload = none;
}

-- the same in the other direction
unfoldable pub plain_envelope : ProtoEnvelope → Payload → Envelope
unfolding from_proto_message_type from_proto_actor
plain_envelope p payload = record {
  protocol = p.protocol;
  message_type = from_proto_message_type p.message_type;
  message_id = p.message_id;
  timestamp = p.timestamp;
  session_id = p.session_id;
  project_id = p.project_id;
  workspace_id = p.workspace_id;
  workflow_id = p.workflow_id;
  work_item_id = p.work_item_id;
  task_id = p.task_id;
  actor = from_proto_actor p.actor;
  target = p.target;
  payload = payload;
}

module _ (c : Codec) where
  unfoldable pub proto_request : ToolRequest → ProtoRequest
  unfolding to_timeout
  proto_request r = record {
    call_id = r.call_id;
    tool = r.tool;
    arguments_json = c.encode (arguments_value r.arguments);
    timeout_ms = to_timeout r.timeout_ms;
  }

  abbrev pub result_text : Option Value → Bytes
  result_text none = codes ""
  result_text (some v) = c.encode v

  unfoldable pub to_proto_tool_response : ToolResponse → ProtoResponse
  unfolding to_proto_status
  to_proto_tool_response r = record {
    call_id = r.reply_id;
    status = to_proto_status r.status;
    result_json = result_text r.reply;
    error = r.error;
    duration_ms = r.duration_ms;
  }

  abbrev pub data_text : Option Fields → Bytes
  data_text none = codes ""
  data_text (some m) = c.encode (object m)

  unfoldable pub proto_event : EventPayload → ProtoEvent
  proto_event ev = record {
    event = ev.name;
    execution_id = ev.execution_id;
    data_json = data_text ev.body;
  }

  abbrev pub with_request : ProtoEnvelope → Option ToolRequest → Result AdapterError ProtoEnvelope
  with_request p none = err bad_payload
  with_request p (some r) = ok (record p { tool_request = some (proto_request r) })

  abbrev pub with_response : ProtoEnvelope → Option ToolResponse → Result AdapterError ProtoEnvelope
  with_response p none = err bad_payload
  with_response p (some r) = ok (record p { tool_response = some (to_proto_tool_response r) })

  abbrev pub with_event : ProtoEnvelope → Option EventPayload → Result AdapterError ProtoEnvelope
  with_event p none = err bad_payload
  with_event p (some ev) = ok (record p { event_payload = some (proto_event ev) })

  -- the switch on the type of the message
  abbrev pub with_payload :
      MessageType → Payload → ProtoEnvelope → Result AdapterError ProtoEnvelope
  with_payload request payload p = with_request p (request_of payload)
  with_payload response payload p = with_response p (response_of payload)
  with_payload event payload p = with_event p (event_of payload)
  with_payload _ payload p = ok p

  unfoldable pub to_proto : Option Envelope → Result AdapterError ProtoEnvelope
  unfolding plain_proto proto_request to_proto_tool_response proto_event
  to_proto none = err nil_message
  to_proto (some env) = with_payload env.message_type env.payload (plain_proto env)

  abbrev pub decoded_arguments : Option Value → Result AdapterError (Option Fields)
  decoded_arguments (some null) = ok none
  decoded_arguments (some (object m)) = ok (some m)
  decoded_arguments _ = err bad_json

  abbrev pub read_arguments : Bytes → Result AdapterError (Option Fields)
  read_arguments text = if is_empty text then ok (some end) else decoded_arguments (c.decode text)

  unfoldable pub from_request : Option ProtoRequest → Result AdapterError Payload
  unfolding from_timeout
  from_request none = err no_request
  from_request (some r) = do
    arguments ← read_arguments r.arguments_json
    ok (
        tool_request (record {
          call_id = r.call_id;
          tool = r.tool;
          arguments = arguments;
          timeout_ms = from_timeout r.timeout_ms;
        }))

  -- A raw text is kept, but json.Marshal refuses one that is no JSON.
  abbrev pub read_result : Bytes → Option Value → Result AdapterError (Option Value)
  read_result text decoded =
      if is_empty text then ok none else elim decoded [ none ↦ err bad_json | some v ↦ ok (some v) ]

  unfoldable pub from_proto_tool_response : Option ProtoResponse → Result AdapterError Payload
  unfolding from_proto_status
  from_proto_tool_response none = ok (tool_response (empty_response (codes "")))
  from_proto_tool_response (some r) = do
    result ← read_result r.result_json (c.decode r.result_json)
    ok (
        tool_response (record {
          reply_id = r.call_id;
          status = from_proto_status r.status;
          reply = result;
          error = r.error;
          duration_ms = r.duration_ms;
        }))

  abbrev pub object_of : Option Value → Option Fields
  object_of (some (object m)) = some m
  object_of _ = none

  -- the data of an event as the fields that it reads as
  unfoldable pub from_event : Option ProtoEvent → Result AdapterError Payload
  from_event none = err no_event
  from_event (some ev) = do
    data_read ← read_result ev.data_json (c.decode ev.data_json)
    ok (
        tool_event
          (record { name = ev.event; execution_id = ev.execution_id; body = object_of data_read }))

  unfoldable pub payload_of : MessageType → ProtoEnvelope → Result AdapterError Payload
  unfolding from_request from_proto_tool_response from_event
  payload_of request p = from_request p.tool_request
  payload_of response p = from_proto_tool_response p.tool_response
  payload_of event p = from_event p.event_payload
  payload_of _ p = ok (garbled (codes ""))

  unfoldable pub from_proto : Option ProtoEnvelope → Result AdapterError Envelope
  unfolding plain_envelope payload_of
  from_proto none = err nil_message
  from_proto (some p) = do
    payload ← payload_of (from_proto_message_type p.message_type) p
    ok (plain_envelope p payload)
