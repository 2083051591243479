-- ===== src/Protocol/Adapter/RoundTrip.antt =====
-- What ToProto writes, FromProto reads (protocol/grpcadapt/adapt.go).
use on_code.Prelude.{
  ℕ, ◌≡◌, ◌<◌, ◌^◌, ◌↔◌, refl, ap, ◌∙◌, Bool, true, false, Option, none, some, Bytes, Result, ok,
  ◌>>=◌, arith,
}
use on_code.Protocol.Json.{Value, object, Fields}
use on_code.Protocol.Messages.{
  MessageType, request, response, event, ActorType, user_actor, agent_actor, orchestrator_actor,
  local_agent_actor, ide_actor, system_actor, other_actor, Actor, Status, success, failed, partial,
  accepted, running, cancelled, rejected, timed_out, other_status, known_status, ToolRequest,
  ToolResponse, EventPayload, Payload, tool_request, tool_response, tool_event, garbled, Envelope,
}
use on_code.Protocol.Adapter.{
  Codec, IsRead, ProtoRequest, ProtoResponse, ProtoEvent, ProtoEnvelope, AdapterError,
  to_proto_message_type, from_proto_message_type, to_proto_actor_type, from_proto_actor_type,
  to_proto_actor, from_proto_actor, to_proto_status, from_proto_status, int32, to_timeout,
  from_timeout, arguments_value,
}
use on_code.Protocol.Adapter.Convert.{
  plain_proto, plain_envelope, proto_request, to_proto_tool_response, proto_event, to_proto,
  from_proto, from_request, from_proto_tool_response, from_event, payload_of, read_arguments,
  read_result, result_text,
}

-- A time limit is kept if it is positive and an int32, and no other one is: it is lost or becomes another.
pub timeout_kept_iff :
    (ms : ℕ) → (from_timeout (to_timeout (some ms)) ≡ some ms) ↔ ((0 < ms) × (ms < 2 ^ 31))
unfolding to_timeout int32 from_timeout
timeout_kept_iff ms = ground arith

-- A time limit that is kept, or none.
abbrev pub Fits : Option ℕ → Type 0
Fits none = Unit
Fits (some ms) = (0 < ms) × (ms < 2 ^ 31)

timeout-Fits : (t : Option ℕ) → Fits t → from_timeout (to_timeout t) ≡ t
unfolding to_timeout from_timeout
timeout-Fits none h = refl
timeout-Fits (some ms) h = (timeout_kept_iff ms).1 h

abbrev pub known_actor : Option Actor → Bool
known_actor none = true
known_actor (some a) = elim a.actor_type [ other_actor t ↦ false | _ ↦ true ]

-- What an envelope has that can be sent: a type with a payload of that type, with a time limit
-- that fits or a state that is known.
abbrev pub Carried : MessageType → Payload → Type 0
Carried request (tool_request r) = Fits r.timeout_ms
Carried response (tool_response r) = known_status r.status ≡ true
Carried event (tool_event ev) = Unit
Carried _ _ = ⊥

abbrev pub AllRead : Codec → Option Value → Type 0
AllRead c none = Unit
AllRead c (some v) = IsRead c v

abbrev pub data_value : Option Fields → Option Value
data_value none = none
data_value (some m) = some (object m)

-- the value that is written as JSON
abbrev pub json_of : Payload → Option Value
json_of (tool_request r) = some (arguments_value r.arguments)
json_of (tool_response r) = r.reply
json_of (tool_event ev) = data_value ev.body
json_of (garbled raw) = none

pub record IsCarried (c : Codec) (env : Envelope) : Type 0 where
  pub payload_carried : Carried env.message_type env.payload
  pub actor_known : known_actor env.actor ≡ true
  pub json_read : AllRead c (json_of env.payload)

actor_type_kept :
    (t : ActorType) (id : Bytes)
    → known_actor (some (record { actor_type = t; actor_id = id })) ≡ true
    → from_proto_actor_type (to_proto_actor_type t) ≡ t
unfolding to_proto_actor_type from_proto_actor_type
actor_type_kept user_actor id h = refl
actor_type_kept agent_actor id h = refl
actor_type_kept orchestrator_actor id h = refl
actor_type_kept local_agent_actor id h = refl
actor_type_kept ide_actor id h = refl
actor_type_kept system_actor id h = refl
actor_type_kept (other_actor t) id h = cc

actor_kept : (a : Option Actor) → known_actor a ≡ true → from_proto_actor (to_proto_actor a) ≡ a
unfolding to_proto_actor from_proto_actor
actor_kept none h = refl
actor_kept (some a) h = rw (actor_type_kept a.actor_type a.actor_id h) refl

status_kept : (s : Status) → known_status s ≡ true → from_proto_status (to_proto_status s) ≡ s
unfolding to_proto_status from_proto_status
status_kept success h = refl
status_kept failed h = refl
status_kept partial h = refl
status_kept accepted h = refl
status_kept running h = refl
status_kept cancelled h = refl
status_kept rejected h = refl
status_kept timed_out h = refl
status_kept (other_status t) h = cc

module _ (c : Codec) where
  arguments_kept :
      (m : Option Fields)
      → IsRead c (arguments_value m)
      → read_arguments c (c.encode (arguments_value m)) ≡ ok m
  arguments_kept none j = rw (j.encode_text, j.decode-encode) refl
  arguments_kept (some m) j = rw (j.encode_text, j.decode-encode) refl

  result_kept :
      (v : Option Value)
      → AllRead c v
      → read_result c (result_text c v) (c.decode (result_text c v)) ≡ ok v
  result_kept none j = refl
  result_kept (some v) j = rw (j.encode_text, j.decode-encode) refl

  request_kept :
      (r : ToolRequest)
      → Fits r.timeout_ms
      → IsRead c (arguments_value r.arguments)
      → from_request c (some (proto_request c r)) ≡ ok (tool_request r)
  unfolding from_request proto_request
  request_kept r h j = rw (arguments_kept r.arguments j, timeout-Fits r.timeout_ms h) refl

  response_kept :
      (r : ToolResponse)
      → known_status r.status ≡ true
      → AllRead c r.reply
      → from_proto_tool_response c (some (to_proto_tool_response c r)) ≡ ok (tool_response r)
  unfolding from_proto_tool_response to_proto_tool_response
  response_kept r h j = rw (result_kept r.reply j, status_kept r.status h) refl

  data_kept :
      (name id : Bytes) (m : Option Fields)
      → AllRead c (data_value m)
      → let ev : EventPayload = record { name = name; execution_id = id; body = m } in
        from_event c (some (proto_event c ev)) ≡ ok (tool_event ev)
  unfolding from_event proto_event
  data_kept name id none j = refl
  data_kept name id (some m) j = rw (j.encode_text, j.decode-encode) refl

  -- the message with a payload in one of its three fields
  abbrev filled :
      Envelope → Option ProtoRequest → Option ProtoResponse → Option ProtoEvent → ProtoEnvelope
  filled env r s e = record (plain_proto env) {
    tool_request = r;
    tool_response = s;
    event_payload = e;
  }

  abbrev IsKnown : MessageType → Type 0
  IsKnown t = from_proto_message_type (to_proto_message_type t) ≡ t

  plain_kept :
      (env : Envelope) (r : Option ProtoRequest) (s : Option ProtoResponse) (e : Option ProtoEvent)
      → IsKnown env.message_type
      → known_actor env.actor ≡ true
      → plain_envelope (filled env r s e) env.payload ≡ env
  unfolding plain_envelope plain_proto
  plain_kept env r s e t a = rw (t, actor_kept env.actor a) refl

  -- a message whose payload is read as it was, is read as it was
  read_kept :
      (env : Envelope) (r : Option ProtoRequest) (s : Option ProtoResponse) (e : Option ProtoEvent)
      → IsKnown env.message_type
      → known_actor env.actor ≡ true
      → payload_of c env.message_type (filled env r s e) ≡ ok env.payload
      → from_proto c (some (filled env r s e)) ≡ ok env
  unfolding from_proto plain_proto
  read_kept env r s e t a h =
      let p = filled env r s e in
      let rest : Payload → Result AdapterError Envelope =
        λ payload. ok (plain_envelope p payload) in
      ap (λ m. payload_of c m p >>= rest) t
      ∙ ap (λ m. m >>= rest) h
      ∙ ap (λ x. ok x) (plain_kept env r s e t a)

  abbrev Returns : Envelope → Type 0
  Returns env =
      (p : ProtoEnvelope) × (to_proto c (some env) ≡ ok p) × (from_proto c (some p) ≡ ok env)

  returns :
      (t : MessageType) (payload : Payload) (env : Envelope)
      → env.message_type ≡ t
      → env.payload ≡ payload
      → Carried t payload
      → known_actor env.actor ≡ true
      → AllRead c (json_of payload)
      → Returns env
  unfolding to_proto payload_of to_proto_message_type from_proto_message_type plain_proto
  returns request (tool_request r) env t p h a j = (
    filled env (some (proto_request c r)) none none,
    rw (t, p) refl,
    read_kept env _ none none (rw t refl) a (rw (t, p) (request_kept r h j)),
  )
  returns response (tool_response r) env t p h a j = (
    filled env none (some (to_proto_tool_response c r)) none,
    rw (t, p) refl,
    read_kept env none _ none (rw t refl) a (rw (t, p) (response_kept r h j)),
  )
  returns event (tool_event ev) env t p h a j = (
    filled env none none (some (proto_event c ev)),
    rw (t, p) refl,
    read_kept env none none _ (rw t refl) a
        (rw (t, p) (data_kept ev.name ev.execution_id ev.body j)),
  )
  returns _ _ env t p h a j = absurd h

  -- What ToProto makes of an envelope, FromProto reads as that envelope, and neither fails: for a request whose
  -- time limit, if there is one, is positive and below 2^31, a response with a known state, and an
  -- event, from no actor or one of a known type, where the codec reads the JSON of the payload from the text
  -- that it wrote for it.
  pub from_proto-to_proto :
      (env : Envelope)
      → IsCarried c env
      → (p : ProtoEnvelope) × (to_proto c (some env) ≡ ok p) × (from_proto c (some p) ≡ ok env)
  from_proto-to_proto env h =
      returns env.message_type env.payload env refl refl h.payload_carried h.actor_known h.json_read
