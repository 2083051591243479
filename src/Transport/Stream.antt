-- ===== src/Transport/Stream.antt =====
-- grpc.go of local-agent/internal/transport/: the stream to the server. The connection is a parameter: whether
-- a dial, an Open or a Send succeeds, and the frames that Recv gives.
pub mod Routed
use on_code.Prelude.{
  ℕ, Bool, true, false, not, Option, none, some, List, [], ◌∷◌, ◌++◌, Bytes, codes, Result, ok, err,
  ltb, if◌then◌else◌, is_empty, length,
}
use on_code.Protocol.Ids.{IdError}
use on_code.Protocol.Ids.Uuids.{Uuid}
use on_code.Protocol.Json.{str, Fields, end, field}
use on_code.Protocol.Messages.{
  MessageType, request, event, local_agent_actor, Envelope, Payload, tool_event, Heartbeat,
  new_envelope,
}
use on_code.Protocol.Versioning
use on_code.Protocol.Adapter.{Codec, ProtoEnvelope, AdapterError}
use on_code.Protocol.Adapter.Convert.{to_proto, from_proto}

-- The fields of a Stream; `reading` says that its recvLoop runs, and `sent` is what went to the server, the
-- oldest first.
pub record Stream : Type 0 where
  pub agent_id : Bytes
  pub connected : Bool
  pub reading : Bool
  pub requests : List Envelope
  pub events : List Envelope
  pub sent : List ProtoEnvelope

pub data StreamError : Type 0 where
  dial_failed open_failed not_connected send_failed : StreamError
  bad_envelope : AdapterError → StreamError
  no_id : IdError → StreamError

abbrev pub new_stream : Bytes → Stream
new_stream agent = record {
  agent_id = agent;
  connected = false;
  reading = false;
  requests = [];
  events = [];
  sent = [];
}

-- `Connect`, by what the dial and Open do
unfoldable pub connect : Bool → Bool → Stream → Option StreamError × Stream
connect dials opens y =
    if not dials
    then (some dial_failed, y)
    else if not opens
    then (some open_failed, y)
    else (none, record y { connected = true; reading = true })

-- `Close`
abbrev pub close : Stream → Stream
close y = record y { connected = false }

-- what a channel of 16 holds behind a write that waits for 5 seconds at most
unfoldable pub put : Envelope → List Envelope → List Envelope
put env queue = if ltb (length queue) 16 then queue ++ env ∷ [] else queue

abbrev pub is_request : MessageType → Bool
is_request request = true
is_request _ = false

unfoldable pub route : Envelope → Stream → Stream
unfolding put
route env y =
    if is_request env.message_type
    then record y { requests = put env y.requests }
    else record y { events = put env y.events }

abbrev pub routed : Result AdapterError Envelope → Stream → Stream
routed (err e) y = y
routed (ok env) y = route env y

-- a reading of the channel that `ReceiveRequest` and `Events` give; nothing is read where it waits
abbrev pub first_of : List Envelope → Option Envelope
first_of [] = none
first_of (e ∷ es) = some e

abbrev pub rest_of : List Envelope → List Envelope
rest_of [] = []
rest_of (e ∷ es) = es

abbrev pub receive_request : Stream → Option Envelope × Stream
receive_request y = (first_of y.requests, record y { requests = rest_of y.requests })

abbrev pub next_event : Stream → Option Envelope × Stream
next_event y = (first_of y.events, record y { events = rest_of y.events })

-- the identifier and the time of an envelope that is sent
pub record Stamp : Type 0 where
  pub uuid : Uuid
  pub now : Bytes

-- What happens on the side that reads.
pub data Step : Type 0 where
  arrives : Option ProtoEnvelope → Step
  asks listens closes : Step

module _ (c : Codec) where
  -- one round of `recvLoop` with what Recv gives, `none` for its error
  unfoldable pub recv : Option ProtoEnvelope → Stream → Stream
  unfolding route
  recv frame y =
      if not y.reading
      then y
      else if not y.connected
      then record y { reading = false }
      else elim frame [
        | none ↦ record y { reading = false }
        | some p ↦ routed (from_proto c (some p)) y
      ]

  abbrev pub send_frame :
      Bool → Result AdapterError ProtoEnvelope → Stream → Option StreamError × Stream
  send_frame goes (err e) y = (some (bad_envelope e), y)
  send_frame goes (ok p) y =
      if not y.connected
      then (some not_connected, y)
      else if goes
      then (none, record y { sent = y.sent ++ p ∷ [] })
      else (some send_failed, y)

  -- `send`, and with it `SendResponse`; `goes` is whether the Send of the stream succeeds in time
  unfoldable pub send : Bool → Envelope → Stream → Option StreamError × Stream
  send goes env y = send_frame goes (to_proto c (some env)) y

  abbrev pub signed : Stream → Envelope → Envelope
  signed y env = record env {
    actor = some (record { actor_type = local_agent_actor; actor_id = y.agent_id });
    protocol = Versioning.current;
  }

  unfoldable pub send_made : Bool → Result IdError Envelope → Stream → Option StreamError × Stream
  unfolding send
  send_made goes (err e) y = (some (no_id e), y)
  send_made goes (ok env) y = send goes (signed y env) y

  abbrev pub event_payload : Bytes → Option Fields → Payload
  event_payload name content =
      tool_event (record { name = name; execution_id = codes ""; body = content })

  unfoldable pub send_event :
      Bool → Stamp → Bytes → Option Fields → Stream → Option StreamError × Stream
  unfolding send_made
  send_event goes t name content y =
      send_made goes (new_envelope t.uuid t.now event (event_payload name content)) y

  unfoldable pub register : Bool → Stamp → Bytes → Stream → Option StreamError × Stream
  unfolding send_event
  register goes t id y =
      let named = if is_empty id then y else record y { agent_id = id } in
      send_event goes t (codes "agent.register") (some (field "agent_id" (str named.agent_id) end))
        named

  abbrev pub heartbeat_fields : Heartbeat → Fields
  heartbeat_fields hb = field "agent_id" (str hb.agent_id) (
      field "protocol_version" (str hb.protocol_version_text)
        (field "timestamp" (str hb.sent_at) end))

  unfoldable pub send_heartbeat : Bool → Stamp → Heartbeat → Stream → Option StreamError × Stream
  unfolding send_event
  send_heartbeat goes t hb y =
      send_event goes t (codes "agent.heartbeat") (some (heartbeat_fields hb)) y

  unfoldable pub step : Step → Stream → Stream
  unfolding recv
  step (arrives frame) y = recv frame y
  step asks y = (receive_request y).1
  step listens y = (next_event y).1
  step closes y = close y

  unfoldable pub run : List Step → Stream → Stream
  unfolding step
  run [] y = y
  run (s ∷ ss) y = run ss (step s y)
