-- ===== src/Protocol/Adapter/Tests.antt =====
-- Examples of messages of gRPC (protocol/grpcadapt/adapt.go).
use on_code.Prelude.{◌≡◌, ◌<◌, ◌^◌, ◌↔◌, refl, arith, none, some, codes, ok, err}
use on_code.Protocol.Json.{Value, object, str, end, field}
use on_code.Protocol.Messages.{
  request, local_agent_actor, Envelope, tool_request, garbled, fresh_envelope,
}
use on_code.Protocol.Adapter.{
  Codec, ProtoEnvelope, nil_message, no_event, bad_payload, to_timeout, from_timeout,
  from_proto_message_type,
}
use on_code.Protocol.Adapter.Convert.{to_proto, from_proto, plain_proto, from_event, payload_of}
use on_code.Protocol.Adapter.RoundTrip.{timeout_kept_iff, from_proto-to_proto}

abbrev arguments : Value
arguments = object (field "path" (str (codes "a.txt")) end)

-- a codec of one value
abbrev codec : Codec
codec = record { encode = λ v. codes "{}"; decode = λ s. some arguments }

abbrev envelope : Envelope
envelope =
    record (fresh_envelope (codes "m") (codes "now") request (
      tool_request (record {
        call_id = codes "c";
        tool = codes "workspace.read_file";
        arguments = some (field "path" (str (codes "a.txt")) end);
        timeout_ms = some 3000;
      }))) { actor = some (record { actor_type = local_agent_actor; actor_id = codes "agent-1" }) }

from_proto-to_proto_example :
    (p : ProtoEnvelope) × (to_proto codec (some envelope) ≡ ok p)
    × (from_proto codec (some p) ≡ ok envelope)
from_proto-to_proto_example = from_proto-to_proto codec envelope (record {
  payload_carried = (omega arith, omega arith);
  actor_known = refl;
  json_read = record { decode-encode = refl; encode_text = refl };
})

timeout_kept_iff_example :
    (from_timeout (to_timeout (some 3000)) ≡ some 3000) ↔ ((0 < 3000) × (3000 < 2 ^ 31))
timeout_kept_iff_example = timeout_kept_iff 3000

-- A limit of fifty days comes back as another one, and one of thirty days is lost.
timeout_test :
    (from_timeout (to_timeout (some 4320000000)) ≡ some 25032704)
    × (from_timeout (to_timeout (some 2592000000)) ≡ none)
unfolding from_timeout to_timeout
timeout_test = (refl, refl)

-- An event without its payload and a nil envelope are refused.
refused_test :
    (to_proto codec none ≡ err nil_message)
    × (to_proto codec (some (record envelope { payload = garbled (codes "") })) ≡ err bad_payload)
    × (from_proto codec (some (record (plain_proto envelope) { message_type = 3 })) ≡ err no_event)
unfolding to_proto from_proto plain_proto from_proto_message_type from_event payload_of
refused_test = (refl, refl, refl)
