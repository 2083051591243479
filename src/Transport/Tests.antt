-- ===== src/Transport/Tests.antt =====
-- Examples of the transport in memory (local-agent/internal/transport/).
use on_code.Prelude.{
  ◌≡◌, ◌++◌, refl, true, false, none, some, List, [], ◌∷◌, Bytes, codes, arith, length, ok, ◌⊎◌,
  bytes_eq,
}
use on_code.Protocol.Adapter.{Codec, ProtoEnvelope}
use on_code.Protocol.Adapter.Convert.{plain_proto, from_proto}
use on_code.Protocol.Ids
use on_code.Protocol.Ids.Kinds
use on_code.Protocol.Ids.Uuids.{Uuid, format_uuid}
use on_code.Protocol.Json.{Fields, end, field, str, object}
use on_code.Protocol.Messages.{Envelope, event, garbled, fresh_envelope, new_envelope}
use on_code.Transport.Stream
use on_code.Transport.Stream.{
  Stream as StreamState, Stamp, new_stream, connect, arrives, event_payload, send_event, signed,
}
use on_code.Transport.Stream.Routed.{IsRouted, run-IsRouted, send_event-received}
use on_code.Transport.Memory.{
  receiving, returned, panicked, responds, transport_closed, Handler, System, Step, injects, takes,
  closes, loops, run, answers,
}
use on_code.Transport.Rounds.{IsOrdered}
use on_code.Transport.Ordered.{run-IsOrdered}
use on_code.Transport.Ended.{HasReturned, HasPanicked, IsExposed, loop_steps, loop-ends}
use on_code.Transport.Drained.{IsIdle, AnswersAll, rounds, run-drains}

abbrev envelope : Bytes → Envelope
envelope id = fresh_envelope id (codes "now") event (garbled [])

-- the handler answers with the same identifier, and remembers it
abbrev echo : Handler Bytes
echo env s = (responds (record env { timestamp = s }), env.message_id)

abbrev start : System Bytes
start = record {
  memory = record { requests = []; responses = []; capacity = 2; closed = false; agent_id = [] };
  position = receiving;
  world = [];
  injected = [];
  received = [];
  taken = [];
}

start-IsOrdered : IsOrdered echo [] start
unfolding answers
start-IsOrdered = record {
  in_order = refl;
  same_world = refl;
  all_answered = refl;
  requests_fit = omega arith;
  responses_fit = omega arith;
}

abbrev steps : List Step
steps =
    injects false false (envelope (codes "a"))
    ∷ injects true false (envelope (codes "a"))
    ∷ loops false
    ∷ injects true false (envelope (codes "b"))
    ∷ loops false
    ∷ loops false
    ∷ takes false
    ∷ loops false
    ∷ closes
    ∷ loops false
    ∷ []

run-IsOrdered_example : IsOrdered echo [] (run echo steps start)
run-IsOrdered_example = run-IsOrdered echo [] steps start start-IsOrdered

abbrev queued : System Bytes
queued = record start {
  memory = record start.memory { requests = envelope (codes "a") ∷ envelope (codes "b") ∷ [] };
}

queued-IsIdle : IsIdle queued.memory.requests queued
queued-IsIdle = record { waits = refl; is_open = refl; queued = refl; room = omega arith }

all_answer : AnswersAll echo queued.memory.requests []
all_answer = ((_, refl), ((_, refl), tt))

run-drains_example :
    let y : System Bytes = run echo (rounds queued.memory.requests) queued in
    IsIdle [] y × (y.memory.responses ≡ [] ++ (answers echo queued.memory.requests []).0)
run-drains_example = run-drains echo queued.memory.requests queued queued-IsIdle all_answer

abbrev over : System Bytes
over = record queued { memory = record queued.memory { closed = true } }

loop-ends_example :
    let y : System Bytes = run echo (loop_steps (false ∷ false ∷ false ∷ false ∷ [])) over in
    HasReturned y.position ⊎ (IsExposed over.position × HasPanicked y.position)
loop-ends_example = loop-ends echo over (false ∷ false ∷ false ∷ false ∷ []) refl (omega arith)

-- A Close behind the first response: the request that waits is handled, and its answer is lost.
lost_test :
    ((run echo steps start).position
      ≡ returned transport_closed (some (record (envelope (codes "b")) { timestamp = codes "a" })))
    × ((run echo steps start).world ≡ codes "b")
unfolding run
lost_test = (refl, refl)

-- A Close between the test of SendResponse and its write to the channel.
panic_test :
    (run echo
      (injects true false (envelope (codes "a"))
        ∷ loops false
        ∷ loops false
        ∷ closes
        ∷ loops false
        ∷ [])
      start).position
    ≡ panicked (some (record (envelope (codes "a")) { timestamp = [] }))
unfolding run
panic_test = refl

abbrev empty_stream : StreamState
empty_stream = new_stream (codes "agent-1")

abbrev arguments : Fields
arguments = field "path" (str (codes "a.txt")) end

-- a codec of one value
abbrev codec : Codec
codec = record { encode = λ v. codes "{}"; decode = λ s. some (object arguments) }

abbrev frame : ProtoEnvelope
frame = record (plain_proto (envelope (codes "a"))) {
  event_payload = some (record { event = codes "e"; execution_id = []; data_json = [] });
}

-- an event, an error of the connection, and an event behind it
abbrev arrivals : List Stream.Step
arrivals = arrives (some frame) ∷ arrives none ∷ arrives (some frame) ∷ []

empty_stream-IsRouted : IsRouted (connect true true empty_stream).1
unfolding connect
empty_stream-IsRouted = record {
  only_requests = tt;
  no_requests = tt;
  requests_fit = omega arith;
  events_fit = omega arith;
}

run-IsRouted_example : IsRouted (Stream.run codec arrivals (connect true true empty_stream).1)
run-IsRouted_example =
    run-IsRouted codec arrivals (connect true true empty_stream).1 empty_stream-IsRouted

-- Behind an error of Recv nothing is read, and the stream still counts as connected.
deaf_test :
    let y : StreamState = Stream.run codec arrivals (connect true true empty_stream).1 in
    (length y.events ≡ 1) × (y.reading ≡ false) × (y.connected ≡ true)
unfolding Stream.run connect from_proto plain_proto
deaf_test = (refl, refl, refl)

abbrev drawn : Uuid
drawn = record {
  b0 = 1;
  b1 = 2;
  b2 = 3;
  b3 = 4;
  b4 = 5;
  b5 = 6;
  b6 = 7;
  b7 = 8;
  b8 = 9;
  b9 = 10;
  b10 = 11;
  b11 = 12;
  b12 = 13;
  b13 = 14;
  b14 = 15;
  b15 = 255;
}

abbrev stamp : Stamp
stamp = record { uuid = drawn; now = codes "now" }

abbrev made : Envelope
made =
    fresh_envelope (Kinds.message ++ b'-' ∷ format_uuid drawn) (codes "now") event
      (event_payload codec (codes "e") (some arguments))

made_eq :
    new_envelope drawn (codes "now") event (event_payload codec (codes "e") (some arguments))
    ≡ ok made
unfolding new_envelope Ids.new Ids.known bytes_eq
made_eq = refl

abbrev live : StreamState
live = record empty_stream { connected = true }

send_event-received_example :
    (p : ProtoEnvelope) × (send_event codec true stamp (codes "e") (some arguments) live
      ≡ (none, record live { sent = live.sent ++ p ∷ [] }))
    × (from_proto codec (some p) ≡ ok (signed codec live made))
send_event-received_example =
    send_event-received codec stamp (codes "e") arguments live made
      (record { decode-encode = refl; encode_text = refl }) refl made_eq
