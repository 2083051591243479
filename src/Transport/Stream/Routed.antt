-- ===== src/Transport/Stream/Routed.antt =====
-- What the stream of Transport/Stream keeps and what it sends.
use on_code.Prelude.{
  ◌≡◌, ◌≤◌, refl, sym, ap, ◌∙◌, Bool, true, false, Option, none, some, List, [], ◌∷◌, ◌++◌, Bytes,
  Result, ok, err, >>=-eq-ok, length, length-append, arith, All, All-append,
}
use on_code.Protocol.Ids
use on_code.Protocol.Ids.{IdError}
use on_code.Protocol.Ids.Kinds
use on_code.Protocol.Ids.Uuids.{Uuid}
use on_code.Protocol.Json.{Fields, object}
use on_code.Protocol.Messages.{MessageType, event, Envelope, Payload, fresh_envelope, new_envelope}
use on_code.Protocol.Adapter.{Codec, IsRead, ProtoEnvelope, AdapterError}
use on_code.Protocol.Adapter.Convert.{to_proto, from_proto}
use on_code.Protocol.Adapter.RoundTrip.{from_proto-to_proto}
use on_code.Transport.Stream.{
  Stream, Stamp, put, is_request, route, routed, rest_of, recv, send_frame, send, signed, send_made,
  event_payload, send_event, Step, arrives, asks, listens, closes, step, run,
}

abbrev pub IsRequest : Envelope → Type 0
IsRequest e = is_request e.message_type ≡ true

abbrev pub IsOther : Envelope → Type 0
IsOther e = is_request e.message_type ≡ false

-- The channel of requests holds requests, that of events holds none, and neither is over its capacity.
pub record IsRouted (y : Stream) : Type 0 where
  pub only_requests : All IsRequest y.requests
  pub no_requests : All IsOther y.events
  pub requests_fit : length y.requests ≤ 16
  pub events_fit : length y.events ≤ 16

put-All :
    (P : Envelope → Type 0) (env : Envelope) (q : List Envelope)
    → P env
    → All P q
    → All P (put env q)
unfolding put
put-All P env q p h = let more = All-append P q (env ∷ []) h (p, tt) in ground (arith, more, h)

put_fits : (env : Envelope) (q : List Envelope) → length q ≤ 16 → length (put env q) ≤ 16
unfolding put
put_fits env q h = ground (arith, length-append q (env ∷ []))

route-IsRouted : (env : Envelope) (y : Stream) → IsRouted y → IsRouted (route env y)
unfolding route
route-IsRouted env y h =
    let fits = put_fits env y.requests h.requests_fit in
    let events_fit = put_fits env y.events h.events_fit in
    let into : is_request env.message_type ≡ true
        → IsRouted (record y { requests = put env y.requests }) =
      λ e. record {
        only_requests = put-All IsRequest env y.requests e h.only_requests;
        no_requests = h.no_requests;
        requests_fit = fits;
        events_fit = h.events_fit;
      } in
    let aside : is_request env.message_type ≡ false
        → IsRouted (record y { events = put env y.events }) =
      λ e. record {
        only_requests = h.only_requests;
        no_requests = put-All IsOther env y.events e h.no_requests;
        requests_fit = h.requests_fit;
        events_fit = events_fit;
      } in
    ground (arith, into, aside)

rest-All : (P : Envelope → Type 0) (q : List Envelope) → All P q → All P (rest_of q)
rest-All P [] h = tt
rest-All P (e ∷ es) h = h.1

rest_fits : (q : List Envelope) → length q ≤ 16 → length (rest_of q) ≤ 16
rest_fits [] h = h
rest_fits (e ∷ es) h = omega (arith, h)

-- what the channels do not depend on
same-IsRouted :
    (y : Stream) (connected reading : Bool)
    → IsRouted y
    → IsRouted (record y { connected = connected; reading = reading })
same-IsRouted y connected reading h = record {
  only_requests = h.only_requests;
  no_requests = h.no_requests;
  requests_fit = h.requests_fit;
  events_fit = h.events_fit;
}

routed-IsRouted :
    (r : Result AdapterError Envelope) (y : Stream) → IsRouted y → IsRouted (routed r y)
routed-IsRouted (err e) y h = h
routed-IsRouted (ok env) y h = route-IsRouted env y h

new_envelope-fresh :
    (u : Uuid) (now : Bytes) (kind : MessageType) (p : Payload) (env : Envelope)
    → new_envelope u now kind p ≡ ok env
    → (mid : Bytes) × (fresh_envelope mid now kind p ≡ env)
unfolding new_envelope
new_envelope-fresh u now kind p env h =
    let (mid, named, made) = >>=-eq-ok (Ids.new Kinds.message u) _ h in (mid, cc)

module _ (c : Codec) where
  recv-IsRouted :
      (frame : Option ProtoEnvelope) (y : Stream) → IsRouted y → IsRouted (recv c frame y)
  unfolding recv
  recv-IsRouted none y h = ground (arith, same-IsRouted y y.connected false h, h)
  recv-IsRouted (some p) y h =
      ground
        (arith, same-IsRouted y y.connected false h, routed-IsRouted (from_proto c (some p)) y h, h)

  step-IsRouted : (s : Step) (y : Stream) → IsRouted y → IsRouted (step c s y)
  unfolding step
  step-IsRouted (arrives frame) y h = recv-IsRouted frame y h
  step-IsRouted asks y h = record {
    only_requests = rest-All IsRequest y.requests h.only_requests;
    no_requests = h.no_requests;
    requests_fit = rest_fits y.requests h.requests_fit;
    events_fit = h.events_fit;
  }
  step-IsRouted listens y h = record {
    only_requests = h.only_requests;
    no_requests = rest-All IsOther y.events h.no_requests;
    requests_fit = h.requests_fit;
    events_fit = rest_fits y.events h.events_fit;
  }
  step-IsRouted closes y h = same-IsRouted y false y.reading h

  -- Frames that arrive, errors of the connection, reads of both channels and a Close in any order keep
  -- this: the channel of requests, which the loop of the agent reads, holds requests only, that of
  -- events holds none, and neither holds more than 16.
  pub run-IsRouted : (ss : List Step) (y : Stream) → IsRouted y → IsRouted (run c ss y)
  unfolding run
  run-IsRouted [] y h = h
  run-IsRouted (s ∷ ss) y h = run-IsRouted ss (step c s y) (step-IsRouted s y h)

  sent_live :
      (p : ProtoEnvelope) (y : Stream)
      → y.connected ≡ true
      → send_frame c true (ok p) y ≡ (none, record y { sent = y.sent ++ p ∷ [] })
  sent_live p y live = ground (arith, live)

  -- An event that the stream sends while it is connected is read by FromProto as it was made: the event with its
  -- data, from the agent of the stream, with the identifier and the time that it was given, if the
  -- codec reads its data from the text that it wrote for it and the Send succeeds.
  pub send_event-received :
      (t : Stamp) (name : Bytes) (content : Fields) (y : Stream) (env : Envelope)
      → IsRead c (object content)
      → y.connected ≡ true
      → new_envelope t.uuid t.now event (event_payload c name (some content)) ≡ ok env
      → (p : ProtoEnvelope) × (send_event c true t name (some content) y
          ≡ (none, record y { sent = y.sent ++ p ∷ [] }))
        × (from_proto c (some p) ≡ ok (signed c y env))
  unfolding send_event send_made send
  send_event-received t name content y env json live made =
      let (mid, fresh) = new_envelope-fresh t.uuid t.now event _ env made in
      let out : Envelope =
        signed c y (fresh_envelope mid t.now event (event_payload c name (some content))) in
      let (p, written, read) =
        from_proto-to_proto c out
          (record { payload_carried = tt; actor_known = refl; json_read = json }) in
      (
        p,
        ap (λ r. send_made c true r y) made
            ∙ ap (λ e. send_frame c true (to_proto c (some (signed c y e))) y) (sym fresh)
            ∙ ap (λ r. send_frame c true r y) written
            ∙ sent_live p y live,
        read ∙ ap (λ e. ok (signed c y e)) fresh,
      )
