-- ===== src/Transport/Drained.antt =====
-- The loop of Transport/Memory answers what waits while the transport is open.
use on_code.Prelude.{
  ◌≡◌, ◌≤◌, ◌+◌, refl, sym, ap, ◌∙◌, true, false, List, [], ◌∷◌, ◌++◌, arith, ltb, length,
  length-append, append_assoc, append-nil,
}
use on_code.Protocol.Messages.{Envelope}
use on_code.Transport.Memory.{
  Memory, receiving, sending, Handler, System, Step, loops, got, done, write_waits, read_from,
  receive_request, send_response, answered, handled, sent, at_position, loop, step, run, answers,
  responses_of, responds,
}

-- three steps of the loop for each request: it is read, and its response is tested and sent
abbrev pub rounds : List Envelope → List Step
rounds [] = []
rounds (r ∷ rs) = loops false ∷ loops false ∷ loops false ∷ rounds rs

-- A system whose loop waits for requests, with these in its channel and room for their answers.
pub record IsIdle {S : Type 0} (rs : List Envelope) (y : System S) : Type 0 where
  pub waits : y.position ≡ receiving
  pub is_open : y.memory.closed ≡ false
  pub queued : y.memory.requests ≡ rs
  pub room : length y.memory.responses + length rs ≤ y.memory.capacity

module _ {S : Type 0} (handle : Handler S) where
  -- Every one of some requests has an answer.
  abbrev pub AnswersAll : List Envelope → S → Type 0
  AnswersAll [] s = Unit
  AnswersAll (r ∷ rs) s =
      ((out : Envelope) × ((handle r s).0 ≡ responds out)) × AnswersAll rs (handle r s).1

  -- the system with its first request answered
  abbrev behind : System S → Envelope → List Envelope → Envelope → S → System S
  behind y r rs out world = record y {
    memory = record y.memory { requests = rs; responses = y.memory.responses ++ out ∷ [] };
    position = receiving;
    world = world;
    received = y.received ++ r ∷ [];
  }

  round_lem :
      (y : System S) (r : Envelope) (rs : List Envelope) (out : Envelope) (world : S)
      → IsIdle (r ∷ rs) y
      → handle r y.world ≡ (responds out, world)
      → loop handle false (loop handle false (loop handle false y)) ≡ behind y r rs out world
  unfolding loop at_position receive_request send_response
  round_lem y r rs out world h e =
      let room : ltb (length y.memory.responses) y.memory.capacity ≡ true =
        ground (arith, h.room) in
      let m : Memory = record y.memory { requests = rs } in
      let read : receive_request false y.memory ≡ (got r, m) =
        ap
          (λ q. (
            (read_from y.memory.closed q).0,
            record y.memory { requests = (read_from y.memory.closed q).1 },
          ))
          h.queued in
      let mid : System S = record y {
        memory = m;
        position = sending false out;
        world = world;
        received = y.received ++ r ∷ [];
      } in
      let ready : System S = record mid { position = sending true out } in
      let first : loop handle false y ≡ mid =
        ap (λ q. at_position handle false q y) h.waits
        ∙ ap (λ x. handled handle x y) read
        ∙ ap (λ x. answered handle x (record y { memory = m; received = y.received ++ r ∷ [] }))
            e in
      let tested : send_response false false out m ≡ (write_waits, m) = ground (arith, h.is_open) in
      let write : send_response true false out m
          ≡ (done, record m { responses = m.responses ++ out ∷ [] }) =
        ground (arith, h.is_open, room) in
      let second : loop handle false mid ≡ ready = ap (λ x. sent handle out x mid) tested in
      ap (λ z. loop handle false (loop handle false z)) first
      ∙ ap (λ z. loop handle false z) second
      ∙ ap (λ x. sent handle out x ready) write

  behind-IsIdle :
      (y : System S) (r : Envelope) (rs : List Envelope) (out : Envelope) (world : S)
      → IsIdle (r ∷ rs) y
      → IsIdle rs (behind y r rs out world)
  behind-IsIdle y r rs out world h = record {
    waits = refl;
    is_open = h.is_open;
    queued = refl;
    room = ground (arith, h.room, length-append y.memory.responses (out ∷ []));
  }

  -- What is queued is answered: from where the loop waits for requests, three of its steps for each request in the
  -- channel, none of whose contexts ends, leave it there again, with no request in the channel and
  -- the handler's answers to them behind the responses that were there, if the channel has room for
  -- them and the handler answers each.
  pub run-drains :
      (rs : List Envelope) (y : System S)
      → IsIdle rs y
      → AnswersAll rs y.world
      → let y' : System S = run handle (rounds rs) y in
        IsIdle [] y' × (y'.memory.responses ≡ y.memory.responses ++ (answers handle rs y.world).0)
  unfolding run step answers
  run-drains [] y h a = (h, sym (append-nil y.memory.responses))
  run-drains (r ∷ rs) y h ((out, found), a) =
      let world = (handle r y.world).1 in
      let z = behind y r rs out world in
      let e : handle r y.world ≡ (responds out, world) = ap (λ x. (x, world)) found in
      let (idle, all) = run-drains rs z (behind-IsIdle y r rs out world h) a in
      let same = ap (λ x. run handle (rounds rs) x) (round_lem y r rs out world h e) in
      let rest = (answers handle rs world).0 in
      let there = y.memory.responses in
      rw same (
        idle,
        all
            ∙ append_assoc there (out ∷ []) rest
            ∙ ap (λ o. there ++ (responses_of o ++ rest)) (sym found),
      )
