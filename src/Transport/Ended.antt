-- ===== src/Transport/Ended.antt =====
-- The loop of Transport/Memory comes to an end when the transport is closed.
use on_code.Prelude.{
  ◌≡◌, ◌≤◌, ◌+◌, refl, sym, ap, ◌∙◌, Bool, true, false, none, List, [], ◌∷◌, ◌++◌, arith, length,
  ◌⊎◌, inl, inr,
}
use mathlib.Core.Path.{subst}
use on_code.Protocol.Messages.{Envelope}
use on_code.Transport.Memory.{
  Memory, Position, receiving, sending, returned, Handler, System, Step, loops, context_done,
  transport_closed, read_from, receive_request, send_response, answered, handled, sent, at_position,
  loop, step, run, Reply, responds, silent, fails, panicked,
}

abbrev pub HasReturned : Position → Type 0
HasReturned receiving = ⊥
HasReturned (sending tested out) = ⊥
HasReturned (returned e lost) = Unit
HasReturned (panicked lost) = ⊥

abbrev pub HasPanicked : Position → Type 0
HasPanicked receiving = ⊥
HasPanicked (sending tested out) = ⊥
HasPanicked (returned e lost) = ⊥
HasPanicked (panicked lost) = Unit

-- The loop is inside SendResponse, behind its test of closed, or a panic ended it before.
abbrev pub IsExposed : Position → Type 0
IsExposed receiving = ⊥
IsExposed (sending tested out) = tested ≡ true
IsExposed (returned e lost) = ⊥
IsExposed (panicked lost) = Unit

-- steps of the loop alone, by whether the context of each ends its wait
abbrev pub loop_steps : List Bool → List Step
loop_steps [] = []
loop_steps (b ∷ bs) = loops b ∷ loop_steps bs

module _ {S : Type 0} (handle : Handler S) where
  returned_at :
      (b : Bool) (y : System S) (q : Position)
      → y.position ≡ q
      → HasReturned q
      → HasReturned (at_position handle b q y).position
  unfolding at_position
  returned_at b y receiving p h = absurd h
  returned_at b y (sending tested out) p h = absurd h
  returned_at b y (returned e lost) p h = rw p tt
  returned_at b y (panicked lost) p h = absurd h

  panicked_at :
      (b : Bool) (y : System S) (q : Position)
      → y.position ≡ q
      → HasPanicked q
      → HasPanicked (at_position handle b q y).position
  unfolding at_position
  panicked_at b y receiving p h = absurd h
  panicked_at b y (sending tested out) p h = absurd h
  panicked_at b y (returned e lost) p h = absurd h
  panicked_at b y (panicked lost) p h = rw p tt

  -- behind its return or a panic the loop goes nowhere
  stays_returned :
      (bs : List Bool) (y : System S)
      → HasReturned y.position
      → HasReturned (run handle (loop_steps bs) y).position
  unfolding run step loop
  stays_returned [] y h = h
  stays_returned (b ∷ bs) y h =
      stays_returned bs (at_position handle b y.position y) (returned_at b y y.position refl h)

  stays_panicked :
      (bs : List Bool) (y : System S)
      → HasPanicked y.position
      → HasPanicked (run handle (loop_steps bs) y).position
  unfolding run step loop
  stays_panicked [] y h = h
  stays_panicked (b ∷ bs) y h =
      stays_panicked bs (at_position handle b y.position y) (panicked_at b y y.position refl h)

  sending-returns :
      (y : System S) (out : Envelope) (b : Bool)
      → y.memory.closed ≡ true
      → HasReturned (sent handle out (send_response false b out y.memory) y).position
  unfolding send_response
  sending-returns y out b c = rw c tt

  sending-ends :
      (y : System S) (out : Envelope) (b : Bool)
      → y.memory.closed ≡ true
      → let q : Position = (sent handle out (send_response true b out y.memory) y).position in
        HasReturned q ⊎ HasPanicked q
  unfolding send_response
  sending-ends y out true c = inl tt
  sending-ends y out false c = rw c (inr tt)

  -- what holds behind the steps that follow a first one
  after_step :
      (P : Position → Type 0) (b : Bool) (bs : List Bool) (y z : System S) (q : Position)
      → y.position ≡ q
      → at_position handle b q y ≡ z
      → P (run handle (loop_steps bs) z).position
      → P (run handle (loop_steps (b ∷ bs)) y).position
  unfolding run step loop
  after_step P b bs y z q p e h =
      subst (λ (x : System S). P (run handle (loop_steps bs) x).position)
        (sym (ap (λ r. at_position handle b r y) p ∙ e)) h

  sending_ends :
      (bs : List Bool) (y : System S) (out : Envelope)
      → y.position ≡ sending false out
      → y.memory.closed ≡ true
      → 1 ≤ length bs
      → HasReturned (run handle (loop_steps bs) y).position
  unfolding at_position
  sending_ends [] y out p c n = absurd (omega (arith, n))
  sending_ends (b ∷ bs) y out p c n =
      let next = sent handle out (send_response false b out y.memory) y in
      after_step HasReturned b bs y next (sending false out) p refl
        (stays_returned bs next (sending-returns y out b c))

  exposed_ends :
      (bs : List Bool) (y : System S) (out : Envelope)
      → y.position ≡ sending true out
      → y.memory.closed ≡ true
      → 1 ≤ length bs
      → let q : Position = (run handle (loop_steps bs) y).position in HasReturned q ⊎ HasPanicked q
  unfolding at_position
  exposed_ends [] y out p c n = absurd (omega (arith, n))
  exposed_ends (b ∷ bs) y out p c n =
      let next = sent handle out (send_response true b out y.memory) y in
      elim (sending-ends y out b c) [
        | inl done_so ↦ inl (
            after_step HasReturned b bs y next (sending true out) p refl
              (stays_returned bs next done_so))
        | inr crashed ↦ inr (
            after_step HasPanicked b bs y next (sending true out) p refl
              (stays_panicked bs next crashed))
      ]

  closed_read :
      (m : Memory) (queue : List Envelope)
      → m.closed ≡ true
      → m.requests ≡ queue
      → receive_request false m
        ≡ ((read_from true queue).0, record m { requests = (read_from true queue).1 })
  unfolding receive_request
  closed_read m queue c q =
      ap (λ k. ((read_from k m.requests).0, record m { requests = (read_from k m.requests).1 })) c
      ∙ ap (λ l. ((read_from true l).0, record m { requests = (read_from true l).1 })) q

  -- behind the handler, if the loop ends from where it waits again
  answered_ends :
      (bs : List Bool) (y : System S) (rest : List Envelope) (a : Reply × S)
      → ((z : System S)
          → z.position ≡ receiving
          → z.memory.requests ≡ rest
          → z.memory.closed ≡ true
          → HasReturned (run handle (loop_steps bs) z).position)
      → y.memory.requests ≡ rest
      → y.memory.closed ≡ true
      → 1 ≤ length bs
      → HasReturned (run handle (loop_steps bs) (answered handle a y)).position
  answered_ends bs y rest (fails, world) later q c n =
      stays_returned bs (answered handle (fails, world) y) tt
  answered_ends bs y rest (silent, world) later q c n =
      later (answered handle (silent, world) y) refl q c
  answered_ends bs y rest (responds out, world) later q c n =
      sending_ends bs (answered handle (responds out, world) y) out refl c n

  receiving_ends :
      (bs : List Bool) (queue : List Envelope) (y : System S)
      → y.position ≡ receiving
      → y.memory.requests ≡ queue
      → y.memory.closed ≡ true
      → length queue + 2 ≤ length bs
      → HasReturned (run handle (loop_steps bs) y).position
  unfolding at_position receive_request
  receiving_ends [] queue y p q c n = absurd (omega (arith, n))
  receiving_ends (true ∷ bs) queue y p q c n =
      let z : System S = record y { position = returned context_done none } in
      after_step HasReturned true bs y z receiving p refl (stays_returned bs z tt)
  receiving_ends (false ∷ bs) [] y p q c n =
      let z : System S = record y { position = returned transport_closed none } in
      after_step HasReturned false bs y z receiving p
        (ap (λ x. handled handle x y) (closed_read y.memory [] c q)) (stays_returned bs z tt)
  receiving_ends (false ∷ bs) (r ∷ rest) y p q c n =
      let z : System S = record y {
        memory = record y.memory { requests = rest };
        received = y.received ++ r ∷ [];
      } in
      after_step HasReturned false bs y (answered handle (handle r y.world) z) receiving p
        (ap (λ x. handled handle x y) (closed_read y.memory (r ∷ rest) c q))
        (answered_ends bs z rest (handle r y.world)
          (λ x at_read left shut. receiving_ends bs rest x at_read left shut (omega (arith, n)))
          refl c (omega (arith, n)))

  ends_from :
      (bs : List Bool) (y : System S) (q : Position)
      → y.position ≡ q
      → y.memory.closed ≡ true
      → length y.memory.requests + 2 ≤ length bs
      → let q' : Position = (run handle (loop_steps bs) y).position in
        HasReturned q' ⊎ (IsExposed q × HasPanicked q')
  ends_from bs y receiving p c n = inl (receiving_ends bs y.memory.requests y p refl c n)
  ends_from bs y (sending false out) p c n = inl (sending_ends bs y out p c (omega (arith, n)))
  ends_from bs y (sending true out) p c n = elim (exposed_ends bs y out p c (omega (arith, n))) [
    | inl done_so ↦ inl done_so
    | inr crashed ↦ inr (refl, crashed)
  ]
  ends_from bs y (returned e lost) p c n = inl (stays_returned bs y (rw p tt))
  ends_from bs y (panicked lost) p c n = inr (tt, stays_panicked bs y (rw p tt))

  -- The loop ends once the transport is closed: after as many of its steps as requests wait, and two more, it has
  -- returned, whatever the handler answers, a response, none or an error, and whether or not its
  -- context is done; or it has panicked, which it does only from inside SendResponse, where the
  -- test of closed was behind it, if no panic was there before.
  pub loop-ends :
      (y : System S) (bs : List Bool)
      → y.memory.closed ≡ true
      → length y.memory.requests + 2 ≤ length bs
      → let q : Position = (run handle (loop_steps bs) y).position in
        HasReturned q ⊎ (IsExposed y.position × HasPanicked q)
  loop-ends y bs c n = ends_from bs y y.position refl c n
