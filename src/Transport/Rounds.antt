-- ===== src/Transport/Rounds.antt =====
-- What holds of the loop's requests and responses, and that a round of the loop of Transport/Memory keeps it.
use on_code.Prelude.{
  ◌≡◌, ◌≤◌, refl, sym, ap, ◌∙◌, Bool, true, false, Option, none, some, List, [], ◌∷◌, ◌++◌, arith,
  ltb, if◌then◌else◌, length, length-append, append_assoc, append-nil,
}
use on_code.Protocol.Messages.{Envelope}
use on_code.Transport.Memory.{
  Position, receiving, sending, returned, Handler, System, read_fails, context_done,
  transport_closed, read_from, receive_request, send_response, answered, handled, sent, at_position,
  answers, responses_of, Reply, responds, silent, fails, panicked, in_hand,
}

abbrev pub listed : Option Envelope → List Envelope
listed none = []
listed (some e) = e ∷ []

abbrev pub held : Position → List Envelope
held q = listed (in_hand q)

module _ {S : Type 0} (handle : Handler S) where
  -- The requests are received in the order in which they were put in, and the responses are the answers to those
  -- received, in that order and each once: those taken out, those in the buffer, and the one that
  -- the loop holds. No buffer is over its capacity.
  pub record IsOrdered (first : S) (y : System S) : Type 0 where
    pub in_order : y.injected ≡ y.received ++ y.memory.requests
    pub same_world : (answers handle y.received first).1 ≡ y.world
    pub all_answered :
        (answers handle y.received first).0 ≡ y.taken ++ (y.memory.responses ++ held y.position)
    pub requests_fit : length y.memory.requests ≤ y.memory.capacity
    pub responses_fit : length y.memory.responses ≤ y.memory.capacity

  answers-snoc :
      (rs : List Envelope) (r : Envelope) (s : S)
      → answers handle (rs ++ r ∷ []) s ≡ (
        (answers handle rs s).0 ++ responses_of (handle r (answers handle rs s).1).0,
        (handle r (answers handle rs s).1).1,
      )
  unfolding answers
  answers-snoc [] r s = ap (λ l. (l, (handle r s).1)) (append-nil (responses_of (handle r s).0))
  answers-snoc (q ∷ rs) r s =
      let (out, next) = handle q s in
      ap (λ x. (responses_of out ++ x.0, x.1)) (answers-snoc rs r next)
      ∙ ap (λ l. (l, (handle r (answers handle rs next).1).1))
          (sym (
            append_assoc (responses_of out) (answers handle rs next).0
              (responses_of (handle r (answers handle rs next).1).0)))

  -- what the loop holds at ReceiveRequest is nothing
  idle_answered :
      (first : S) (y : System S) (l : List Envelope)
      → y.position ≡ receiving
      → IsOrdered first y
      → (answers handle y.received first).0 ++ l ≡ y.taken ++ (y.memory.responses ++ l)
  idle_answered first y l p h =
      ap (λ o. o ++ l) (h.all_answered ∙ ap (λ q. y.taken ++ (y.memory.responses ++ held q)) p)
      ∙ append_assoc y.taken (y.memory.responses ++ []) l
      ∙ ap (λ o. y.taken ++ (o ++ l)) (append-nil y.memory.responses)

  next_answers :
      (first : S) (y : System S) (r : Envelope) (a : Reply × S)
      → handle r y.world ≡ a
      → IsOrdered first y
      → answers handle (y.received ++ r ∷ []) first
        ≡ ((answers handle y.received first).0 ++ responses_of a.0, a.1)
  next_answers first y r a e h =
      let before = (answers handle y.received first).0 in
      answers-snoc y.received r first
      ∙ ap (λ w. (before ++ responses_of (handle r w).0, (handle r w).1)) h.same_world
      ∙ ap (λ x. (before ++ responses_of x.0, x.1)) e

  answered_by :
      (first : S) (y : System S) (r : Envelope) (rest : List Envelope) (a : Reply × S)
      → y.injected ≡ (y.received ++ r ∷ []) ++ rest
      → (answers handle (y.received ++ r ∷ []) first).1 ≡ a.1
      → (answers handle (y.received ++ r ∷ []) first).0
        ≡ y.taken ++ (y.memory.responses ++ responses_of a.0)
      → length rest ≤ y.memory.capacity
      → length y.memory.responses ≤ y.memory.capacity
      → IsOrdered first (
          answered handle a (record y {
            memory = record y.memory { requests = rest };
            received = y.received ++ r ∷ [];
          }))
  answered_by first y r rest (fails, world) o w l f g = record {
    in_order = o;
    same_world = w;
    all_answered = l;
    requests_fit = f;
    responses_fit = g;
  }
  answered_by first y r rest (silent, world) o w l f g = record {
    in_order = o;
    same_world = w;
    all_answered = l;
    requests_fit = f;
    responses_fit = g;
  }
  answered_by first y r rest (responds out, world) o w l f g = record {
    in_order = o;
    same_world = w;
    all_answered = l;
    requests_fit = f;
    responses_fit = g;
  }

  -- a request that is received and answered, from the handler's answer
  answered-IsOrdered :
      (first : S) (y : System S) (r : Envelope) (rest : List Envelope) (a : Reply × S)
      → y.position ≡ receiving
      → y.memory.requests ≡ r ∷ rest
      → handle r y.world ≡ a
      → IsOrdered first y
      → IsOrdered first (
          answered handle a (record y {
            memory = record y.memory { requests = rest };
            received = y.received ++ r ∷ [];
          }))
  answered-IsOrdered first y r rest a p q e h =
      let order : y.injected ≡ (y.received ++ r ∷ []) ++ rest =
        h.in_order ∙ ap (λ l. y.received ++ l) q ∙ sym (append_assoc y.received (r ∷ []) rest) in
      let next = next_answers first y r a e h in
      let all = ap (λ x. x.0) next ∙ idle_answered first y (responses_of a.0) p h in
      let fit : length rest ≤ y.memory.capacity = ground (arith, h.requests_fit, q) in
      answered_by first y r rest a order (ap (λ x. x.1) next) all fit h.responses_fit

  -- the loop goes on to a position in which it holds the same
  pub moved-IsOrdered :
      (first : S) (y : System S) (q : Position)
      → held y.position ≡ held q
      → IsOrdered first y
      → IsOrdered first (record y { position = q })
  moved-IsOrdered first y q p h = record {
    in_order = h.in_order;
    same_world = h.same_world;
    all_answered = h.all_answered ∙ ap (λ l. y.taken ++ (y.memory.responses ++ l)) p;
    requests_fit = h.requests_fit;
    responses_fit = h.responses_fit;
  }

  received-IsOrdered :
      (first : S) (y : System S) (stops closed : Bool) (queue : List Envelope)
      → y.position ≡ receiving
      → y.memory.requests ≡ queue
      → IsOrdered first y
      → let (out, rest) = read_from closed queue in
        IsOrdered first (
          handled handle
            (if stops
              then (read_fails context_done, y.memory)
              else (out, record y.memory { requests = rest }))
            y)
  received-IsOrdered first y true closed queue p q h =
      moved-IsOrdered first y (returned context_done none) (ap held p) h
  received-IsOrdered first y false true [] p q h =
      moved-IsOrdered first y (returned transport_closed none) (ap held p) h
  received-IsOrdered first y false false [] p q h = h
  received-IsOrdered first y false closed (r ∷ rest) p q h =
      answered-IsOrdered first y r rest (handle r y.world) p q refl h

  sent_done :
      (first : S) (y : System S) (out : Envelope)
      → held y.position ≡ out ∷ []
      → ltb (length y.memory.responses) y.memory.capacity ≡ true
      → IsOrdered first y
      → IsOrdered first (record y {
        memory = record y.memory { responses = y.memory.responses ++ out ∷ [] };
        position = receiving;
      })
  sent_done first y out p room h = record {
    in_order = h.in_order;
    same_world = h.same_world;
    all_answered =
        h.all_answered
        ∙ ap (λ l. y.taken ++ (y.memory.responses ++ l)) p
        ∙ ap (λ l. y.taken ++ l) (sym (append-nil (y.memory.responses ++ out ∷ [])));
    requests_fit = h.requests_fit;
    responses_fit = ground (arith, length-append y.memory.responses (out ∷ []), room);
  }

  sent-IsOrdered :
      (first : S) (y : System S) (tested stops : Bool) (out : Envelope)
      → held y.position ≡ out ∷ []
      → IsOrdered first y
      → IsOrdered first (sent handle out (send_response tested stops out y.memory) y)
  unfolding send_response
  sent-IsOrdered first y false stops out p h =
      let move : (q : Position) → held q ≡ out ∷ [] → IsOrdered first (record y { position = q }) =
        λ q e. moved-IsOrdered first y q (p ∙ sym e) h in
      ground (arith, move (returned transport_closed (some out)) refl, move (sending true out) refl)
  sent-IsOrdered first y true stops out p h =
      let move : (q : Position) → held q ≡ out ∷ [] → IsOrdered first (record y { position = q }) =
        λ q e. moved-IsOrdered first y q (p ∙ sym e) h in
      ground (
        arith,
        move (returned context_done (some out)) refl,
        move (panicked (some out)) refl,
        move (sending true out) refl,
        sent_done first y out p,
        h,
      )

  pub at-IsOrdered :
      (first : S) (y : System S) (stops : Bool) (q : Position)
      → y.position ≡ q
      → IsOrdered first y
      → IsOrdered first (at_position handle stops q y)
  unfolding at_position receive_request
  at-IsOrdered first y stops receiving p h =
      received-IsOrdered first y stops y.memory.closed y.memory.requests p refl h
  at-IsOrdered first y stops (sending tested out) p h =
      sent-IsOrdered first y tested stops out (ap held p) h
  at-IsOrdered first y stops (returned e lost) p h = h
  at-IsOrdered first y stops (panicked lost) p h = h
