-- ===== src/Transport/Ordered.antt =====
-- The order of the answers of Transport/Memory.
use on_code.Prelude.{
  ◌≡◌, refl, sym, ap, ◌∙◌, Bool, true, false, List, [], ◌∷◌, ◌++◌, arith, ltb, if◌then◌else◌,
  length, length-append, append_assoc,
}
use on_code.Protocol.Messages.{Envelope}
use on_code.Transport.Memory.{
  Handler, System, Step, injects, takes, closes, loops, read_fails, context_done, read_from,
  next_response, inject_request, loop, put_in, taken_out, step, run, panicked, in_hand,
}
use on_code.Transport.Rounds.{held, IsOrdered, moved-IsOrdered, at-IsOrdered}

module _ {S : Type 0} (handle : Handler S) where
  injected-IsOrdered :
      (first : S) (y : System S) (tested stops : Bool) (env : Envelope)
      → IsOrdered handle first y
      → IsOrdered handle first (put_in handle env (inject_request tested stops env y.memory) y)
  unfolding inject_request
  injected-IsOrdered first y false stops env h = ground (arith, h)
  injected-IsOrdered first y true stops env h =
      let more : ltb (length y.memory.requests) y.memory.capacity ≡ true
          → IsOrdered handle first (record y {
            memory = record y.memory { requests = y.memory.requests ++ env ∷ [] };
            injected = y.injected ++ env ∷ [];
          }) =
        λ room. record {
          in_order =
              ap (λ l. l ++ env ∷ []) h.in_order
              ∙ append_assoc y.received y.memory.requests (env ∷ []);
          same_world = h.same_world;
          all_answered = h.all_answered;
          requests_fit = ground (arith, length-append y.memory.requests (env ∷ []), room);
          responses_fit = h.responses_fit;
        } in
      let crash = moved-IsOrdered handle first y (panicked (in_hand y.position)) refl h in
      ground (arith, more, crash, h)

  taken-IsOrdered :
      (first : S) (y : System S) (stops closed : Bool) (queue : List Envelope)
      → y.memory.responses ≡ queue
      → IsOrdered handle first y
      → let (out, rest) = read_from closed queue in
        IsOrdered handle first (
          taken_out handle
            (if stops
              then (read_fails context_done, y.memory)
              else (out, record y.memory { responses = rest }))
            y)
  taken-IsOrdered first y true closed queue q h = h
  taken-IsOrdered first y false true [] q h = h
  taken-IsOrdered first y false false [] q h = h
  taken-IsOrdered first y false closed (r ∷ rest) q h = record {
    in_order = h.in_order;
    same_world = h.same_world;
    all_answered =
        h.all_answered
        ∙ ap (λ l. y.taken ++ (l ++ held y.position)) q
        ∙ sym (append_assoc y.taken (r ∷ []) (rest ++ held y.position));
    requests_fit = h.requests_fit;
    responses_fit = ground (arith, h.responses_fit, q);
  }

  step-IsOrdered :
      (first : S) (s : Step) (y : System S)
      → IsOrdered handle first y
      → IsOrdered handle first (step handle s y)
  unfolding step loop next_response
  step-IsOrdered first (injects tested stops env) y h =
      injected-IsOrdered first y tested stops env h
  step-IsOrdered first (takes stops) y h =
      taken-IsOrdered first y stops y.memory.closed y.memory.responses refl h
  step-IsOrdered first closes y h = record {
    in_order = h.in_order;
    same_world = h.same_world;
    all_answered = h.all_answered;
    requests_fit = h.requests_fit;
    responses_fit = h.responses_fit;
  }
  step-IsOrdered first (loops stops) y h = at-IsOrdered handle first y stops y.position refl h

  -- Injections, the loop's own steps, the taking of responses and a Close in any order, also between the test of
  -- closed in a write and the write itself, and contexts that end at any call, keep this: the loop receives the requests in the order in which they were put in,
  -- the responses are the handler's answers to those it received, in that order and each once, taken
  -- out, in the buffer, or held by the loop, and no buffer is over its capacity.
  pub run-IsOrdered :
      (first : S) (ss : List Step) (y : System S)
      → IsOrdered handle first y
      → IsOrdered handle first (run handle ss y)
  unfolding run
  run-IsOrdered first [] y h = h
  run-IsOrdered first (s ∷ ss) y h =
      run-IsOrdered first ss (step handle s y) (step-IsOrdered first s y h)
