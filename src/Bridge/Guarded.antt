-- ===== src/Bridge/Guarded.antt =====
-- What the server of Bridge/Server lets through: the sockets that are written to, and the clients
-- whose frames the handler gets.
use on_code.Prelude.{
  ℕ, suc, ◌≡◌, refl, Bool, true, not, ◌&&◌, Bool-cases, List, [], ◌∷◌, inl, inr, arith, All,
  All-map,
}
use on_code.Session.Hub.{Message}
use on_code.Bridge.Access.{Net, Request, switching, switching-IsTrusted, handle_ipc}
use on_code.Bridge.Server.{
  Client, Answered, Bridge, Step, arrives, reads, broadcasts, sets, closes, has, is_switching,
  write, send_all, broadcast, shut, arrive, step, run,
}
use on_code.Bridge.Opened.{OpenedOn, IsGuarded, written_more, Opened, is_switching_eq}
use on_code.Bridge.Frames.{serve_conn-IsGuarded}

module _ {S : Type 0} (net : Net) where
  send_all-IsGuarded :
      (reaches : ℕ → Bool) (msg : Message) (cs : List Client) (b : Bridge S)
      → All (λ c. OpenedOn net b c.socket) cs
      → IsGuarded net b
      → IsGuarded net (send_all reaches msg cs b)
  unfolding send_all write
  send_all-IsGuarded reaches msg [] b o h = h
  send_all-IsGuarded reaches msg (c ∷ cs) b o h =
      elim (Bool-cases (reaches c.socket && not (has c.socket b.hung_up))) [
        | inl out ↦
            rw out
              (send_all-IsGuarded reaches msg cs _ o.1 (written_more net b (c.socket, msg) o.0 h))
        | inr shut_off ↦ rw shut_off (send_all-IsGuarded reaches msg cs b o.1 h)
      ]

  answered_more :
      (a : Answered) (waiting : List ℕ) (b : Bridge S)
      → All (λ n. Opened net b.token n (a ∷ b.answered)) waiting
      → IsGuarded net b
      → IsGuarded net (record b { next = suc b.next; answered = a ∷ b.answered; waiting = waiting })
  answered_more a waiting b w h = record {
    waiting_opened = w;
    loops_joined = All-map (λ c j. (inr j.0, j.1)) b.loops h.loops_joined;
    conns_opened = All-map (λ c o. inr o) b.conns h.conns_opened;
    written_opened = All-map (λ e o. inr o) b.written h.written_opened;
    handed_joined = All-map (λ e j. (inr j.0, j.1)) b.handed h.handed_joined;
  }

  arrive-IsGuarded : (r : Request) (b : Bridge S) → IsGuarded net b → IsGuarded net (arrive net r b)
  unfolding arrive
  arrive-IsGuarded r b h =
      let answer = handle_ipc net b.token r in
      let a : Answered = record { at = b.next; request = r; answer = answer } in
      let old : All (λ n. Opened net b.token n (a ∷ b.answered)) b.waiting =
        All-map (λ n o. inr o) b.waiting h.waiting_opened in
      let is_let_in : is_switching answer ≡ true → answer ≡ switching = is_switching_eq answer in
      let let_in : is_switching answer ≡ true
          → IsGuarded net (record b {
            next = suc b.next;
            answered = a ∷ b.answered;
            waiting = b.next ∷ b.waiting;
          }) =
        λ e.
          answered_more a (b.next ∷ b.waiting) b
            (inl (refl, is_let_in e, switching-IsTrusted net b.token r (is_let_in e)), old) h in
      ground (arith, let_in, answered_more a b.waiting b old h)

  step-IsGuarded : (s : Step S) (b : Bridge S) → IsGuarded net b → IsGuarded net (step net s b)
  unfolding step broadcast shut
  step-IsGuarded (arrives r) b h = arrive-IsGuarded r b h
  step-IsGuarded (reads n turn) b h = serve_conn-IsGuarded net n turn b h
  step-IsGuarded (broadcasts reaches msg) b h =
      send_all-IsGuarded reaches msg b.conns b h.conns_opened h
  step-IsGuarded (sets f) b h = record {
    waiting_opened = h.waiting_opened;
    loops_joined = h.loops_joined;
    conns_opened = h.conns_opened;
    written_opened = h.written_opened;
    handed_joined = h.handed_joined;
  }
  step-IsGuarded closes b h = record {
    waiting_opened = h.waiting_opened;
    loops_joined = h.loops_joined;
    conns_opened = tt;
    written_opened = h.written_opened;
    handed_joined = h.handed_joined;
  }

  -- Requests, frames, broadcasts, new handlers and a Close in any order keep this: every frame, a broadcast
  -- among them, is written to a socket whose request had the session's token and an allowed origin;
  -- and every frame that the handler gets is of a client on such a socket, to which ide.registered was
  -- written with the client's identifier.
  pub run-IsGuarded :
      (ss : List (Step S)) (b : Bridge S) → IsGuarded net b → IsGuarded net (run net ss b)
  unfolding run
  run-IsGuarded [] b h = h
  run-IsGuarded (s ∷ ss) b h = run-IsGuarded ss (step net s b) (step-IsGuarded s b h)
