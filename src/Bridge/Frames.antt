-- ===== src/Bridge/Frames.antt =====
-- The frames of the connections of Bridge/Server, registration first, keep the invariant of Bridge/Opened.
use on_code.Prelude.{
  ℕ, ◌≡◌, refl, Bool, not, ◌&&◌, Bool-cases, Option, none, some, ◌∷◌, inl, inr, Bytes, codes, arith,
}
use on_code.Session.Hub.{Message}
use on_code.Bridge.Access.{Net}
use on_code.Bridge.Server.{
  Client, Handler, Bridge, Turn, has, without, find_client, remove_client, registered, write, enter,
  admit, register_frame, first_frame, reply, pass_on, next_frame, serve_found, serve_conn,
  client_id, untrack, track_client,
}
use on_code.Bridge.Clients.{waiting_kept, clients_kept, waiting_has, found_has}
use on_code.Bridge.Opened.{
  OpenedOn, Joined, IsGuarded, written_more, write-IsGuarded, hang_up-IsGuarded, fewer,
  refuse-IsGuarded,
}

module _ {S : Type 0} (net : Net) where
  enter-IsGuarded :
      (c : Client) (goes_out : Bool) (id : Bytes) (b : Bridge S)
      → OpenedOn net b c.socket
      → IsGuarded net b
      → IsGuarded net
          (enter c (write goes_out c.socket (registered id c.id b.agent_id) (track_client c b)))
  unfolding write
  enter-IsGuarded c goes_out id b o h =
      let w : ℕ × Message = (c.socket, registered id c.id b.agent_id) in
      let tracked = fewer net b.loops (c ∷ b.conns) b h.loops_joined (o, h.conns_opened) h in
      let done = written_more net (track_client c b) w o tracked in
      let b' : Bridge S = record b { conns = c ∷ b.conns; written = w ∷ b.written } in
      elim (Bool-cases (goes_out && not (has c.socket b.hung_up))) [
        | inl out ↦ rw out (
            fewer net (c ∷ b.loops) (c ∷ b.conns) b' ((o, inl (id, refl)), done.loops_joined)
              done.conns_opened done)
        | inr shut_off ↦ rw shut_off (
            hang_up-IsGuarded net c.socket (untrack c.socket (track_client c b)) (
              fewer net b.loops (remove_client c.socket (c ∷ b.conns)) b h.loops_joined
                (clients_kept (λ d. OpenedOn net b d.socket) c.socket (c ∷ b.conns)
                  (o, h.conns_opened))
                h))
      ]

  admit-IsGuarded :
      (n : ℕ) (turn : Turn) (msg : Message) (random : Option Bytes) (b : Bridge S)
      → OpenedOn net b n
      → IsGuarded net b
      → IsGuarded net (admit n turn msg random b)
  admit-IsGuarded n turn msg none b o h = refuse-IsGuarded net n turn _ _ _ b o h
  admit-IsGuarded n turn msg (some random) b o h =
      enter-IsGuarded (record { socket = n; id = client_id random }) turn.goes_out msg.message_id b
        o h

  first_frame-IsGuarded :
      (n : ℕ) (turn : Turn) (frame : Option Message) (b : Bridge S)
      → OpenedOn net b n
      → IsGuarded net b
      → IsGuarded net (first_frame n turn frame b)
  unfolding register_frame
  first_frame-IsGuarded n turn none b o h = refuse-IsGuarded net n turn _ _ _ b o h
  first_frame-IsGuarded n turn (some msg) b o h = ground (
    arith,
    refuse-IsGuarded net n turn msg.message_id (codes "UNSUPPORTED")
        (codes "first message must be ide.register") b o h,
    refuse-IsGuarded net n turn msg.message_id (codes "INVALID_REQUEST")
        (codes "data.ide is required") b o h,
    admit-IsGuarded n turn msg turn.random b o h,
  )

  reply-IsGuarded :
      (c : Client) (turn : Turn) (msg : Option Message) (b : Bridge S)
      → OpenedOn net b c.socket
      → IsGuarded net b
      → IsGuarded net (reply c turn msg b)
  reply-IsGuarded c turn none b o h = h
  reply-IsGuarded c turn (some msg) b o h = write-IsGuarded net turn.goes_out c.socket msg b o h

  handed_more :
      (c : Client) (msg : Message) (world : S) (b : Bridge S)
      → Joined net b c
      → IsGuarded net b
      → IsGuarded net (record b { handed = (c, msg) ∷ b.handed; world = world })
  handed_more c msg world b j h = record {
    waiting_opened = h.waiting_opened;
    loops_joined = h.loops_joined;
    conns_opened = h.conns_opened;
    written_opened = h.written_opened;
    handed_joined = (j, h.handed_joined);
  }

  pass_on-IsGuarded :
      (c : Client) (turn : Turn) (msg : Message) (handler : Option (Handler S)) (b : Bridge S)
      → Joined net b c
      → IsGuarded net b
      → IsGuarded net (pass_on c turn msg handler b)
  pass_on-IsGuarded c turn msg none b j h = h
  pass_on-IsGuarded c turn msg (some f) b j h =
      let answer = f c.id msg b.world in
      reply-IsGuarded c turn answer.0 _ j.0 (handed_more c msg answer.1 b j h)

  next_frame-IsGuarded :
      (c : Client) (turn : Turn) (frame : Option Message) (b : Bridge S)
      → Joined net b c
      → IsGuarded net b
      → IsGuarded net (next_frame c turn frame b)
  next_frame-IsGuarded c turn none b j h = hang_up-IsGuarded net c.socket _ (
      fewer net (remove_client c.socket b.loops) (remove_client c.socket b.conns) b
        (clients_kept (Joined net b) c.socket b.loops h.loops_joined)
        (clients_kept (λ d. OpenedOn net b d.socket) c.socket b.conns h.conns_opened) h)
  next_frame-IsGuarded c turn (some msg) b j h = pass_on-IsGuarded c turn msg b.handler b j h

  serve_found-IsGuarded :
      (n : ℕ) (turn : Turn) (c : Option Client) (b : Bridge S)
      → find_client n b.loops ≡ c
      → IsGuarded net b
      → IsGuarded net (serve_found turn c b)
  serve_found-IsGuarded n turn none b e h = h
  serve_found-IsGuarded n turn (some c) b e h =
      next_frame-IsGuarded c turn turn.frame b
        (found_has (Joined net b) n b.loops c h.loops_joined e) h

  waiting_less :
      (n : ℕ) (b : Bridge S)
      → IsGuarded net b
      → IsGuarded net (record b { waiting = without n b.waiting })
  waiting_less n b h = record {
    waiting_opened = waiting_kept (OpenedOn net b) n b.waiting h.waiting_opened;
    loops_joined = h.loops_joined;
    conns_opened = h.conns_opened;
    written_opened = h.written_opened;
    handed_joined = h.handed_joined;
  }

  pub serve_conn-IsGuarded :
      (n : ℕ) (turn : Turn) (b : Bridge S) → IsGuarded net b → IsGuarded net (serve_conn n turn b)
  unfolding serve_conn
  serve_conn-IsGuarded n turn b h = elim (Bool-cases (has n b.waiting)) [
    | inl first ↦ rw first (
        first_frame-IsGuarded n turn turn.frame _
          (waiting_has (OpenedOn net b) n b.waiting h.waiting_opened first) (waiting_less n b h))
    | inr later ↦ rw later (serve_found-IsGuarded n turn (find_client n b.loops) b refl h)
  ]
