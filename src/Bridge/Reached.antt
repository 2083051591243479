-- ===== src/Bridge/Reached.antt =====
-- The broadcast of the bridge of Bridge/Server, behind any steps.
use on_code.Prelude.{
  ℕ, ◌<◌, ◌≡◌, refl, sym, ap, ◌∙◌, Bool, true, false, Bool-cases, Option, none, some, inl, inr,
  List, [], ◌∷◌, ◌++◌, map, reverse, Bytes, codes, arith, All, append_assoc,
}
use mathlib.Core.List.{reverse-cons}
use on_code.Session.Hub.{Message}
use on_code.Bridge.Access.{Net}
use on_code.Bridge.Server.{
  Client, Handler, Bridge, Turn, Step, arrives, reads, broadcasts, sets, closes, has, without,
  find_client, registered, write, refuse, enter, admit, register_frame, first_frame, pass_on,
  next_frame, serve_found, serve_conn, send_all, broadcast, shut, arrive, step, run, track_client,
  client_id,
}
use on_code.Bridge.Clients.{open_clients, open_not_hung, waiting_has}
use on_code.Bridge.Tracked.{
  Held, IsTracked, refused-IsTracked, entered-IsTracked, left-IsTracked, waiting_less,
  dropped-IsTracked, shut-IsTracked, later-IsTracked, opened-IsTracked,
}

-- the frames of a broadcast, the latest first
abbrev pub to_each : Message → List Client → List (ℕ × Message)
to_each msg cs = reverse (map (λ c. (c.socket, msg)) cs)

module _ {S : Type 0} where
  abbrev pub held : Bridge S → Held
  held b = record {
    conns = b.conns;
    loops = b.loops;
    waiting = b.waiting;
    hung_up = b.hung_up;
    next = b.next;
  }

  held-write :
      (goes_out : Bool) (n : ℕ) (msg : Message) (b : Bridge S)
      → held (write goes_out n msg b).1 ≡ held b
  unfolding write
  held-write goes_out n msg b = ground arith

  held-send_all :
      (reaches : ℕ → Bool) (msg : Message) (cs : List Client) (b : Bridge S)
      → held (send_all reaches msg cs b) ≡ held b
  unfolding send_all
  held-send_all reaches msg [] b = refl
  held-send_all reaches msg (c ∷ cs) b =
      held-send_all reaches msg cs (write (reaches c.socket) c.socket msg b).1
      ∙ held-write (reaches c.socket) c.socket msg b

  refuse-IsTracked :
      (n : ℕ) (turn : Turn) (id code text : Bytes) (b : Bridge S)
      → find_client n b.loops ≡ none
      → IsTracked (held b)
      → IsTracked (held (refuse n turn id code text b))
  unfolding refuse write
  refuse-IsTracked n turn id code text b f h =
      let refused = refused-IsTracked n (held b) f h in ground (arith, refused)

  -- the bridge without the socket among those that wait
  abbrev woken : ℕ → Bridge S → Bridge S
  woken n b = record b { waiting = without n b.waiting }

  enter-IsTracked :
      (c : Client) (goes_out : Bool) (msg : Message) (b : Bridge S)
      → has c.socket b.waiting ≡ true
      → IsTracked (held b)
      → IsTracked (held (enter c (write goes_out c.socket msg (track_client c (woken c.socket b)))))
  unfolding write
  enter-IsTracked c goes_out msg b w h =
      let less = waiting_less c.socket (held b) h in
      let below = waiting_has (λ n. n < b.next) c.socket b.waiting h.waiting_below w in
      ground (
        arith,
        entered-IsTracked c (held b),
        below,
        h,
        dropped-IsTracked c (held (woken c.socket b)) less,
      )

  admit-IsTracked :
      (n : ℕ) (turn : Turn) (msg : Message) (random : Option Bytes) (b : Bridge S)
      → has n b.waiting ≡ true
      → IsTracked (held b)
      → IsTracked (held (admit n turn msg random (woken n b)))
  admit-IsTracked n turn msg none b w h =
      refuse-IsTracked n turn _ _ _ (woken n b)
        (waiting_has (λ m. find_client m b.loops ≡ none) n b.waiting h.waiting_free w)
        (waiting_less n (held b) h)
  admit-IsTracked n turn msg (some random) b w h =
      let c : Client = record { socket = n; id = client_id random } in
      enter-IsTracked c turn.goes_out (registered msg.message_id c.id b.agent_id) b w h

  first_frame-IsTracked :
      (n : ℕ) (turn : Turn) (frame : Option Message) (b : Bridge S)
      → has n b.waiting ≡ true
      → IsTracked (held b)
      → IsTracked (held (first_frame n turn frame (woken n b)))
  unfolding register_frame
  first_frame-IsTracked n turn frame b w h =
      let free = waiting_has (λ m. find_client m b.loops ≡ none) n b.waiting h.waiting_free w in
      let refused : (id code text : Bytes)
          → IsTracked (held (refuse n turn id code text (woken n b))) =
        λ id code text.
          refuse-IsTracked n turn id code text (woken n b) free (waiting_less n (held b) h) in
      elim frame as (λ f. IsTracked (held (first_frame n turn f (woken n b)))) [
        | none ↦ refused [] (codes "INVALID_REQUEST") (codes "expected ide.register")
        | some msg ↦ ground (
          arith,
          refused msg.message_id (codes "UNSUPPORTED") (codes "first message must be ide.register"),
          refused msg.message_id (codes "INVALID_REQUEST") (codes "data.ide is required"),
          admit-IsTracked n turn msg turn.random b w h,
        )
      ]

  pass_on-IsTracked :
      (c : Client) (turn : Turn) (msg : Message) (handler : Option (Handler S)) (b : Bridge S)
      → held (pass_on c turn msg handler b) ≡ held b
  unfolding write
  pass_on-IsTracked c turn msg none b = refl
  pass_on-IsTracked c turn msg (some f) b = ground arith

  next_frame-IsTracked :
      (c : Client) (turn : Turn) (frame : Option Message) (b : Bridge S)
      → IsTracked (held b)
      → IsTracked (held (next_frame c turn frame b))
  next_frame-IsTracked c turn none b h = left-IsTracked c.socket (held b) h
  next_frame-IsTracked c turn (some msg) b h = rw (pass_on-IsTracked c turn msg b.handler b) h

  serve_found-IsTracked :
      (turn : Turn) (c : Option Client) (b : Bridge S)
      → IsTracked (held b)
      → IsTracked (held (serve_found turn c b))
  serve_found-IsTracked turn none b h = h
  serve_found-IsTracked turn (some c) b h = next_frame-IsTracked c turn turn.frame b h

  serve_conn-IsTracked :
      (n : ℕ) (turn : Turn) (b : Bridge S)
      → IsTracked (held b)
      → IsTracked (held (serve_conn n turn b))
  unfolding serve_conn
  serve_conn-IsTracked n turn b h = elim (Bool-cases (has n b.waiting)) [
    | inl first ↦ rw first (first_frame-IsTracked n turn turn.frame b first h)
    | inr later ↦ rw later (serve_found-IsTracked turn (find_client n b.loops) b h)
  ]

  step-IsTracked :
      (net : Net) (s : Step S) (b : Bridge S) → IsTracked (held b) → IsTracked (held (step net s b))
  unfolding step broadcast shut arrive
  step-IsTracked net (arrives r) b h =
      let new = opened-IsTracked (held b) h in
      let later = later-IsTracked (held b) h in ground (arith, new, later, h)
  step-IsTracked net (reads n turn) b h = serve_conn-IsTracked n turn b h
  step-IsTracked net (broadcasts reaches msg) b h = rw (held-send_all reaches msg b.conns b) h
  step-IsTracked net (sets f) b h = h
  step-IsTracked net closes b h = shut-IsTracked (held b) h

  run-IsTracked :
      (net : Net) (ss : List (Step S)) (b : Bridge S)
      → IsTracked (held b)
      → IsTracked (held (run net ss b))
  unfolding run
  run-IsTracked net [] b h = h
  run-IsTracked net (s ∷ ss) b h = run-IsTracked net ss (step net s b) (step-IsTracked net s b h)

  written_out :
      (n : ℕ) (msg : Message) (b : Bridge S)
      → has n b.hung_up ≡ false
      → (write true n msg b).1 ≡ record b { written = (n, msg) ∷ b.written }
  unfolding write
  written_out n msg b h = ground (arith, h)

  written-send_all :
      (msg : Message) (cs : List Client) (b : Bridge S)
      → All (λ c. has c.socket b.hung_up ≡ false) cs
      → (send_all (λ n. true) msg cs b).written ≡ to_each msg cs ++ b.written
  unfolding send_all
  written-send_all msg [] b h = refl
  written-send_all msg (c ∷ cs) b h =
      ap (λ out. (send_all (λ n. true) msg cs out).written) (written_out c.socket msg b h.0)
      ∙ written-send_all msg cs (record b { written = (c.socket, msg) ∷ b.written }) h.1
      ∙ sym (append_assoc (to_each msg cs) ((c.socket, msg) ∷ []) b.written)
      ∙ ap (λ l. l ++ b.written)
          (sym (reverse-cons (c.socket, msg) (map (λ d. (d.socket, msg)) cs)))

  -- Behind requests, frames, broadcasts, new handlers and a Close in any order, a broadcast that is let
  -- out is written once to each client whose goroutine reads on and whose socket the bridge did not
  -- close, and to nobody else.
  pub broadcast-reaches :
      (net : Net) (ss : List (Step S)) (b : Bridge S) (msg : Message)
      → IsTracked (held b)
      → let b' : Bridge S = run net ss b in
        (broadcast (λ n. true) msg b').written
        ≡ to_each msg (open_clients b'.hung_up b'.loops) ++ b'.written
  unfolding broadcast
  broadcast-reaches net ss b msg h =
      let b' : Bridge S = run net ss b in
      let tracked : b'.conns ≡ open_clients b'.hung_up b'.loops =
        (run-IsTracked net ss b h).conns_open in
      rw⁻¹ tracked
        (written-send_all msg b'.conns b' (rw tracked (open_not_hung b'.hung_up b'.loops)))
