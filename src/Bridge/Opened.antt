-- ===== src/Bridge/Opened.antt =====
-- What holds of the sockets of a bridge that are written to, and of the clients whose frames its handler gets.
use on_code.Prelude.{
  ℕ, ◌≡◌, refl, Bool, true, List, [], ◌∷◌, ◌⊎◌, inr, some, Bytes, codes, arith, All, All-map,
}
use on_code.Protocol.Json.{str, end, field}
use on_code.Session.Hub.{Message, error_message}
use on_code.Bridge.Access.{
  Net, Answer, switching, method_not_allowed, forbidden, unauthorized, bad_handshake, IsTrusted,
}
use on_code.Bridge.Server.{Client, Answered, Bridge, Turn, is_switching, write, refuse, hang_up}

-- The request that a socket was opened by, among the answers.
abbrev pub Opened : Net → Bytes → ℕ → List Answered → Type 0
Opened net token n [] = ⊥
Opened net token n (a ∷ log) =
    ((a.at ≡ n) × (a.answer ≡ switching) × IsTrusted net token a.request) ⊎ Opened net token n log

-- The frame ide.registered with the identifiers of a client and of the agent, among those written.
abbrev pub Registered : Bytes → Client → List (ℕ × Message) → Type 0
Registered agent c [] = ⊥
Registered agent c (w ∷ ws) =
    ((id : Bytes) × (w ≡ (
      c.socket,
      record {
        kind = codes "ide.registered";
        message_id = id;
        body = some (field "ide_client_id" (str c.id) (field "agent_id" (str agent) end));
      },
    )))
    ⊎ Registered agent c ws

pub is_switching_eq : (a : Answer) → is_switching a ≡ true → a ≡ switching
is_switching_eq switching e = refl
is_switching_eq method_not_allowed e = cc
is_switching_eq forbidden e = cc
is_switching_eq unauthorized e = cc
is_switching_eq bad_handshake e = cc

module _ {S : Type 0} (net : Net) where
  abbrev pub OpenedOn : Bridge S → ℕ → Type 0
  OpenedOn b n = Opened net b.token n b.answered

  abbrev pub Joined : Bridge S → Client → Type 0
  Joined b c = OpenedOn b c.socket × Registered b.agent_id c b.written

  abbrev pub WrittenWell : Bridge S → ℕ × Message → Type 0
  WrittenWell b w = OpenedOn b w.0

  abbrev pub HandedWell : Bridge S → Client × Message → Type 0
  HandedWell b h = Joined b h.0

  -- Every frame goes to a socket that was opened by a trusted request, and every frame that the handler
  -- gets is of a client that registered on such a socket.
  pub record IsGuarded (b : Bridge S) : Type 0 where
    pub waiting_opened : All (OpenedOn b) b.waiting
    pub loops_joined : All (Joined b) b.loops
    pub conns_opened : All (λ c. OpenedOn b c.socket) b.conns
    pub written_opened : All (WrittenWell b) b.written
    pub handed_joined : All (HandedWell b) b.handed

  pub written_more :
      (b : Bridge S) (w : ℕ × Message)
      → OpenedOn b w.0
      → IsGuarded b
      → IsGuarded (record b { written = w ∷ b.written })
  written_more b w o h =
      let more : (c : Client)
          → Joined b c
          → OpenedOn b c.socket × Registered b.agent_id c (w ∷ b.written) =
        λ c j. (j.0, inr j.1) in
      record {
        waiting_opened = h.waiting_opened;
        loops_joined = All-map more b.loops h.loops_joined;
        conns_opened = h.conns_opened;
        written_opened = (o, h.written_opened);
        handed_joined = All-map (λ e. more e.0) b.handed h.handed_joined;
      }

  pub write-IsGuarded :
      (goes_out : Bool) (n : ℕ) (msg : Message) (b : Bridge S)
      → OpenedOn b n
      → IsGuarded b
      → IsGuarded (write goes_out n msg b).1
  unfolding write
  write-IsGuarded goes_out n msg b o h = ground (arith, written_more b (n, msg) o h)

  pub hang_up-IsGuarded : (n : ℕ) (b : Bridge S) → IsGuarded b → IsGuarded (hang_up n b)
  hang_up-IsGuarded n b h = record {
    waiting_opened = h.waiting_opened;
    loops_joined = h.loops_joined;
    conns_opened = h.conns_opened;
    written_opened = h.written_opened;
    handed_joined = h.handed_joined;
  }

  -- the clients that are held may become fewer
  pub fewer :
      (loops conns : List Client) (b : Bridge S)
      → All (Joined b) loops
      → All (λ c. OpenedOn b c.socket) conns
      → IsGuarded b
      → IsGuarded (record b { loops = loops; conns = conns })
  fewer loops conns b l k h = record {
    waiting_opened = h.waiting_opened;
    loops_joined = l;
    conns_opened = k;
    written_opened = h.written_opened;
    handed_joined = h.handed_joined;
  }

  pub refuse-IsGuarded :
      (n : ℕ) (turn : Turn) (id code text : Bytes) (b : Bridge S)
      → OpenedOn b n
      → IsGuarded b
      → IsGuarded (refuse n turn id code text b)
  unfolding refuse
  refuse-IsGuarded n turn id code text b o h =
      let msg = error_message id code text in
      hang_up-IsGuarded n (write turn.goes_out n msg b).1
        (write-IsGuarded turn.goes_out n msg b o h)
