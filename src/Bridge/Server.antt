-- ===== src/Bridge/Server.antt =====
-- bridge.go of local-agent/internal/idebridge/ behind the listener: the sockets, the registration of a
-- client, its frames, and the broadcast. A step is what a goroutine does between two reads of its socket.
use on_code.Prelude.{
  ℕ, suc, Bool, true, false, not, ◌&&◌, ◌||◌, Option, none, some, List, [], ◌∷◌, ◌++◌, Bytes, codes,
  ◌==◌, if◌then◌else◌, is_empty, bytes_eq,
}
use on_code.Prelude.Decimal.{ℤ, pos}
use on_code.Prelude.Space.{trim_space}
use on_code.Protocol.Ids.Hex
use on_code.Protocol.Json.{str, end, field, text_at}
use on_code.Session.Hub.{Message, fields_of, error_message}
use on_code.Bridge.Access.{Net, Request, Answer, switching, handle_ipc}

pub record Client : Type 0 where
  pub socket : ℕ
  pub id : Bytes

-- What a client's frame is given to: the identifier of the client, the frame, and the state that the
-- handler keeps. It may answer at once.
abbrev pub Handler : Type 0 → Type 0
Handler S = Bytes → Message → S → Option Message × S

pub record Endpoint : Type 0 where
  pub host : Bytes
  pub port : ℤ
  pub path : Bytes
  pub secret : Bytes

-- `Endpoint{}`
abbrev pub no_endpoint : Endpoint
no_endpoint = record { host = []; port = pos 0; path = []; secret = [] }

pub record Answered : Type 0 where
  pub at : ℕ
  pub request : Request
  pub answer : Answer

-- The fields of a Bridge, `serving` for its HTTP server and listener. `waiting` are the sockets whose first
-- frame is not read yet, `loops` the clients whose goroutine reads on, `hung_up` the sockets that the bridge
-- closed. The rest is what others see, the latest first: the answers to requests, the frames written to
-- sockets, and the frames the handler was called with.
pub record Bridge (S : Type 0) : Type 0 where
  pub bind : Bytes
  pub wanted_port : ℤ
  pub state_dir : Bytes
  pub agent_id : Bytes
  pub token : Bytes
  pub handler : Option (Handler S)
  pub started : Bool
  pub endpoint : Endpoint
  pub serving : Bool
  pub conns : List Client
  pub next : ℕ
  pub waiting : List ℕ
  pub loops : List Client
  pub hung_up : List ℕ
  pub answered : List Answered
  pub written : List (ℕ × Message)
  pub handed : List (Client × Message)
  pub world : S

-- A read of a socket: the frame, or an error; the random bytes, if they are asked for and there are some;
-- and whether what is written next goes out.
pub record Turn : Type 0 where
  pub frame : Option Message
  pub random : Option Bytes
  pub goes_out : Bool

unfoldable pub has : ℕ → List ℕ → Bool
has n [] = false
has n (m ∷ ms) = (m == n) || has n ms

unfoldable pub without : ℕ → List ℕ → List ℕ
without n [] = []
without n (m ∷ ms) = let rest = without n ms in if m == n then rest else m ∷ rest

unfoldable pub find_client : ℕ → List Client → Option Client
find_client n [] = none
find_client n (c ∷ cs) = if c.socket == n then some c else find_client n cs

-- `delete(b.conns, conn)`
unfoldable pub remove_client : ℕ → List Client → List Client
remove_client n [] = []
remove_client n (c ∷ cs) = let rest = remove_client n cs in if c.socket == n then rest else c ∷ rest

unfoldable pub sockets : List Client → List ℕ
sockets [] = []
sockets (c ∷ cs) = c.socket ∷ sockets cs

-- `newIDEClientID` on the random bytes
unfoldable pub client_id : Bytes → Bytes
client_id random = codes "ide-" ++ Hex.encode random

-- the frame ide.registered
abbrev pub registered : Bytes → Bytes → Bytes → Message
registered message_id client agent = record {
  kind = codes "ide.registered";
  message_id = message_id;
  body = some (field "ide_client_id" (str client) (field "agent_id" (str agent) end));
}

abbrev pub is_switching : Answer → Bool
is_switching switching = true
is_switching _ = false

pub data Step (S : Type 0) : Type 0 where
  arrives : Request → Step S
  reads : ℕ → Turn → Step S
  broadcasts : (ℕ → Bool) → Message → Step S
  sets : Handler S → Step S
  closes : Step S

module _ {S : Type 0} where
  -- a frame to a socket, which fails on one that is closed
  unfoldable pub write : Bool → ℕ → Message → Bridge S → Bool × Bridge S
  write goes_out n msg b =
      if goes_out && not (has n b.hung_up)
      then (true, record b { written = (n, msg) ∷ b.written })
      else (false, b)

  abbrev pub hang_up : ℕ → Bridge S → Bridge S
  hang_up n b = record b { hung_up = n ∷ b.hung_up }

  abbrev pub track_client : Client → Bridge S → Bridge S
  track_client c b = record b { conns = c ∷ b.conns }

  abbrev pub untrack : ℕ → Bridge S → Bridge S
  untrack n b = record b { conns = remove_client n b.conns }

  unfoldable pub refuse : ℕ → Turn → Bytes → Bytes → Bytes → Bridge S → Bridge S
  refuse n turn id code text b = hang_up n (write turn.goes_out n (error_message id code text) b).1

  -- behind the registered frame
  abbrev pub enter : Client → Bool × Bridge S → Bridge S
  enter c (true, b) = record b { loops = c ∷ b.loops }
  enter c (false, b) = hang_up c.socket (untrack c.socket b)

  abbrev pub admit : ℕ → Turn → Message → Option Bytes → Bridge S → Bridge S
  admit n turn msg none b =
      refuse n turn msg.message_id (codes "INVALID_REQUEST")
        (codes "failed to allocate ide_client_id") b
  admit n turn msg (some random) b =
      let c : Client = record { socket = n; id = client_id random } in
      enter c (write turn.goes_out n (registered msg.message_id c.id b.agent_id) (track_client c b))

  unfoldable pub register_frame : ℕ → Turn → Message → Bridge S → Bridge S
  register_frame n turn msg b =
      if not (bytes_eq msg.kind (codes "ide.register"))
      then refuse n turn msg.message_id (codes "UNSUPPORTED")
          (codes "first message must be ide.register") b
      else if is_empty (trim_space (text_at "ide" (fields_of msg.body)))
      then refuse n turn msg.message_id (codes "INVALID_REQUEST") (codes "data.ide is required") b
      else admit n turn msg turn.random b

  abbrev pub first_frame : ℕ → Turn → Option Message → Bridge S → Bridge S
  first_frame n turn none b =
      refuse n turn [] (codes "INVALID_REQUEST") (codes "expected ide.register") b
  first_frame n turn (some msg) b = register_frame n turn msg b

  abbrev pub reply : Client → Turn → Option Message → Bridge S → Bridge S
  reply c turn none b = b
  reply c turn (some msg) b = (write turn.goes_out c.socket msg b).1

  abbrev pub pass_on : Client → Turn → Message → Option (Handler S) → Bridge S → Bridge S
  pass_on c turn msg none b = b
  pass_on c turn msg (some h) b =
      let answer = h c.id msg b.world in
      reply c turn answer.0 (record b { handed = (c, msg) ∷ b.handed; world = answer.1 })

  abbrev pub leave : Client → Bridge S → Bridge S
  leave c b =
      hang_up c.socket (untrack c.socket (record b { loops = remove_client c.socket b.loops }))

  -- one round of the loop of `serveConn`
  abbrev pub next_frame : Client → Turn → Option Message → Bridge S → Bridge S
  next_frame c turn none b = leave c b
  next_frame c turn (some msg) b = pass_on c turn msg b.handler b

  abbrev pub serve_found : Turn → Option Client → Bridge S → Bridge S
  serve_found turn none b = b
  serve_found turn (some c) b = next_frame c turn turn.frame b

  -- `serveConn` at its next read of a socket
  unfoldable pub serve_conn : ℕ → Turn → Bridge S → Bridge S
  serve_conn n turn b =
      if has n b.waiting
      then first_frame n turn turn.frame (record b { waiting = without n b.waiting })
      else serve_found turn (find_client n b.loops) b

  unfoldable pub send_all : (ℕ → Bool) → Message → List Client → Bridge S → Bridge S
  send_all reaches msg [] b = b
  send_all reaches msg (c ∷ cs) b =
      send_all reaches msg cs (write (reaches c.socket) c.socket msg b).1

  unfoldable pub broadcast : (ℕ → Bool) → Message → Bridge S → Bridge S
  broadcast reaches msg b = send_all reaches msg b.conns b

  abbrev pub set_handler : Handler S → Bridge S → Bridge S
  set_handler h b = record b { handler = some h }

  -- `Close` without the file
  unfoldable pub shut : Bridge S → Bridge S
  shut b = record b {
    conns = [];
    serving = false;
    started = false;
    hung_up = sockets b.conns ++ b.hung_up;
  }

  -- a request on a new socket, which the server takes while it listens
  unfoldable pub arrive : Net → Request → Bridge S → Bridge S
  arrive net r b =
      let answer = handle_ipc net b.token r in
      if b.serving
      then record b {
        next = suc b.next;
        answered = record { at = b.next; request = r; answer = answer } ∷ b.answered;
        waiting = if is_switching answer then b.next ∷ b.waiting else b.waiting;
      }
      else b

  unfoldable pub step : Net → Step S → Bridge S → Bridge S
  step net (arrives r) b = arrive net r b
  step net (reads n turn) b = serve_conn n turn b
  step net (broadcasts reaches msg) b = broadcast reaches msg b
  step net (sets h) b = set_handler h b
  step net closes b = shut b

  -- the bridge behind some steps, in whatever order they come
  unfoldable pub run : Net → List (Step S) → Bridge S → Bridge S
  run net [] b = b
  run net (s ∷ ss) b = run net ss (step net s b)
