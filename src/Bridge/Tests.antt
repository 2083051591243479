-- ===== src/Bridge/Tests.antt =====
-- Examples of the bridge (local-agent/internal/idebridge/).
use on_code.Prelude.{
  ◌≡◌, refl, Bool, true, false, ◌&&◌, ◌==◌, ==_iff, ap, Option, none, some, List, [], ◌∷◌, Bytes,
  codes, arith, ok, bytes_eq, bytes_eq→eq, has_prefix, split, if◌then◌else◌, length, ◌++◌,
}
use on_code.Prelude.Decimal.{ℤ, pos, negsuc}
use on_code.Protocol.Ids.Hex
use on_code.Prelude.Paths.{clean, render}
use on_code.Prelude.Space.{trim_space}
use on_code.Protocol.Json.{lookup, str, end, field}
use on_code.Session.Hub.{Message}
use on_code.Workspace.Disk.Memory.{memory, insert, written_same, Files}
use on_code.Bridge.Access.{
  Net, Request, validate_bind, handle_ipc, switching, forbidden, unauthorized, method_not_allowed,
}
use on_code.Bridge.Server.{
  Endpoint, Bridge, Turn, Step, arrives, reads, closes, run, step, broadcast, serve_conn, has,
  arrive, register_frame, write, without, find_client, shut, sockets,
}
use on_code.Bridge.Clients.{open_clients}
use on_code.Bridge.Opened.{IsGuarded}
use on_code.Bridge.Guarded.{run-IsGuarded}
use on_code.Bridge.Tracked.{IsTracked}
use on_code.Bridge.Reached.{held, to_each, broadcast-reaches}
use on_code.Bridge.Discovery.{Options, Listener, ReadsBack, fresh_bridge, new_bridge, start}
use on_code.Bridge.Published.{Decodes, IsPublished, start-IsPublished}

-- every text is a URL of the scheme https with itself as its host, and an address is on loopback if it is 127.0.0.1
abbrev net : Net
net = record {
  parse_url = λ s. some (codes "https", s);
  loopback = λ s. some (bytes_eq s (codes "127.0.0.1"));
  to_lower = λ s. s;
}

abbrev options : Options Bytes
options = record {
  bind = codes "127.0.0.1";
  port = pos 0;
  state_dir = codes "/state";
  agent_id = codes "agent-1";
  handler = some (λ id msg w. (some msg, msg.kind));
}

-- a bridge that listens, with the token "2a"
abbrev listening : Bridge Bytes
listening = record (fresh_bridge [] options (codes "2a")) { started = true; serving = true }

abbrev request : Request
request = record {
  method = codes "GET";
  origin = codes "localhost";
  query_token = [];
  authorization = codes "Bearer 2a";
  upgradable = true;
}

abbrev frame : Bytes → Turn
frame kind = record {
  frame = some (record {
    kind = kind;
    message_id = codes "1";
    body = some (field "ide" (str (codes "code")) end);
  });
  random = some (42 ∷ []);
  goes_out = true;
}

abbrev registers : Step Bytes
registers = reads 0 (frame (codes "ide.register"))

abbrev chats : Step Bytes
chats = reads 0 (frame (codes "chat"))

abbrev session : List (Step Bytes)
session =
    arrives request
    ∷ arrives (record request { origin = codes "evil" })
    ∷ registers
    ∷ chats
    ∷ reads 1 (frame (codes "ide.register"))
    ∷ []

listening-IsGuarded : IsGuarded net listening
listening-IsGuarded = record {
  waiting_opened = tt;
  loops_joined = tt;
  conns_opened = tt;
  written_opened = tt;
  handed_joined = tt;
}

run-IsGuarded_example : IsGuarded net (run net session listening)
run-IsGuarded_example = run-IsGuarded net session listening listening-IsGuarded

abbrev note : Message
note = record { kind = codes "progress"; message_id = []; body = none }

listening-IsTracked : IsTracked (held listening)
unfolding open_clients
listening-IsTracked = record {
  conns_open = refl;
  waiting_free = tt;
  waiting_below = tt;
  loops_below = tt;
}

broadcast-reaches_example :
    let b : Bridge Bytes = run net session listening in
    (broadcast (λ n. true) note b).written
    ≡ to_each note (open_clients b.hung_up b.loops) ++ b.written
broadcast-reaches_example = broadcast-reaches net session listening note listening-IsTracked

-- The second request is refused; the frame of the first one's socket is handed on, its registration is not.
session_test :
    (length (run net session listening).handed ≡ 1)
    × (length (run net session listening).written ≡ 2)
    × ((run net session listening).world ≡ codes "chat")
unfolding run step serve_conn has arrive handle_ipc bytes_eq trim_space has_prefix register_frame
    lookup write without find_client
session_test = (refl, refl, refl)

-- A socket that was let in before a Close and registers behind it is served on.
late_test :
    length (run net (arrives request ∷ closes ∷ registers ∷ chats ∷ []) listening).handed ≡ 1
unfolding run step serve_conn has arrive handle_ipc bytes_eq trim_space has_prefix register_frame
    lookup write without find_client shut sockets
late_test = refl

answers_test :
    (handle_ipc net (codes "2a") request ≡ switching)
    × (handle_ipc net (codes "2a") (record request { method = codes "POST" }) ≡ method_not_allowed)
    × (handle_ipc net (codes "2a") (record request { origin = codes "evil" }) ≡ forbidden)
    × (handle_ipc net (codes "2b") request ≡ unauthorized)
    × (handle_ipc net [] (record request { authorization = [] }) ≡ unauthorized)
unfolding handle_ipc bytes_eq trim_space has_prefix
answers_test = (refl, refl, refl, refl, refl)

abbrev the_endpoint : Endpoint
the_endpoint = record {
  host = codes "127.0.0.1";
  port = pos 4711;
  path = codes "/ipc";
  secret = codes "2a";
}

abbrev is_port : ℤ → Bool
is_port (pos n) = n == 4711
is_port (negsuc n) = false

-- a codec of one endpoint
abbrev encode : Endpoint → Option Bytes
encode ep =
    if bytes_eq ep.host (codes "127.0.0.1")
      && is_port ep.port
      && bytes_eq ep.path (codes "/ipc")
      && bytes_eq ep.secret (codes "2a")
    then some (codes "e")
    else none

abbrev decode : Bytes → Option Endpoint
decode raw = if bytes_eq raw (codes "e") then some the_endpoint else none

abbrev listen : Bytes → ℤ → Option Listener
listen host port = some (record { on_loopback = true; port = 4711 })

abbrev made : Bridge Bytes
made = fresh_bridge [] options (codes "2a")

abbrev begun : Bridge Bytes
begun = record made { started = true; serving = true; endpoint = the_endpoint }

abbrev begun_files : Files
begun_files = (codes "/state/ide-ipc.json", codes "e") ∷ []

is_port_eq : (p : ℤ) → is_port p ≡ true → p ≡ pos 4711
is_port_eq (pos n) h = ap (λ k. pos k) ((==_iff n 4711).0 h)
is_port_eq (negsuc n) h = cc

endpoint_eq :
    (ep : Endpoint) (raw : Bytes) → encode ep ≡ some raw → (ep ≡ the_endpoint) × (raw ≡ codes "e")
endpoint_eq ep raw h = ground (
  arith,
  h,
  bytes_eq→eq ep.host (codes "127.0.0.1"),
  bytes_eq→eq ep.path (codes "/ipc"),
  bytes_eq→eq ep.secret (codes "2a"),
  is_port_eq ep.port,
)

encode-Decodes : Decodes memory encode decode
unfolding bytes_eq
encode-Decodes ep raw h = let (e, r) = endpoint_eq ep raw h in rw (r, e) refl

memory-ReadsBack : ReadsBack memory
memory-ReadsBack s p text h = rw (written_same p text s) refl

made_eq : new_bridge net [] (some (42 ∷ [])) options ≡ ok made
unfolding new_bridge validate_bind trim_space bytes_eq Hex.encode
made_eq = refl

begun_eq : start memory encode decode listen made [] ≡ (ok begun, begun_files)
unfolding start bytes_eq insert render clean split
begun_eq = refl

start-IsPublished_example :
    IsPublished memory encode decode listen (42 ∷ []) options begun begun_files
start-IsPublished_example =
    start-IsPublished memory encode decode net listen [] (42 ∷ []) options made begun [] begun_files
      encode-Decodes memory-ReadsBack (λ host p l e. ground (arith, e)) refl made_eq begun_eq
