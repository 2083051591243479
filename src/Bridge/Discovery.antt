-- ===== src/Bridge/Discovery.antt =====
-- endpoint.go of local-agent/internal/idebridge/ and, in its bridge.go, New, Start, Endpoint and Close. The
-- listener of package net, the random bytes and package encoding/json are parameters.
use on_code.Prelude.{
  ℕ, ◌≡◌, Bool, true, false, not, ◌||◌, Option, none, some, [], ◌∷◌, ◌++◌, Bytes, codes, Result, ok,
  err, ◌>>=◌, ◌>>◌, ensure, leb, ◌==◌, if◌then◌else◌, is_empty,
}
use on_code.Prelude.Decimal.{ℤ, pos, negsuc}
use on_code.Prelude.Paths.{clean, render}
use on_code.Protocol.Ids.Hex
use on_code.Workspace.Disk.{Disk, Read, contents, gone, unreadable}
use on_code.Bridge.Access.{Net, BindError, validate_bind}
use on_code.Bridge.Server.{Endpoint, Handler, Bridge, no_endpoint, shut}

pub data BridgeError : Type 0 where
  bad_bind : BindError → BridgeError
  bad_port no_state_dir no_agent_id no_random : BridgeError
  already_started no_listener remote_listener not_encoded not_written not_listening : BridgeError
  no_file no_json incomplete : BridgeError

pub record Options (S : Type 0) : Type 0 where
  pub bind : Bytes
  pub port : ℤ
  pub state_dir : Bytes
  pub agent_id : Bytes
  pub handler : Option (Handler S)

-- A listener of net.Listen: whether its address is a loopback IP, and its port.
pub record Listener : Type 0 where
  pub on_loopback : Bool
  pub port : ℕ

abbrev pub port_allowed : ℤ → Bool
port_allowed (pos n) = leb n 65535
port_allowed (negsuc n) = false

abbrev pub is_positive : ℤ → Bool
is_positive (pos n) = not (n == 0)
is_positive (negsuc n) = false

abbrev pub is_zero : ℤ → Bool
is_zero (pos n) = n == 0
is_zero (negsuc n) = false

abbrev pub bind_checked : Result BindError (Unit {0}) → Result BridgeError (Unit {0})
bind_checked (ok u) = ok tt
bind_checked (err e) = err (bad_bind e)

-- `newToken` on what rand.Read gives
abbrev pub new_token : Option Bytes → Result BridgeError Bytes
new_token none = err no_random
new_token (some random) = ok (Hex.encode random)

abbrev pub fresh_bridge : {S : Type 0} → S → Options S → Bytes → Bridge S
fresh_bridge world o token = record {
  bind = o.bind;
  wanted_port = o.port;
  state_dir = o.state_dir;
  agent_id = o.agent_id;
  token = token;
  handler = o.handler;
  started = false;
  endpoint = no_endpoint;
  serving = false;
  conns = [];
  next = 0;
  waiting = [];
  loops = [];
  hung_up = [];
  answered = [];
  written = [];
  handed = [];
  world = world;
}

-- `New`; the world is the handler's
unfoldable pub new_bridge :
    {S : Type 0} → Net → S → Option Bytes → Options S → Result BridgeError (Bridge S)
new_bridge net world random o = do
  bind_checked (validate_bind net o.bind)
  ensure (port_allowed o.port) bad_port
  ensure (not (is_empty o.state_dir)) no_state_dir
  ensure (not (is_empty o.agent_id)) no_agent_id
  token ← new_token random
  ok (fresh_bridge world o token)

-- `Endpoint` of a bridge
unfoldable pub get_endpoint : {S : Type 0} → Bridge S → Result BridgeError Endpoint
get_endpoint b =
    if not b.started || is_zero b.endpoint.port then err not_listening else ok b.endpoint

abbrev file_name : Bytes
file_name = codes "ide-ipc.json"

-- `filepath.Join`, which leaves out an empty element
unfoldable pub endpoint_path : Bytes → Bytes
endpoint_path dir = if is_empty dir then file_name else render (clean (dir ++ b'/' ∷ file_name))

-- The reads of a disk give back what was written to the same path.
abbrev pub ReadsBack : Disk → Type 0
ReadsBack D =
    (s : D.State) (p text : Bytes)
    → (D.write s p text).0 ≡ true
    → D.read (D.write s p text).1 p ≡ contents text

module _ (D : Disk) (encode : Endpoint → Option Bytes) (decode : Bytes → Option Endpoint) where
  abbrev pub stored : Bytes → Bool × D.State → Result BridgeError (Unit {0}) × D.State
  stored path (true, s) = (ok tt, s)
  stored path (false, s) = (err not_written, (D.remove s path).1)

  abbrev pub save : Bytes → Option Bytes → D.State → Result BridgeError (Unit {0}) × D.State
  save path none s = (err not_encoded, s)
  save path (some raw) s = stored path (D.write s path raw)

  unfoldable pub write_endpoint :
      Bytes → Endpoint → D.State → Result BridgeError (Unit {0}) × D.State
  unfolding endpoint_path
  write_endpoint dir ep s =
      if is_empty dir then (err no_state_dir, s) else save (endpoint_path dir) (encode ep) s

  unfoldable pub remove_endpoint : Bytes → D.State → D.State
  unfolding endpoint_path
  remove_endpoint dir s = if is_empty dir then s else (D.remove s (endpoint_path dir)).1

  unfoldable pub check_endpoint : Option Endpoint → Result BridgeError Endpoint
  check_endpoint none = err no_json
  check_endpoint (some ep) =
      if is_empty ep.host || not (is_positive ep.port) || is_empty ep.path || is_empty ep.secret
      then err incomplete
      else ok ep

  unfoldable pub read_text : Read → Result BridgeError Endpoint
  unfolding check_endpoint
  read_text (contents raw) = check_endpoint (decode raw)
  read_text gone = err no_file
  read_text unreadable = err no_file

  unfoldable pub read_endpoint : Bytes → D.State → Result BridgeError Endpoint
  unfolding endpoint_path read_text
  read_endpoint dir s = read_text (D.read s (endpoint_path dir))

  module _ {S : Type 0} where
    -- the endpoint that `Start` writes
    abbrev pub endpoint_of : Bridge S → Listener → Endpoint
    endpoint_of b l = record {
      host = b.bind;
      port = pos l.port;
      path = codes "/ipc";
      secret = b.token;
    }

    abbrev pub started_with :
        Bridge S
        → Endpoint
        → Result BridgeError (Unit {0}) × D.State
        → Result BridgeError (Bridge S) × D.State
    started_with b ep (ok u, s) =
        (ok (record b { started = true; serving = true; endpoint = ep }), s)
    started_with b ep (err e, s) = (err e, s)

    unfoldable pub listened :
        Bridge S → D.State → Option Listener → Result BridgeError (Bridge S) × D.State
    unfolding write_endpoint
    listened b s none = (err no_listener, s)
    listened b s (some l) =
        if l.on_loopback
        then started_with b (endpoint_of b l) (write_endpoint b.state_dir (endpoint_of b l) s)
        else (err remote_listener, s)

    -- `Start`, up to the goroutines; an error leaves the bridge as it was
    unfoldable pub start :
        (Bytes → ℤ → Option Listener) → Bridge S → D.State → Result BridgeError (Bridge S) × D.State
    unfolding listened
    start listen b s =
        if b.started then (err already_started, s) else listened b s (listen b.bind b.wanted_port)

    -- `Close`
    unfoldable pub close : Bridge S → D.State → Bridge S × D.State
    unfolding shut remove_endpoint
    close b s = (shut b, remove_endpoint b.state_dir s)
