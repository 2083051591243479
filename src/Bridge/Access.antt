-- ===== src/Bridge/Access.antt =====
-- origin.go and bind.go of local-agent/internal/idebridge/, and in bridge.go the tests of handleIPC before
-- it upgrades a request. Packages net and net/url are a parameter.
use on_code.Prelude.{
  is_empty, ◌≡◌, arith, bytes_eq→eq, Bool, true, false, not, ◌||◌, Option, none, some, Bytes, codes,
  Result, ok, err, ◌==◌, if◌then◌else◌, bytes_eq, has_prefix, length, drop,
}
use on_code.Prelude.Space.{trim_space}

-- `parse_url` is url.Parse with the scheme and Hostname of its result, `loopback` is net.ParseIP with
-- IsLoopback of its result, and `to_lower` is strings.ToLower.
pub record Net : Type 0 where
  pub parse_url : Bytes → Option (Bytes × Bytes)
  pub loopback : Bytes → Option Bool
  pub to_lower : Bytes → Bytes

-- A request: its method, the header Origin, the value of token in the query, the header
-- Authorization, and whether websocket.Upgrader can upgrade it once its origin is allowed.
pub record Request : Type 0 where
  pub method : Bytes
  pub origin : Bytes
  pub query_token : Bytes
  pub authorization : Bytes
  pub upgradable : Bool

-- What the server answers a request with: 405, 403, 401, what Upgrade answers in an error, or 101.
pub data Answer : Type 0 where
  method_not_allowed forbidden unauthorized bad_handshake switching : Answer

pub data BindError : Type 0 where
  empty_bind no_address no_loopback : BindError

abbrev pub is_true : Option Bool → Bool
is_true none = false
is_true (some b) = b

unfoldable pub extract_token : Request → Bytes
extract_token r =
    let in_query = trim_space r.query_token in
    if not (is_empty in_query)
    then in_query
    else if has_prefix r.authorization (codes "Bearer ")
    then trim_space (drop 7 r.authorization)
    else codes ""

-- `tokenMatches`, with the token of the session first
unfoldable pub token_matches : Bytes → Bytes → Bool
token_matches token got =
    if is_empty got || is_empty token || not (length got == length token)
    then false
    else bytes_eq got token

abbrev pub is_web : Bytes → Bool
is_web scheme = bytes_eq scheme (codes "http") || bytes_eq scheme (codes "https")

abbrev pub is_editor : Bytes → Bool
is_editor scheme =
    bytes_eq scheme (codes "vscode-file")
    || bytes_eq scheme (codes "vscode-webview")
    || bytes_eq scheme (codes "vscode-app")

module _ (net : Net) where
  -- the switch on the scheme of a parsed origin
  unfoldable pub url_allowed : Bytes × Bytes → Bool
  url_allowed (scheme, host) =
      if is_empty scheme
      then false
      else if is_editor (net.to_lower scheme)
      then true
      else if is_web (net.to_lower scheme)
      then bytes_eq host (codes "localhost") || is_true (net.loopback host)
      else false

  abbrev parsed_allowed : Option (Bytes × Bytes) → Bool
  parsed_allowed none = false
  parsed_allowed (some u) = url_allowed u

  unfoldable pub origin_allowed : Bytes → Bool
  unfolding url_allowed
  origin_allowed text =
      let origin = trim_space text in
      if is_empty origin || bytes_eq origin (codes "null")
      then true
      else parsed_allowed (net.parse_url origin)

  abbrev bind_address : Option Bool → Result BindError (Unit {0})
  bind_address none = err no_address
  bind_address (some local) = if local then ok tt else err no_loopback

  unfoldable pub validate_bind : Bytes → Result BindError (Unit {0})
  validate_bind text =
      let host = trim_space text in
      if is_empty host then err empty_bind else bind_address (net.loopback host)

  -- `handleIPC`, up to `serveConn`
  unfoldable pub handle_ipc : Bytes → Request → Answer
  unfolding origin_allowed token_matches extract_token
  handle_ipc token r =
      if not (bytes_eq r.method (codes "GET"))
      then method_not_allowed
      else if not (origin_allowed r.origin)
      then forbidden
      else if not (token_matches token (extract_token r))
      then unauthorized
      else if r.upgradable
      then switching
      else bad_handshake

  -- What a request has that the server lets in: the token of the session, and an origin that is allowed.
  pub record IsTrusted (token : Bytes) (r : Request) : Type 0 where
    pub from_allowed : origin_allowed r.origin ≡ true
    pub has_token : extract_token r ≡ token
    pub token_set : is_empty token ≡ false

  pub switching-IsTrusted :
      (token : Bytes) (r : Request) → handle_ipc token r ≡ switching → IsTrusted token r
  unfolding handle_ipc token_matches
  switching-IsTrusted token r h = ground (arith, bytes_eq→eq (extract_token r) token)
