-- ===== src/Bridge/Published.antt =====
-- New, Start, Endpoint and Close of Bridge/Discovery together.
use on_code.Prelude.{
  ◌≡◌, refl, sym, ap, ◌∙◌, Bool, true, false, not, ◌==◌, Option, none, some, [], ◌∷◌, Bytes, arith,
  Result, ok, err, ensure, >>=-eq-ok, ensure-eq-ok, is_empty,
}
use on_code.Prelude.Decimal.{ℤ}
use on_code.Prelude.Space.{
  trim_space, strip, front_space, back_space, is_space1, is_space2, is_space3,
}
use on_code.Protocol.Ids.Hex
use on_code.Workspace.Disk.{Disk, contents}
use on_code.Bridge.Access.{Net, empty_bind, validate_bind}
use on_code.Bridge.Server.{Endpoint, Bridge, shut}
use on_code.Bridge.Discovery.{
  BridgeError, bad_bind, bad_port, no_state_dir, no_agent_id, already_started, remote_listener,
  not_listening, Options, Listener, port_allowed, is_positive, bind_checked, fresh_bridge,
  new_bridge, get_endpoint, endpoint_path, ReadsBack, write_endpoint, read_endpoint, stored, save,
  read_text, listened, started_with, check_endpoint, endpoint_of, start, close,
}

bind_named :
    (net : Net) (bind : Bytes) (u : Unit {0})
    → bind_checked (validate_bind net bind) ≡ ok u
    → is_empty bind ≡ false
unfolding validate_bind trim_space strip front_space back_space is_space1 is_space2 is_space3
bind_named net [] u e =
    let refused : bind_checked (validate_bind net []) ≡ err (bad_bind empty_bind) = refl in cc
bind_named net (c ∷ s) u e = refl

-- what `New` has tested
record IsNamed {S : Type 0} (world : S) (random : Bytes) (o : Options S) (b : Bridge S)
    : Type 0 where
  is_fresh : fresh_bridge world o (Hex.encode random) ≡ b
  bind_set : is_empty o.bind ≡ false
  dir_set : is_empty o.state_dir ≡ false

new_bridge-IsNamed :
    {S : Type 0} (net : Net) (world : S) (random : Bytes) (o : Options S) (b : Bridge S)
    → new_bridge net world (some random) o ≡ ok b
    → IsNamed world random o b
unfolding new_bridge
new_bridge-IsNamed net world random o b e =
    let (tested, bind_ok, behind_bind) = >>=-eq-ok (bind_checked (validate_bind net o.bind)) _ e in
    let (u, port_ok, behind_port) =
      >>=-eq-ok (ensure (port_allowed o.port) bad_port) _ behind_bind in
    let (v, dir_ok, behind_dir) =
      >>=-eq-ok (ensure (not (is_empty o.state_dir)) no_state_dir) _ behind_port in
    let (w, id_ok, made) =
      >>=-eq-ok (ensure (not (is_empty o.agent_id)) no_agent_id) _ behind_dir in
    record {
      is_fresh = cc;
      bind_set = bind_named net o.bind tested bind_ok;
      dir_set = ground (arith, ensure-eq-ok (not (is_empty o.state_dir)) no_state_dir v dir_ok);
    }

encode_some : (c : Bytes) → is_empty c ≡ false → is_empty (Hex.encode c) ≡ false
unfolding Hex.encode
encode_some [] h = cc
encode_some (x ∷ c) h = refl

module _ (D : Disk) (encode : Endpoint → Option Bytes) (decode : Bytes → Option Endpoint) where
  -- The decoder of JSON reads what the encoder wrote.
  abbrev pub Decodes : Type 0
  Decodes = (ep : Endpoint) (raw : Bytes) → encode ep ≡ some raw → decode raw ≡ some ep

  kept :
      (path raw : Bytes) (s : D.State) (u : Unit {0}) (out : Bool × D.State)
      → ReadsBack D
      → D.write s path raw ≡ out
      → (stored D encode decode path out).0 ≡ ok u
      → D.read (stored D encode decode path out).1 path ≡ contents raw
  kept path raw s u (false, s') back w e = cc
  kept path raw s u (true, s') back w e = let reads = back s path raw (ground (arith, w)) in cc

  saved :
      (path : Bytes) (ep : Endpoint) (s : D.State) (u : Unit {0}) (text : Option Bytes)
      → Decodes
      → ReadsBack D
      → encode ep ≡ text
      → (save D encode decode path text s).0 ≡ ok u
      → read_text D encode decode (D.read (save D encode decode path text s).1 path)
        ≡ check_endpoint D encode decode (some ep)
  unfolding read_text
  saved path ep s u none decodes back t e = cc
  saved path ep s u (some raw) decodes back t e =
      rw (kept path raw s u (D.write s path raw) back refl e, decodes ep raw t) refl

  -- an endpoint that is written is read again
  write-read :
      (dir : Bytes) (ep : Endpoint) (s : D.State) (u : Unit {0})
      → Decodes
      → ReadsBack D
      → (write_endpoint D encode decode dir ep s).0 ≡ ok u
      → read_endpoint D encode decode dir (write_endpoint D encode decode dir ep s).1
        ≡ check_endpoint D encode decode (some ep)
  unfolding write_endpoint read_endpoint
  write-read dir ep s u decodes back e =
      let path = endpoint_path dir in
      ground (arith, saved path ep s u (encode ep) decodes back refl)

  check_whole :
      (ep : Endpoint)
      → is_empty ep.host ≡ false
      → is_positive ep.port ≡ true
      → is_empty ep.path ≡ false
      → is_empty ep.secret ≡ false
      → check_endpoint D encode decode (some ep) ≡ ok ep
  unfolding check_endpoint
  check_whole ep host port path secret = rw (host, port, path, secret) refl

  -- A bridge that `New` made and `Start` has started, if the listener reports the port that it really has.
  module _ {S : Type 0} where
    -- the file in the state folder says what the bridge says, and that is where a loopback listener is
    pub record IsPublished (listen : Bytes → ℤ → Option Listener) (random : Bytes) (o : Options S)
        (b : Bridge S) (s : D.State) : Type 0 where
      pub listener : Listener
      pub listens : listen o.bind o.port ≡ some listener
      pub is_local : listener.on_loopback ≡ true
      pub said : get_endpoint b ≡ ok (endpoint_of D encode decode b listener)
      pub found : read_endpoint D encode decode o.state_dir s ≡ get_endpoint b
      pub secret : b.token ≡ Hex.encode random
      pub once : start D encode decode listen b s ≡ (err already_started, s)
      pub over : get_endpoint (close D encode decode b s).0 ≡ err not_listening

    -- what `Start` has done
    record HasStarted (listen : Bytes → ℤ → Option Listener) (b b' : Bridge S) (s s' : D.State)
        : Type 0 where
      listener : Listener
      listens : listen b.bind b.wanted_port ≡ some listener
      is_local : listener.on_loopback ≡ true
      as_started :
          record b {
            started = true;
            serving = true;
            endpoint = endpoint_of D encode decode b listener;
          }
          ≡ b'
      wrote :
          write_endpoint D encode decode b.state_dir (endpoint_of D encode decode b listener) s
          ≡ (ok tt, s')

    with-HasStarted :
        (listen : Bytes → ℤ → Option Listener) (b b' : Bridge S) (s s' : D.State) (l : Listener)
        (out : Result BridgeError (Unit {0}) × D.State)
        → listen b.bind b.wanted_port ≡ some l
        → l.on_loopback ≡ true
        → write_endpoint D encode decode b.state_dir (endpoint_of D encode decode b l) s ≡ out
        → started_with D encode decode b (endpoint_of D encode decode b l) out ≡ (ok b', s')
        → HasStarted listen b b' s s'
    with-HasStarted listen b b' s s' l (err e, t) found local w h = cc
    with-HasStarted listen b b' s s' l (ok u, t) found local w h = record {
      listener = l;
      listens = found;
      is_local = local;
      as_started = cc;
      wrote = cc;
    }

    listened-HasStarted :
        (listen : Bytes → ℤ → Option Listener) (b b' : Bridge S) (s s' : D.State)
        (l : Option Listener) (local : Bool)
        → listen b.bind b.wanted_port ≡ l
        → elim l [ none ↦ false | some l ↦ l.on_loopback ] ≡ local
        → listened D encode decode b s l ≡ (ok b', s')
        → HasStarted listen b b' s s'
    unfolding listened
    listened-HasStarted listen b b' s s' none local found e h = cc
    listened-HasStarted listen b b' s s' (some l) false found e h =
        let refused : listened D encode decode b s (some l) ≡ (err remote_listener, s) =
          rw e refl in
        cc
    listened-HasStarted listen b b' s s' (some l) true found e h =
        let ep = endpoint_of D encode decode b l in
        let went : listened D encode decode b s (some l)
            ≡ started_with D encode decode b ep (write_endpoint D encode decode b.state_dir ep s) =
          rw e refl in
        with-HasStarted listen b b' s s' l (write_endpoint D encode decode b.state_dir ep s) found e
          refl (sym went ∙ h)

    start-HasStarted :
        (listen : Bytes → ℤ → Option Listener) (b b' : Bridge S) (s s' : D.State)
        → b.started ≡ false
        → start D encode decode listen b s ≡ (ok b', s')
        → HasStarted listen b b' s s'
    unfolding start
    start-HasStarted listen b b' s s' idle h =
        listened-HasStarted listen b b' s s' (listen b.bind b.wanted_port) _ refl refl
          (ground (arith, idle, h))

    start_again :
        (listen : Bytes → ℤ → Option Listener) (b : Bridge S) (s : D.State)
        → b.started ≡ true
        → start D encode decode listen b s ≡ (err already_started, s)
    unfolding start
    start_again listen b s on = ground (arith, on)

    -- A bridge that New made and Start started is found by the file in its state folder: what is read there
    -- is what the bridge says of itself, the address of a listener on a loopback IP with the
    -- session's token, and that is the hex text of the random bytes. A second Start is refused, and behind
    -- Close the bridge says nothing. That holds where a write that succeeds is read back, the
    -- decoder of JSON reads what the encoder wrote, a listener reports a port that is not 0, and there are
    -- random bytes.
    pub start-IsPublished :
        (net : Net) (listen : Bytes → ℤ → Option Listener) (world : S) (random : Bytes)
        (o : Options S) (b b' : Bridge S) (s s' : D.State)
        → Decodes
        → ReadsBack D
        → ((host : Bytes) (p : ℤ) (l : Listener) → listen host p ≡ some l → (l.port == 0) ≡ false)
        → is_empty random ≡ false
        → new_bridge net world (some random) o ≡ ok b
        → start D encode decode listen b s ≡ (ok b', s')
        → IsPublished listen random o b' s'
    unfolding get_endpoint close shut
    start-IsPublished net listen world random o b b' s s' decodes back bound some_bytes made h =
        let n = new_bridge-IsNamed net world random o b made in
        let fresh = n.is_fresh in
        let g = start-HasStarted listen b b' s s' (ap (λ x. x.started) (sym fresh)) h in
        let l = g.listener in
        let ep = endpoint_of D encode decode b l in
        let bind_same : b.bind ≡ o.bind = ap (λ x. x.bind) (sym fresh) in
        let port_same : b.wanted_port ≡ o.port = ap (λ x. x.wanted_port) (sym fresh) in
        let dir_same : b.state_dir ≡ o.state_dir = ap (λ x. x.state_dir) (sym fresh) in
        let token_same : b.token ≡ Hex.encode random = ap (λ x. x.token) (sym fresh) in
        let port_set = bound b.bind b.wanted_port l g.listens in
        let read = write-read b.state_dir ep s tt decodes back (ap (λ x. x.0) g.wrote) in
        let whole : check_endpoint D encode decode (some ep) ≡ ok ep =
          check_whole ep (ground (arith, bind_same, n.bind_set)) (rw port_set refl) refl
            (rw token_same (encode_some random some_bytes)) in
        let says : get_endpoint b' ≡ ok ep = rw (sym g.as_started, get_endpoint, port_set) refl in
        record {
          listener = l;
          listens = ground (arith, g.listens, bind_same, port_same);
          is_local = g.is_local;
          said = says ∙ ap (λ (x : Bridge S). ok (endpoint_of D encode decode x l)) g.as_started;
          found =
              ap (λ d. read_endpoint D encode decode d s') (sym dir_same)
              ∙ ap (λ t. read_endpoint D encode decode b.state_dir t) (sym (ap (λ x. x.1) g.wrote))
              ∙ read
              ∙ whole
              ∙ sym says;
          secret = ap (λ x. x.token) (sym g.as_started) ∙ token_same;
          once = start_again listen b' s' (ap (λ x. x.started) (sym g.as_started));
          over = refl;
        }
