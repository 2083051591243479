-- ===== src/Transport/Memory.antt =====
-- memory.go and transport.go of local-agent/internal/transport/: the transport in memory, and the loop that
-- answers its requests. A buffered channel is the list of what it holds, the oldest first. A
-- read is one step, or waits, and a write two, its test of closed and its select, which may be some time
-- behind it; where a call takes a context, `stops` says that the context is done and that
-- select takes that case. A panic ends the program.
use on_code.Prelude.{
  ℕ, Bool, true, false, Option, none, some, List, [], ◌∷◌, ◌++◌, Bytes, ltb, if◌then◌else◌, length,
}
use on_code.Protocol.Messages.{Envelope}

pub record Memory : Type 0 where
  pub requests : List Envelope
  pub responses : List Envelope
  pub capacity : ℕ
  pub closed : Bool
  pub agent_id : Bytes

pub data TransportError : Type 0 where
  context_done transport_closed handler_failed : TransportError

-- What a read of a channel, or a write to one, comes to.
pub data Read : Type 0 where
  got : Envelope → Read
  read_waits : Read
  read_fails : TransportError → Read

pub data Write : Type 0 where
  done write_waits panics : Write
  write_fails : TransportError → Write

-- `NewMemory`, for a buffer that is not negative
unfoldable pub new_memory : ℕ → Memory
new_memory buffer = record {
  requests = [];
  responses = [];
  capacity = if ltb buffer 1 then 8 else buffer;
  closed = false;
  agent_id = [];
}

-- `Register`; `Connect` and `SendHeartbeat` have the same test and change nothing
unfoldable pub register : Bool → Bytes → Memory → Option TransportError × Memory
register stops id m = if stops then (some context_done, m) else (none, record m { agent_id = id })

-- a read of a channel that may be closed
abbrev pub read_from : Bool → List Envelope → Read × List Envelope
read_from closed [] = (if closed then read_fails transport_closed else read_waits, [])
read_from closed (e ∷ es) = (got e, es)

unfoldable pub receive_request : Bool → Memory → Read × Memory
receive_request stops m =
    let (out, rest) = read_from m.closed m.requests in
    if stops then (read_fails context_done, m) else (out, record m { requests = rest })

unfoldable pub next_response : Bool → Memory → Read × Memory
next_response stops m =
    let (out, rest) = read_from m.closed m.responses in
    if stops then (read_fails context_done, m) else (out, record m { responses = rest })

-- `SendResponse`, up to the test of closed, and behind it at the select: without the lock, a Close can come
-- in between, and a write to a closed channel panics
unfoldable pub send_response : Bool → Bool → Envelope → Memory → Write × Memory
send_response false stops env m =
    if m.closed then (write_fails transport_closed, m) else (write_waits, m)
send_response true stops env m =
    if stops
    then (write_fails context_done, m)
    else if m.closed
    then (panics, m)
    else if ltb (length m.responses) m.capacity
    then (done, record m { responses = m.responses ++ env ∷ [] })
    else (write_waits, m)

-- `InjectRequest`, in the same two parts
unfoldable pub inject_request : Bool → Bool → Envelope → Memory → Write × Memory
inject_request false stops env m =
    if m.closed then (write_fails transport_closed, m) else (write_waits, m)
inject_request true stops env m =
    if stops
    then (write_fails context_done, m)
    else if m.closed
    then (panics, m)
    else if ltb (length m.requests) m.capacity
    then (done, record m { requests = m.requests ++ env ∷ [] })
    else (write_waits, m)

abbrev pub close : Memory → Memory
close m = record m { closed = true }

-- Where `Loop` stands: at ReceiveRequest; at SendResponse, where true says that its test is behind it; or
-- behind its return or a panic, with the answer that it could not send.
pub data Position : Type 0 where
  receiving : Position
  sending : Bool → Envelope → Position
  returned : TransportError → Option Envelope → Position
  panicked : Option Envelope → Position

-- the answer that the loop holds
abbrev pub in_hand : Position → Option Envelope
in_hand receiving = none
in_hand (sending tested out) = some out
in_hand (returned e lost) = lost
in_hand (panicked lost) = lost

-- What the handler of requests returns: a response, neither a response nor an error, or an error.
pub data Reply : Type 0 where
  responds : Envelope → Reply
  silent fails : Reply

abbrev pub responses_of : Reply → List Envelope
responses_of (responds e) = e ∷ []
responses_of silent = []
responses_of fails = []

abbrev pub Handler : Type 0 → Type 0
Handler S = Envelope → S → Reply × S

-- The transport with the loop on it and the handler's state, and what happened, the oldest first: the requests
-- that were put in, those that the loop received, and the responses that were taken out.
pub record System (S : Type 0) : Type 0 where
  pub memory : Memory
  pub position : Position
  pub world : S
  pub injected : List Envelope
  pub received : List Envelope
  pub taken : List Envelope

pub data Step : Type 0 where
  injects : Bool → Bool → Envelope → Step
  takes : Bool → Step
  closes : Step
  loops : Bool → Step

module _ {S : Type 0} (handle : Handler S) where
  abbrev pub answered : Reply × S → System S → System S
  answered (fails, world) y = record y { world = world; position = returned handler_failed none }
  answered (silent, world) y = record y { world = world; position = receiving }
  answered (responds out, world) y = record y { world = world; position = sending false out }

  abbrev pub handled : Read × Memory → System S → System S
  handled (got env, m) y =
      answered (handle env y.world) (record y { memory = m; received = y.received ++ env ∷ [] })
  handled (read_waits, m) y = y
  handled (read_fails e, m) y = record y { position = returned e none }

  abbrev pub sent : Envelope → Write × Memory → System S → System S
  sent out (done, m) y = record y { memory = m; position = receiving }
  sent out (write_waits, m) y = record y { position = sending true out }
  sent out (panics, m) y = record y { position = panicked (some out) }
  sent out (write_fails e, m) y = record y { position = returned e (some out) }

  unfoldable pub at_position : Bool → Position → System S → System S
  unfolding receive_request send_response
  at_position stops receiving y = handled (receive_request stops y.memory) y
  at_position stops (sending tested out) y = sent out (send_response tested stops out y.memory) y
  at_position stops (returned e lost) y = y
  at_position stops (panicked lost) y = y

  -- `Loop` up to its next call of the transport, or inside SendResponse to its select
  unfoldable pub loop : Bool → System S → System S
  unfolding at_position
  loop stops y = at_position stops y.position y

  abbrev pub put_in : Envelope → Write × Memory → System S → System S
  put_in env (done, m) y = record y { memory = m; injected = y.injected ++ env ∷ [] }
  put_in env (panics, m) y = record y { position = panicked (in_hand y.position) }
  put_in env _ y = y

  abbrev pub taken_out : Read × Memory → System S → System S
  taken_out (got env, m) y = record y { memory = m; taken = y.taken ++ env ∷ [] }
  taken_out _ y = y

  unfoldable pub step : Step → System S → System S
  unfolding loop inject_request next_response
  step (injects tested stops env) y = put_in env (inject_request tested stops env y.memory) y
  step (takes stops) y = taken_out (next_response stops y.memory) y
  step closes y = record y { memory = close y.memory }
  step (loops stops) y = loop stops y

  unfoldable pub run : List Step → System S → System S
  unfolding step
  run [] y = y
  run (s ∷ ss) y = run ss (step s y)

  -- the answers to requests, one after the other, and the state behind them
  unfoldable pub answers : List Envelope → S → List Envelope × S
  answers [] s = ([], s)
  answers (r ∷ rs) s =
      let (out, next) = handle r s in
      let (rest, last) = answers rs next in (responses_of out ++ rest, last)
