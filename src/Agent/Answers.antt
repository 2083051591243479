-- ===== src/Agent/Answers.antt =====
-- Every envelope is answered (local-agent/internal/agent/agent.go).
use on_code.Prelude.{
  ℕ, ◌≡◌, Bool, false, Option, none, some, [], ◌∷◌, ◌++◌, Bytes, ok, is_empty, ◌⊎◌,
}
use on_code.Protocol.Errors
use on_code.Protocol.Errors.{Error}
use on_code.Protocol.Ids
use on_code.Protocol.Ids.{IdError}
use on_code.Protocol.Ids.Kinds
use on_code.Protocol.Ids.Uuids.{Uuid, IsUuid, new_v7, format_uuid}
use on_code.Protocol.Messages.{
  request, response, local_agent_actor, Envelope, Payload, tool_response, failed, ToolRequest,
  fresh_envelope, validate_envelope, check_optional,
}
use on_code.Protocol.Versioning
use on_code.Tools.{Registry, State, dispatch}
use on_code.Agent.{Stamp, as_request, answered}

-- An answer is valid and a response.
pub record IsAnswer (out : Envelope) : Type 0 where
  pub valid : validate_envelope out ≡ ok tt
  pub kind : out.message_type ≡ response

abbrev pub AnsweredBy : (Payload → Type 0) → Option Envelope → Type 0
AnsweredBy P a = (out : Envelope) × (a ≡ some out) × IsAnswer out × P out.payload

-- any answer
abbrev pub Answered : Option Envelope → Type 0
Answered = AnsweredBy (λ p. Unit)

-- the payload of a refusal
abbrev pub IsRefusal : Payload → Type 0
IsRefusal p =
    (e : Error) × (e.code ≡ Errors.invalid_request)
    × (p
        ≡ tool_response (record {
          reply_id = [];
          status = failed;
          reply = none;
          error = some e;
          duration_ms = none;
        }))

-- A valid envelope of the type REQUEST whose payload reads as a request.
abbrev pub CanServe : Envelope → Type 0
CanServe env =
    (validate_envelope env ≡ ok tt)
    × (env.message_type ≡ request)
    × ((req : ToolRequest) × (as_request env.payload ≡ some req))

-- an identifier that is valid or absent
abbrev Passes : Bytes → Bytes → Type 0
Passes kind id = check_optional kind id ≡ ok tt

-- the identifiers of a valid envelope
record HasIds (e : Envelope) : Type 0 where
  session : Passes Kinds.session e.session_id
  project : Passes Kinds.project e.project_id
  workspace : Passes Kinds.workspace e.workspace_id
  workflow : Passes Kinds.workflow e.workflow_id
  work_item : Passes Kinds.work_item e.work_item_id
  task : Passes Kinds.task e.task_id

module _ (u : Uuid) (time : ℕ) (real : IsUuid u) (now agent_id : Bytes)
    (timed : is_empty now ≡ false) where
  abbrev pub stamp : Stamp
  stamp = record { uuid = new_v7 u time; now = now; agent_id = agent_id }

  abbrev mid : Bytes
  mid = Kinds.message ++ b'-' ∷ format_uuid (new_v7 u time)

  module _ {W : Type 0} (tools : Registry W) (audited : Bool) (ms : ℕ) where
    -- the answer to a request, and the tools behind it
    abbrev pub served : Envelope → ToolRequest → State W → Option Envelope × State W
    served env req s =
        let (resp, after) = dispatch tools audited ms (some req) s in
        (
          some (record (fresh_envelope mid now response (tool_response resp)) {
            session_id = env.session_id;
            project_id = env.project_id;
            workspace_id = env.workspace_id;
            workflow_id = env.workflow_id;
            work_item_id = env.work_item_id;
            task_id = env.task_id;
            actor = some (record { actor_type = local_agent_actor; actor_id = agent_id });
          }),
          after,
        )

    -- An envelope that is refused: it is no valid request that can be read, no tool has run, and the answer is
    -- a valid envelope with the error INVALID_REQUEST, and with no identifier of a call.
    pub record Refuses (env : Envelope) (s : State W) (a : Option Envelope × State W) : Type 0 where
      pub deserved : ¬ CanServe env
      pub answered : AnsweredBy IsRefusal a.0
      pub untouched : a.1 ≡ s

    -- An envelope whose request is dispatched: it is valid and a request, and its answer is that of the
    -- dispatcher, with the identifiers of the envelope.
    pub record Serves (env : Envelope) (s : State W) (a : Option Envelope × State W) : Type 0 where
      pub valid : validate_envelope env ≡ ok tt
      pub typed : env.message_type ≡ request
      pub tool_call : ToolRequest
      pub read : as_request env.payload ≡ some tool_call
      pub answer : a ≡ served env tool_call s
      pub answered : Answered a.0

    abbrev pub Handles : Envelope → State W → Option Envelope × State W → Type 0
    Handles env s a = Refuses env s a ⊎ Serves env s a
