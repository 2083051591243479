-- ===== src/Tools/Local.antt =====
-- The tools on the workspaces: what their handlers share, with `Success` of dispatcher.go and the functions `fail`
-- of local-agent/internal/tools/.
pub mod Files
pub mod Changes
pub mod Runs
pub mod System
pub mod Fair
pub mod RunAnswers
pub mod Answers
mod Tests
use on_code.Prelude.{
  ℕ, Bool, true, false, Option, none, some, List, [], ◌∷◌, Bytes, String, Result, ok, err,
}
use on_code.Protocol.Errors
use on_code.Protocol.Errors.{Code}
use on_code.Protocol.Json.{Value, Fields, end, text_at}
use on_code.Protocol.Messages.{ToolRequest, ToolResponse, success}
use on_code.Tools.{Outcome, protocol_error, plain_error, GoError, failed_response}
use on_code.Workspace.Disk.{Disk}
use on_code.Workspace.Registry.{World}
use on_code.Workspace.Store.{ProposalStore}

-- What the tools work on: the workspaces with the disk, the proposals, and how many identifiers were drawn.
pub record Bench (D : Disk) : Type 0 where
  pub world : World D
  pub proposals : ProposalStore
  pub draws : ℕ

-- the arguments of a call; a nil map reads as an empty one
abbrev pub arguments_of : ToolRequest → Fields
arguments_of req = elim req.arguments [ none ↦ end | some m ↦ m ]

-- `s, _ := req.Arguments[k].(string)`
abbrev pub argument : String → ToolRequest → Bytes
argument k req = text_at k (arguments_of req)

abbrev pub replies : ToolResponse → Outcome
replies resp = record { response = some resp; failure = none }

-- `fail`, with no error
unfoldable pub refused : ToolRequest → Code → String → Outcome
refused req code msg = replies (failed_response req.call_id code msg)

abbrev pub error_of : Code → GoError
error_of code = elim (Errors.new code "") [ none ↦ plain_error "" | some e ↦ protocol_error e ]

-- an error of the workspace that the handler returns
unfoldable pub raised : Code → Outcome
raised code = record { response = none; failure = some (error_of code) }

-- `Success` on what json.Marshal gives
unfoldable pub success_response : Bytes → Option Value → ToolResponse
success_response call none = failed_response call Errors.internal_error "marshal result"
success_response call (some v) = record {
  reply_id = call;
  status = success;
  reply = some v;
  error = none;
  duration_ms = none;
}

-- a result of the workspace, or its error
unfoldable pub outcome_of :
    {R : Type 0} → ToolRequest → (R → Option Value) → Result Code R → Outcome
unfolding raised success_response
outcome_of req json (err e) = raised e
outcome_of req json (ok r) = replies (success_response req.call_id (json r))
