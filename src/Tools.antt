-- ===== src/Tools.antt =====
-- local-agent/internal/tools/dispatcher.go: the registry of tools and the dispatcher. The texts that the
-- source formats into an error (the name of a tool, the reason of a refusal) are left out.
pub mod Laws
pub mod Local
mod Tests
use on_code.Prelude.{
  ℕ, Bool, true, false, Option, none, some, List, [], ◌∷◌, ◌++◌, Bytes, String, Result, ok, err,
  if◌then◌else◌, bytes_eq,
}
use on_code.Protocol.Errors
use on_code.Protocol.Errors.{Error, Code}
use on_code.Protocol.Messages.{ToolRequest, ToolResponse, Status, failed, Refusal, validate_request}

-- A Go error: one of the protocol, or another one with its text.
pub data GoError : Type 0 where
  protocol_error : Error → GoError
  plain_error : String → GoError

-- What a handler returns, a response that may be nil and an error that may be nil.
pub record Outcome : Type 0 where
  pub response : Option ToolResponse
  pub failure : Option GoError

-- `W` is the state that tools work on: the workspaces, the proposals and the files.
abbrev pub Handler : Type 0 → Type 0
Handler W = ToolRequest → W → Outcome × W

abbrev pub Registry : Type 0 → Type 0
Registry W = List (Bytes × Handler W)

pub register : {W : Type 0} → Bytes → Handler W → Registry W → Registry W
register name h [] = (name, h) ∷ []
register name h ((n, g) ∷ r) = if bytes_eq n name then (name, h) ∷ r else (n, g) ∷ register name h r

pub get : {W : Type 0} → Bytes → Registry W → Option (Handler W)
get name [] = none
get name ((n, g) ∷ r) = if bytes_eq n name then some g else get name r

-- audit.ToolEvent
pub record ToolEvent : Type 0 where
  pub event_call : Bytes
  pub event_tool : Bytes
  pub event_status : Status
  pub event_ms : ℕ
  pub event_error : Option Code

-- What a dispatch changes: the state of the tools and the lines of the audit log.
pub record State (W : Type 0) : Type 0 where
  pub world : W
  pub events : List ToolEvent

abbrev or_internal : Option Error → String → Option Error
or_internal none msg = Errors.new Errors.internal_error msg
or_internal (some e) msg = some e

-- the function `failed`
pub failed_response : Bytes → Code → String → ToolResponse
failed_response call code msg = record {
  reply_id = call;
  status = failed;
  reply = none;
  error = or_internal (Errors.new code msg) msg;
  duration_ms = none;
}

pub map_error : Bytes → GoError → ToolResponse
unfolding failed_response
map_error call (protocol_error e) = record {
  reply_id = call;
  status = failed;
  reply = none;
  error = some e;
  duration_ms = none;
}
map_error call (plain_error msg) = failed_response call Errors.internal_error msg

abbrev code_of : Option Error → Option Code
code_of none = none
code_of (some e) = some e.code

abbrev event : ToolRequest → ToolResponse → ℕ → ToolEvent
event req resp ms = record {
  event_call = req.call_id;
  event_tool = req.tool;
  event_status = resp.status;
  event_ms = ms;
  event_error = code_of resp.error;
}

-- the method `log`; `audited` is false where the dispatcher has no logger
pub log : {W : Type 0} → Bool → ToolRequest → ToolResponse → ℕ → State W → State W
log audited req resp ms s =
    if audited then record s { events = s.events ++ event req resp ms ∷ [] } else s

-- the response behind the handler: an error wins, and a missing response is an error
pub settle : Bytes → Outcome → ToolResponse
unfolding failed_response map_error
settle call out = elim out.failure [
  | some e ↦ map_error call e
  | none ↦ elim out.response [
    | some resp ↦ resp
    | none ↦ failed_response call Errors.internal_error "handler returned nil response"
  ]
]

abbrev pub with_metrics : ToolResponse → ℕ → ToolResponse
with_metrics resp ms = record resp {
  duration_ms = elim resp.duration_ms [ none ↦ some ms | some t ↦ some t ];
}

-- a validated request with the handler that was found for it
pub run : {W : Type 0} → Bool → ℕ → ToolRequest → Handler W → State W → ToolResponse × State W
unfolding settle log
run audited ms req h s =
    let (out, world) = h req s.world in
    let resp = with_metrics (settle req.call_id out) ms in
    (resp, log audited req resp ms (record s { world = world }))

pub route : {W : Type 0} → Registry W → Bool → ℕ → ToolRequest → State W → ToolResponse × State W
unfolding get failed_response log run
route reg audited ms req s = elim (get req.tool reg) [
  | some h ↦ run audited ms req h s
  | none ↦
      let resp = failed_response req.call_id Errors.tool_not_supported "tool is not supported" in
      (resp, log audited req resp ms s)
]

-- The method `Dispatch`; `ms` is the time that it took.
unfoldable pub dispatch :
    {W : Type 0} → Registry W → Bool → ℕ → Option ToolRequest → State W → ToolResponse × State W
unfolding route failed_response log
dispatch reg audited ms none s = (failed_response [] Errors.invalid_request "nil tool request", s)
dispatch reg audited ms (some req) s = elim (validate_request req) [
  | ok valid ↦ route reg audited ms valid s
  | err e ↦
      let resp = failed_response req.call_id Errors.invalid_request "invalid tool request" in
      (resp, log audited req resp ms s)
]
