-- ===== src/Tools/Tests.antt =====
-- Examples of dispatches (local-agent/internal/tools/dispatcher.go).
use on_code.Prelude.{ℕ, suc, ◌≡◌, refl, ◌++◌, true, none, some, [], ◌∷◌, Bytes, codes, bytes_eq}
use on_code.Protocol.Messages.{ToolRequest}
use on_code.Tools.{plain_error, Handler, Registry, register, get, State, dispatch, ToolEvent}
use on_code.Tools.Laws.{Tells, dispatch-logs}

abbrev call : Bytes
call = codes "CALL-018bcfe5-6800-7708-890a-0b0c0d0e0fff"

abbrev request : ToolRequest
request = record { call_id = call; tool = codes "build.run"; arguments = none; timeout_ms = none }

-- a tool that counts its calls and fails
abbrev count_and_fail : Handler ℕ
count_and_fail req n =
    (record { response = none; failure = some (plain_error "no build tool") }, suc n)

abbrev registry : Registry ℕ
registry = (codes "build.run", count_and_fail) ∷ []

abbrev start : State ℕ
start = record { world = 0; events = [] }

dispatch-logs_example :
    (e : ToolEvent) × ((dispatch registry true 25 (some request) start).1.events ≡ [] ++ e ∷ [])
    × Tells request (dispatch registry true 25 (some request) start).0 25 e
dispatch-logs_example = dispatch-logs registry 25 request start

-- a name that is registered again gets the new handler
register_test :
    get (codes "x") (register (codes "x") count_and_fail (register (codes "x") count_and_fail []))
    ≡ some count_and_fail
unfolding register get bytes_eq
register_test = refl
