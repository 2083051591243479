-- ===== src/Agent/Tests.antt =====
-- Examples of answers (local-agent/internal/agent/agent.go).
use on_code.Prelude.{ℕ, suc, none, some, [], ◌∷◌, codes}
use on_code.Protocol.Ids.Uuids.{Uuid}
use on_code.Protocol.Messages.{request, Envelope, tool_request, ToolRequest, fresh_envelope}
use on_code.Tools.{plain_error, Handler, Registry, State}

abbrev drawn : Uuid
drawn = record {
  b0 = 1;
  b1 = 2;
  b2 = 3;
  b3 = 4;
  b4 = 5;
  b5 = 6;
  b6 = 7;
  b7 = 8;
  b8 = 9;
  b9 = 10;
  b10 = 11;
  b11 = 12;
  b12 = 13;
  b13 = 14;
  b14 = 15;
  b15 = 255;
}

abbrev call : ToolRequest
call = record {
  call_id = codes "CALL-018bcfe5-6800-7708-890a-0b0c0d0e0fff";
  tool = codes "build.run";
  arguments = none;
  timeout_ms = none;
}

abbrev envelope : Envelope
envelope =
    record (fresh_envelope (codes "MSG-018bcfe5-6800-7708-890a-0b0c0d0e0fff")
      (codes "2023-11-14T22:13:20Z") request (tool_request call)) {
        session_id = codes "SES-018bcfe5-6800-7708-890a-0b0c0d0e0fff";
      }

abbrev count_and_fail : Handler ℕ
count_and_fail req n =
    (record { response = none; failure = some (plain_error "no build tool") }, suc n)

abbrev registry : Registry ℕ
registry = (codes "build.run", count_and_fail) ∷ []

abbrev start : State ℕ
start = record { world = 0; events = [] }
