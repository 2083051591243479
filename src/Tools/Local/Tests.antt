-- ===== src/Tools/Local/Tests.antt =====
-- Examples of calls of the agent's own tools (local-agent/internal/tools/workspace/tools.go), on a disk in memory.
use on_code.Prelude.{
  ℕ, ◌≡◌, refl, false, true, none, some, [], Bytes, codes, ok, bytes_eq, index_byte, split, cut,
}
use on_code.Prelude.Space.{trim_space}
use on_code.Policy.{local_approval}
use on_code.Protocol.Ids
use on_code.Protocol.Ids.Hex
use on_code.Protocol.Ids.Uuids
use on_code.Protocol.Ids.Uuids.{Uuid}
use on_code.Protocol.Json.{Value, null, str, end, field}
use on_code.Protocol.Messages.{
  ToolRequest, ToolResponse, success, validate_response, validate_change_set, check_id,
  check_optional,
}
use on_code.Session.Local.Tests.{digest, set_id, workspace_id, world, store}
use on_code.Tools.{State, dispatch}
use on_code.Tools.Local.{Bench, replies, success_response, outcome_of}
use on_code.Tools.Local.Answers.{agent_tools-valid, apply_tool-Approved}
use on_code.Tools.Local.Changes.{Writing, apply_request, apply_changes_tool}
use on_code.Tools.Local.Files.{Reading}
use on_code.Tools.Local.Runs.{Programs}
use on_code.Tools.Local.System.{Identity, agent_tools}
use on_code.Workspace.Apply.Local.{ApplyResult, apply_changes_on}
use on_code.Workspace.Store
use on_code.Workspace.Registry
use on_code.Protocol.Json
use on_code.Diff.Unified.{unified_file, unified_join}
use on_code.Prelude.Paths.{render, clean, rel, join}
use on_code.Workspace.Propose.{propose, draft_change, set_plan}
use on_code.Workspace.Conflicts.{validate_change_conflicts, note_change}
use on_code.Workspace.Files.{read_text_file, hash_bytes}
use on_code.Workspace.Resolve.{resolve_path, within_root}
use on_code.Workspace.Sorting.{sort_by}
use on_code.Prelude.Utf8.{valid_utf8}
use on_code.Prelude.Decimal.{decimal}
use on_code.Diff.{split_lines, row, last_row, table, walk, lcs_ops}
use on_code.Workspace.Apply.{apply_changes, apply_claimed, change_files, conclude, finish_claim}
use on_code.Workspace.Apply.Files.{change_planned, change_one, plan_of, place}
use on_code.Workspace.Apply.Local.Effects.{Approved}
use on_code.Workspace.Disk.Memory.{memory, lookup, insert, erase}
use on_code.Workspace.Hits.{leaf}

abbrev lower : Bytes → Bytes
lower text = text

abbrev identity : Identity
identity = record {
  agent_id = codes "AGENT-1";
  version = codes "0.1.0";
  now = codes "2025-01-01T00:00:00Z";
  os = codes "linux";
  arch = codes "amd64";
}

abbrev reading : Reading memory digest lower
reading = record {
  max_bytes = 0;
  excludes = [];
  max_hits = 0;
  tree = λ ws s. leaf;
  file_json = λ r. some null;
  files_json = λ r. some null;
  hits_json = λ r. some null;
}

abbrev uuids : ℕ → Uuid
uuids n = record {
  b0 = n;
  b1 = n;
  b2 = n;
  b3 = n;
  b4 = n;
  b5 = n;
  b6 = n;
  b7 = n;
  b8 = n;
  b9 = n;
  b10 = n;
  b11 = n;
  b12 = n;
  b13 = n;
  b14 = n;
  b15 = n;
}

abbrev writing : Writing memory digest
writing = record {
  max_bytes = 0;
  drawn = uuids;
  change_set_of = λ args. none;
  proposal_json = λ p. some null;
  applied_json = λ r. some null;
}

abbrev programs : Programs memory
programs = record {
  build_adapter = λ ms ws s. none;
  test_adapter = λ ms ws s. none;
  git = λ ws s args. none;
  has_git = λ ws s. false;
  build_json = λ r. some null;
  test_json = λ r. some null;
  status_json = λ r. some null;
  diff_json = λ r. some null;
}

abbrev call : Bytes
call = codes "CALL-018bcfe5-6800-7708-890a-0b0c0d0e0fff"

abbrev request : ToolRequest
request = record {
  call_id = call;
  tool = codes "workspace.apply_changes";
  arguments = some (
      field "change_set_id" (str set_id) (
        field "workspace_id" (str workspace_id) (
          field "approval_id" (str (codes "APR-018bcfe5-6800-7708-890a-0b0c0d0e0fff"))
            (field "approved_diff_hash" (str (codes "sha256:2e")) end))));
  timeout_ms = none;
}

abbrev bench : Bench memory
bench = record { world = world; proposals = store; draws = 0 }

abbrev state : State (Bench memory)
state = record { world = bench; events = [] }

agent_tools-valid_example :
    validate_response
      (dispatch
        (agent_tools memory digest lower identity reading writing programs)
        true
        25
        (some request)
        state).0
    ≡ ok tt
unfolding check_id Ids.validate Ids.parse Ids.split trim_space index_byte Ids.known Ids.among
    bytes_eq Uuids.parse_uuid Hex.decode Uuids.version Uuids.variant
agent_tools-valid_example =
    agent_tools-valid memory digest lower identity reading writing programs true 25 request state
      refl

abbrev response : ToolResponse
response = record {
  reply_id = call;
  status = success;
  reply = some null;
  error = none;
  duration_ms = none;
}

-- the approved proposal of the examples of applies
applied_test : (apply_changes_tool memory digest writing request bench).0 ≡ replies response
unfolding apply_changes_tool local_approval outcome_of success_response Json.lookup apply_changes_on
    apply_changes apply_claimed change_files conclude finish_claim Store.claim_for_apply Store.find
    Store.assign Store.abort_apply Store.mark_applied Ids.validate Ids.parse Ids.split Ids.known
    Ids.among Hex.decode Hex.encode Uuids.parse_uuid Uuids.version Uuids.variant Registry.mutate
    Registry.get_workspace Registry.find Registry.assign propose validate_change_set
    validate_change_conflicts draft_change set_plan read_text_file resolve_path trim_space clean
    split bytes_eq index_byte within_root rel join lookup insert erase render valid_utf8 hash_bytes
    unified_file unified_join split_lines cut lcs_ops walk table row last_row sort_by change_planned
    change_one plan_of place note_change decimal check_id check_optional
applied_test = refl

apply_tool-Approved_example :
    (r : ApplyResult) × Approved memory digest 0 0 local_approval
      (apply_request memory digest writing request)
      store
      world
      (apply_changes_tool memory digest writing request bench).1.world.disk
      r
apply_tool-Approved_example =
    apply_tool-Approved memory digest lower writing request bench null response applied_test refl
