-- ===== src/Session/Local/Tests.antt =====
-- Examples of whole applies, on a disk in memory (local-agent/internal/idesession/apply.go and
-- local-agent/internal/workspace/apply.go).
use on_code.Prelude.{
  ℕ, ◌≡◌, refl, true, false, Option, none, some, List, [], ◌∷◌, Bytes, codes, Result, ok, err,
  length, bytes_eq, split, cut, index_byte,
}
use on_code.Diff.Unified.{unified_file}
use on_code.Prelude.Paths.{render}
use on_code.Protocol.Errors.{apply_failed}
use on_code.Protocol.Json.{str, Fields, end, field}
use on_code.Protocol.Messages.{modify, event, Envelope, tool_event, fresh_envelope}
use on_code.Session.Hub
use on_code.Session.Hub.{Message, PendingApply, Hub}
use on_code.Session.Local.{Desk, bound_approval, apply_bound}
use on_code.Session.Local.Quiet.{Input, frame, message, steps, steps-keeps}
use on_code.Session.Proposed.{Change}
use on_code.Workspace.Apply.{ApplyRequest, Applied}
use on_code.Prelude.Decimal.{decimal}
use on_code.Protocol.Json
use on_code.Protocol.Ids.Uuids.{Uuid}
use on_code.Session.Events.{classify, stage_of}
use on_code.Workspace.Apply.Local.{ApplyResult, file_written, apply_changes_on}
use on_code.Workspace.Apply.Local.Effects.{
  Restores, Approved, apply_changes_on-Approved, apply_changes_on-keeps,
}
use on_code.Workspace.Apply.Files.Staged.{short-IsNoStage}
use on_code.Workspace.Apply.Files.{Backup, restore}
use on_code.Workspace.Disk.Memory.{Files, lookup, lawful_memory, memory, removed_none, written_same}
use on_code.Workspace.Registry.{World}
use on_code.Workspace.Resolve.{Workspace}
use on_code.Workspace.Store
use on_code.Protocol.Ids
use on_code.Protocol.Ids.Hex
use on_code.Protocol.Ids.Uuids
use on_code.Workspace.Registry
use on_code.Workspace.Propose.{propose, draft_change, set_plan}
use on_code.Workspace.Conflicts.{validate_change_conflicts, note_change}
use on_code.Workspace.Files.{read_text_file, hash_bytes}
use on_code.Workspace.Resolve.{resolve_path, within_root}
use on_code.Workspace.Sorting.{sort_by}
use on_code.Prelude.Paths.{clean, rel, join}
use on_code.Prelude.Space.{trim_space}
use on_code.Prelude.Utf8.{valid_utf8}
use on_code.Diff.{split_lines, row, last_row, table, walk, lcs_ops}
use on_code.Diff.Unified.{unified_join}
use on_code.Protocol.Messages.{validate_change_set, check_id, check_optional}
use on_code.Workspace.Apply.{apply_changes, apply_claimed, change_files, conclude, finish_claim}
use on_code.Workspace.Apply.Files.{change_planned, change_one, plan_of, place}
use on_code.Workspace.Disk.Memory.{insert, erase}
use on_code.Workspace.Store.{Proposal, ProposalStore, write_file}

-- The digest of the examples is the length of the text.
abbrev pub digest : Bytes → Bytes
digest text = length text ∷ []

abbrev pub set_id : Bytes
set_id = codes "CHG-018bcfe5-6800-7708-890a-0b0c0d0e0fff"

abbrev pub workspace_id : Bytes
workspace_id = codes "WS-018bcfe5-6800-7708-890a-0b0c0d0e0fff"

abbrev pub workspace : ℕ → Workspace
workspace n = record {
  workspace_id = workspace_id;
  project_id = [];
  root = record { rooted = true; elements = codes "w" ∷ [] };
  revision = n;
}

abbrev pub files : Bytes → Files
files text = (codes "/w/a.txt", text) ∷ []

abbrev pub world : World memory
world = record { workspaces = (workspace_id, workspace 3) ∷ []; disk = files (codes "x\n") }

-- one line of a file is changed, and the diff of that has 46 bytes
abbrev pub proposal : Proposal
proposal = record {
  change_set = record {
    change_set_id = set_id;
    in_workspace = workspace_id;
    base_revision = [];
    changes =
        record {
          path = codes "a.txt";
          operation = modify;
          base_hash = codes "sha256:02";
          content = codes "y\n";
          target_path = [];
        }
        ∷ [];
  };
  actual_diff = record {
    diff_of = set_id;
    diff = [];
    diff_hash = codes "sha256:2e";
    diff_workspace = workspace_id;
  };
  base_revision = 3;
  planned = (codes "a.txt", write_file (codes "y\n")) ∷ [];
  applied = false;
  applying = false;
}

abbrev pub store : ProposalStore
store = (set_id, proposal) ∷ []

abbrev bound : Hub.ApplyRequest
bound = record {
  change_set = set_id;
  workspace = workspace_id;
  approval = codes "APR-1";
  approved_hash = codes "sha256:2e";
}

abbrev request : ApplyRequest
request = record {
  change_set_id = set_id;
  workspace_id = workspace_id;
  approval_id = codes "APR-1";
  approved_diff_hash = codes "sha256:2e";
}

abbrev pub result : ApplyResult
result = record {
  change_set_id = set_id;
  workspace_id = workspace_id;
  workspace_revision = 4;
  files = file_written (codes "a.txt") (codes "sha256:02") ∷ [];
}

abbrev applied : ℕ → Applied ApplyResult (World memory)
applied fail_after =
    apply_changes_on memory digest 0 fail_after (bound_approval bound) request store world

abbrev no_changes : Bytes → Option (Bytes × List Change)
no_changes json = none

abbrev uuids : ℕ → Uuid
uuids n = record {
  b0 = n;
  b1 = n;
  b2 = n;
  b3 = n;
  b4 = n;
  b5 = n;
  b6 = n;
  b7 = n;
  b8 = n;
  b9 = n;
  b10 = n;
  b11 = n;
  b12 = n;
  b13 = n;
  b14 = n;
  b15 = n;
}

abbrev desk : Desk memory digest 0
desk = record { store = store; world = world; draws = 0 }

abbrev bound_apply : Result (Bytes × Bytes) Hub.ApplyResult × Desk memory digest 0
bound_apply = apply_bound memory digest 0 no_changes uuids workspace_id bound desk

abbrev answer : Hub.ApplyResult
answer = record { applied_set = set_id; applied_workspace = workspace_id; revision = 4 }

-- The approved line is changed. Where the hook of the tests stops the apply behind its first file, it is not.
apply_test :
    ((applied 0).0 ≡ ok result)
    × ((applied 0).1.1.disk ≡ files (codes "y\n"))
    × ((applied 1).0 ≡ err apply_failed)
    × ((applied 1).1.1.disk ≡ files (codes "x\n"))
    × (bound_apply.0 ≡ ok answer)
unfolding check_id check_optional bound_approval apply_bound apply_changes_on apply_changes
    apply_claimed change_files conclude finish_claim Store.claim_for_apply Store.find Store.assign
    Store.abort_apply Store.mark_applied Ids.validate Ids.parse Ids.split Ids.known Ids.among
    Hex.decode Hex.encode Uuids.parse_uuid Uuids.version Uuids.variant Registry.mutate
    Registry.get_workspace Registry.find Registry.assign propose validate_change_set
    validate_change_conflicts draft_change set_plan read_text_file resolve_path trim_space clean
    split bytes_eq index_byte within_root rel join lookup insert erase render valid_utf8 hash_bytes
    unified_file unified_join split_lines cut lcs_ops walk table row last_row sort_by change_planned
    change_one plan_of place note_change decimal
apply_test = (refl, refl, refl, refl, refl)

apply_changes_on-Approved_example :
    Approved memory digest 0 0
      (bound_approval bound)
      request
      store
      world
      (applied 0).1.1.disk
      result
apply_changes_on-Approved_example =
    apply_changes_on-Approved memory digest 0 0 (bound_approval bound) request store world result
      apply_test.0

-- A roll back restores every file of a disk in memory.
restored :
    (b : Backup) (s : Files) (o : Option Bytes)
    → b.saved ≡ o
    → lookup (render b.absolute) (restore memory b s) ≡ b.saved
restored b s none e = rw e (removed_none (render b.absolute) s (lookup (render b.absolute) s) refl)
restored b s (some text) e = rw e (written_same (render b.absolute) text s)

memory-Restores : Restores memory lawful_memory
unfolding lawful_memory
memory-Restores b s = restored b s b.saved refl

apply_changes_on-keeps_example : lookup (codes "/w/a.txt") (applied 1).1.1.disk ≡ some (codes "x\n")
unfolding lawful_memory lookup bytes_eq
apply_changes_on-keeps_example =
    apply_changes_on-keeps memory digest 0 1 lawful_memory memory-Restores (codes "/w/a.txt")
      (short-IsNoStage (codes "/w/a.txt") refl) (bound_approval bound) request store world
      apply_failed apply_test.2

abbrev hub : Hub (Desk memory digest 0)
hub = record {
  last_work_item = codes "WI-1";
  last_bind = end;
  pending = none;
  pushed = [];
  sent = [];
  world = desk;
}

abbrev decide : Message
decide = record {
  kind = codes "approval.decide";
  message_id = codes "m1";
  body = some (field "decision" (str (codes "APPROVE")) end);
}

abbrev progress : Bytes → Option Envelope
progress stage = some (
    fresh_envelope [] [] event (
      tool_event (record {
        name = codes "workflow.progress";
        execution_id = [];
        body = some (field "stage" (str stage) end);
      })))

-- the user approves, and the server reports that it waits and that it is done
abbrev inputs : List Input
inputs =
    frame decide
    ∷ message (progress (codes "WAITING"))
    ∷ message (progress (codes "COMPLETED"))
    ∷ []

steps-keeps_example :
    (steps memory digest 0 no_changes uuids workspace_id
      (λ name content. true)
      inputs
      hub).world.world
    ≡ world
unfolding classify stage_of Json.lookup bytes_eq
steps-keeps_example =
    steps-keeps memory digest 0 no_changes uuids workspace_id (λ name content. true) inputs hub
      (refl, (refl, (refl, tt)))
