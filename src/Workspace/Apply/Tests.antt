-- ===== src/Workspace/Apply/Tests.antt =====
-- Examples of applies (local-agent/internal/workspace/apply.go).
use on_code.Prelude.{
  ℕ, ◌+◌, ◌≡◌, refl, false, [], ◌∷◌, Bytes, codes, Result, ok, err, bytes_eq, index_byte,
}
use on_code.Prelude.Space.{trim_space}
use on_code.Protocol.Errors.{Code, apply_failed, diff_mismatch}
use on_code.Protocol.Ids
use on_code.Protocol.Ids.Hex
use on_code.Protocol.Ids.Uuids
use on_code.Workspace.Apply.{
  ApplyRequest, Ends, change_files, apply_claimed, conclude, finish_claim, apply_changes,
  apply_changes-EndsIn,
}
use on_code.Workspace.Store.{
  Proposal, ProposalStore, find, assign, claim_for_apply, abort_apply, mark_applied,
}
use on_code.Workspace.Store.Claims.{phase, free, finished}

abbrev id : Bytes
id = codes "CHG-018bcfe5-6800-7708-890a-0b0c0d0e0fff"

abbrev store : ProposalStore
store =
    (
      id,
      record {
        change_set = record {
          change_set_id = id;
          in_workspace = codes "WS-1";
          base_revision = [];
          changes = [];
        };
        actual_diff = record {
          diff_of = id;
          diff = [];
          diff_hash = codes "h";
          diff_workspace = [];
        };
        base_revision = 3;
        planned = [];
        applied = false;
        applying = false;
      },
    )
    ∷ []

abbrev request : Bytes → ApplyRequest
request hash = record {
  change_set_id = id;
  workspace_id = codes "WS-1";
  approval_id = codes "APR-1";
  approved_diff_hash = hash;
}

abbrev any_approval : Bytes → Bytes → Bytes → Result Code (Unit {0})
any_approval approval change_set hash = ok tt

-- a change of the files that works, and one that fails
abbrev count : Proposal → ℕ → Result Code ℕ × ℕ
count p n = (ok (n + 1), n + 1)

abbrev fail : Proposal → ℕ → Result Code ℕ × ℕ
fail p n = (err apply_failed, n)

apply_changes-EndsIn_example :
    Ends any_approval count id id store
      (apply_changes any_approval count (request (codes "h")) store 7)
apply_changes-EndsIn_example =
    apply_changes-EndsIn any_approval count (request (codes "h")) id store 7

-- the apply of an approved diff, of another diff, and one whose files cannot be changed
apply_changes_test :
    (phase id (apply_changes any_approval count (request (codes "h")) store 7).1.0 ≡ finished)
    × ((apply_changes any_approval count (request (codes "x")) store 7).0 ≡ err diff_mismatch)
    × (phase id (apply_changes any_approval fail (request (codes "h")) store 7).1.0 ≡ free)
unfolding apply_changes apply_claimed change_files conclude finish_claim find assign claim_for_apply
    abort_apply mark_applied Ids.validate Ids.parse Ids.split trim_space index_byte Ids.known
    Ids.among bytes_eq Uuids.parse_uuid Hex.decode Uuids.version Uuids.variant
apply_changes_test = (refl, refl, refl)
