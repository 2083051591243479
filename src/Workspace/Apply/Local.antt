-- ===== src/Workspace/Apply/Local.antt =====
-- `ApplyChanges` of local-agent/internal/workspace/apply.go on the registered workspaces and the disk: what
-- runs under Mutate is the test of the proposal against the files and the change of the files.
pub mod Effects
use on_code.Prelude.{
  ℕ, ◌+◌, Bool, true, false, not, List, [], ◌∷◌, map, Bytes, Result, ok, err, ◌>>=◌, ◌>>◌, ensure,
  if◌then◌else◌, bytes_eq,
}
use on_code.Protocol.Errors.{Code, file_hash_mismatch, workspace_file_changed, diff_mismatch}
use on_code.Workspace.Apply.{ApplyRequest, Applied, apply_changes}
use on_code.Workspace.Apply.Files.{plan_of, change_planned}
use on_code.Workspace.Disk.{Disk}
use on_code.Workspace.Files.{hash_bytes}
use on_code.Workspace.Propose.{propose}
use on_code.Workspace.Registry.{World, mutate}
use on_code.Workspace.Resolve.{Workspace}
use on_code.Workspace.Sorting.{sort_by}
use on_code.Workspace.Store.{PlannedFile, delete_file, write_file, Proposal, ProposalStore}

-- ApplyFileResult
pub data FileResult : Type 0 where
  file_written : Bytes → Bytes → FileResult
  file_deleted : Bytes → FileResult

pub record ApplyResult : Type 0 where
  pub change_set_id : Bytes
  pub workspace_id : Bytes
  pub workspace_revision : ℕ
  pub files : List FileResult

-- a change of the files since the proposal has a code of its own
abbrev pub changed_since : Result Code Proposal → Result Code Proposal
changed_since (err file_hash_mismatch) = err workspace_file_changed
changed_since r = r

abbrev pub planned_paths : List (Bytes × PlannedFile) → List Bytes
planned_paths planned = sort_by (λ p. p) (map (λ p. p.0) planned)

module _ (D : Disk) (sha256 : Bytes → Bytes) (max_bytes fail_after : ℕ) where
  abbrev pub file_result : PlannedFile → Bytes → FileResult
  file_result delete_file p = file_deleted p
  file_result (write_file text) p = file_written p (hash_bytes sha256 text)

  abbrev pub file_results : List (Bytes × PlannedFile) → List Bytes → List FileResult
  file_results planned [] = []
  file_results planned (p ∷ paths) = file_result (plan_of p planned) p ∷ file_results planned paths

  -- the proposal again, on the files as they are now
  unfoldable pub revalidate : Proposal → Workspace → D.State → Result Code (Unit {0})
  revalidate prop ws s = do
    fresh ← changed_since (propose D sha256 ws s prop.change_set max_bytes)
    ensure (bytes_eq fresh.actual_diff.diff_hash prop.actual_diff.diff_hash) diff_mismatch

  abbrev pub counted :
      Bytes
      → Proposal
      → List Bytes
      → Workspace
      → Result Code (Unit {0}) × D.State
      → Result Code ApplyResult × (Workspace × D.State)
  counted id prop paths ws (err e, s) = (err e, (ws, s))
  counted id prop paths ws (ok u, s) =
      let next : Workspace = record ws { revision = ws.revision + 1 } in
      (
        ok (record {
          change_set_id = id;
          workspace_id = ws.workspace_id;
          workspace_revision = next.revision;
          files = file_results prop.planned paths;
        }),
        (next, s),
      )

  abbrev pub change_valid :
      Bytes
      → Proposal
      → Workspace
      → D.State
      → Result Code (Unit {0})
      → Result Code ApplyResult × (Workspace × D.State)
  change_valid id prop ws s (err e) = (err e, (ws, s))
  change_valid id prop ws s (ok u) =
      let paths = planned_paths prop.planned in
      counted id prop paths ws (change_planned D ws prop.planned fail_after paths s)

  -- the function that runs under Mutate
  unfoldable pub change_workspace :
      Bytes → Proposal → Workspace → D.State → Result Code ApplyResult × (Workspace × D.State)
  unfolding revalidate
  change_workspace id prop ws s = change_valid id prop ws s (revalidate prop ws s)

  -- `ApplyChanges`, with its validator of approvals
  unfoldable pub apply_changes_on :
      (Bytes → Bytes → Bytes → Result Code (Unit {0}))
      → ApplyRequest
      → ProposalStore
      → World D
      → Applied ApplyResult (World D)
  unfolding change_workspace
  apply_changes_on approve req =
      apply_changes approve
        (λ prop. mutate D req.workspace_id (change_workspace req.change_set_id prop)) req
