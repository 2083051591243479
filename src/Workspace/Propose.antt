-- ===== src/Workspace/Propose.antt =====
-- `Propose` of local-agent/internal/workspace/propose.go: from a change set to the diff that is reviewed
-- and the files that are planned. It reads the disk and does not change it.
use on_code.Prelude.{
  ℕ, Bool, false, not, ◌||◌, Option, none, some, List, [], ◌∷◌, ◌++◌, map, Bytes, Result, ok, err,
  ◌>>=◌, ◌>>◌, ensure, ◌==◌, if◌then◌else◌, is_empty, bytes_eq,
}
use on_code.Prelude.Decimal.{ℤ, pos, negsuc, atoi}
use on_code.Prelude.Paths.{FilePath, clean, render}
use on_code.Protocol.Errors.{
  Code, invalid_change_set, invalid_argument, workspace_stale, file_hash_mismatch,
}
use on_code.Protocol.Messages.{
  ChangeSet, FileChange, Operation, create, modify, delete, rename, other_operation, Refusal,
  validate_change_set,
}
use on_code.Diff.Unified.{unified_file, unified_join}
use on_code.Workspace.Conflicts.{validate_change_conflicts}
use on_code.Workspace.Disk.{Disk, Stat, found, missing, unknown}
use on_code.Workspace.Files.{clean_text, hash_bytes, is_directory, read_text_file}
use on_code.Workspace.Resolve.{Workspace, within_root, resolve_path, is_link}
use on_code.Workspace.Sorting.{sort_by}
use on_code.Workspace.Store.{PlannedFile, delete_file, write_file, Proposal}

-- the diff of a file
pub record Part : Type 0 where
  pub part_path : Bytes
  pub text : Bytes

-- `planned[p] = plan`
unfoldable pub set_plan :
    Bytes → PlannedFile → List (Bytes × PlannedFile) → List (Bytes × PlannedFile)
set_plan p plan [] = (p, plan) ∷ []
set_plan p plan ((q, old) ∷ planned) =
    if bytes_eq q p then (p, plan) ∷ planned else (q, old) ∷ set_plan p plan planned

-- what the loop over the changes has gathered
pub record Draft : Type 0 where
  pub parts : List Part
  pub planned : List (Bytes × PlannedFile)

abbrev pub add_part : Bytes → Bytes → PlannedFile → Draft → Draft
add_part p text plan d = record {
  parts = d.parts ++ record { part_path = p; text = text } ∷ [];
  planned = set_plan p plan d.planned;
}

-- the joined diffs in the order of their paths
unfoldable pub diff_text : List Part → Bytes
diff_text parts = unified_join (map (λ p. p.text) (sort_by (λ p. p.part_path) parts))

abbrev pub ok_or : {A : Type 0} → Code → Result Refusal A → Result Code A
ok_or e (ok a) = ok a
ok_or e (err r) = err e

-- the revision that a change set is based on
abbrev pub check_revision : Option ℤ → ℕ → Result Code (Unit {0})
check_revision none n = err invalid_argument
check_revision (some (pos m)) n = ensure (m == n) workspace_stale
check_revision (some (negsuc m)) n = err workspace_stale

module _ (D : Disk) (sha256 : Bytes → Bytes) where
  abbrev pub is_file_at : Stat → Bool
  is_file_at (found i) = not (is_directory i.kind)
  is_file_at missing = false
  is_file_at unknown = false

  abbrev pub linked_file : Workspace → D.State → Option Bytes → Bool
  linked_file ws s none = false
  linked_file ws s (some target) =
      if within_root ws.root (clean target) then is_file_at (D.stat s target) else false

  abbrev pub file_at_path : Workspace → D.State → Bytes → Stat → Bool
  file_at_path ws s p (found i) =
      if is_link i.kind then linked_file ws s (D.eval_symlinks s p) else is_file_at (found i)
  file_at_path ws s p missing = false
  file_at_path ws s p unknown = false

  abbrev pub exists_at : Workspace → D.State → Result Code FilePath → Bool
  exists_at ws s (err e) = false
  exists_at ws s (ok p) = file_at_path ws s (render p) (D.lstat s (render p))

  -- `existsFile`
  unfoldable pub exists_file : Workspace → D.State → Bytes → Bool
  exists_file ws s rel = exists_at ws s (resolve_path D ws s rel)

  -- `readExistingForChange`
  unfoldable pub read_existing : Workspace → D.State → Bytes → Bytes → ℕ → Result Code Bytes
  read_existing ws s rel base_hash max_bytes = do
    r ← read_text_file D sha256 ws s rel max_bytes
    ensure (is_empty base_hash || bytes_eq r.hash base_hash) file_hash_mismatch
    ok r.content

  -- a round of the loop over the changes, by the operation
  unfoldable pub draft_change :
      Workspace → D.State → ℕ → Operation → FileChange → Draft → Result Code Draft
  unfolding exists_file read_existing
  draft_change ws s max_bytes create c d = do
    let p = clean_text c.path
    _ ← resolve_path D ws s p
    ensure (not (exists_file ws s p)) invalid_change_set
    ok (add_part p (unified_file p [] c.content) (write_file c.content) d)
  draft_change ws s max_bytes modify c d = do
    let p = clean_text c.path
    old ← read_existing ws s p c.base_hash max_bytes
    ok (add_part p (unified_file p old c.content) (write_file c.content) d)
  draft_change ws s max_bytes delete c d = do
    let p = clean_text c.path
    old ← read_existing ws s p c.base_hash max_bytes
    ok (add_part p (unified_file p old []) delete_file d)
  draft_change ws s max_bytes rename c d = do
    let p = clean_text c.path
    let target = clean_text c.target_path
    _ ← resolve_path D ws s target
    ensure (not (exists_file ws s target)) invalid_change_set
    old ← read_existing ws s p c.base_hash max_bytes
    let content = if is_empty c.content then old else c.content
    ok (
        add_part target (unified_file target [] content) (write_file content)
          (add_part p (unified_file p old []) delete_file d))
  draft_change ws s max_bytes (other_operation t) c d = err invalid_change_set

  unfoldable pub draft_changes :
      Workspace → D.State → ℕ → List FileChange → Draft → Result Code Draft
  draft_changes ws s max_bytes [] d = ok d
  draft_changes ws s max_bytes (c ∷ cs) d = do
    next ← draft_change ws s max_bytes c.operation c d
    draft_changes ws s max_bytes cs next

  -- The proposal of a draft; its time of creation is not modelled.
  abbrev pub proposal_of : Workspace → ChangeSet → Draft → Proposal
  proposal_of ws cs d =
      let text = diff_text d.parts in
      record {
        change_set = record cs { in_workspace = ws.workspace_id };
        actual_diff = record {
          diff_of = cs.change_set_id;
          diff = text;
          diff_hash = hash_bytes sha256 text;
          diff_workspace = ws.workspace_id;
        };
        base_revision = ws.revision;
        planned = d.planned;
        applied = false;
        applying = false;
      }

  -- the tests in front of the loop
  unfoldable pub check_change_set : Workspace → ChangeSet → Result Code (Unit {0})
  check_change_set ws cs = do
    ok_or invalid_change_set (validate_change_set cs)
    ensure (is_empty cs.in_workspace || bytes_eq cs.in_workspace ws.workspace_id) invalid_argument
    if is_empty cs.base_revision then ok tt else check_revision (atoi cs.base_revision) ws.revision
    validate_change_conflicts clean_text cs.changes

  -- `Propose`
  unfoldable pub propose : Workspace → D.State → ChangeSet → ℕ → Result Code Proposal
  unfolding check_change_set draft_changes draft_change diff_text
  propose ws s cs max_bytes = do
    check_change_set ws cs
    d ← draft_changes ws s max_bytes cs.changes (record { parts = []; planned = [] })
    ok (proposal_of ws cs d)
