-- ===== src/Session/Local.antt =====
-- The hub on the registered workspaces and the disk (local-agent/internal/idesession/apply.go): this fills
-- the record Wiring.
pub mod Quiet
pub mod Tests
use on_code.Prelude.{
  ℕ, suc, Bool, true, false, not, ◌||◌, ◌&&◌, Option, none, some, List, [], ◌∷◌, Bytes, codes,
  Result, ok, err, ◌>>=◌, ◌>>◌, ensure, if◌then◌else◌, is_empty, bytes_eq,
}
use on_code.Protocol.Errors.{Code, code_text, approval_required, approval_invalid}
use on_code.Protocol.Ids
use on_code.Protocol.Ids.{IdError}
use on_code.Protocol.Ids.Kinds
use on_code.Protocol.Ids.Uuids.{Uuid}
use on_code.Protocol.Json.{Fields}
use on_code.Protocol.Messages.{
  ChangeSet, FileChange, Operation, create, modify, delete, rename, other_operation, needs_base,
}
use on_code.Diff.Unified.{trim_slash}
use on_code.Session.Hub
use on_code.Session.Hub.{Prepared, Wiring}
use on_code.Session.Proposed.{Change, operation_of, parse_proposed}
use on_code.Workspace.Apply
use on_code.Workspace.Apply.{Applied}
use on_code.Workspace.Apply.Local
use on_code.Workspace.Apply.Local.{apply_changes_on}
use on_code.Workspace.Disk.{Disk}
use on_code.Workspace.Files.{ReadFileResult, read_text_file}
use on_code.Workspace.Propose.{propose}
use on_code.Workspace.Registry.{World, get_workspace}
use on_code.Workspace.Resolve.{Workspace}
use on_code.Workspace.Store.{Proposal, ProposalStore, put}

-- `boundApproval.Validate`, of the approval that is bound to a request
unfoldable pub bound_approval : Hub.ApplyRequest → Bytes → Bytes → Bytes → Result Code (Unit {0})
bound_approval bound approval set hash = do
  ensure (not (is_empty approval || is_empty set || is_empty hash)) approval_required
  ensure
      (bytes_eq approval bound.approval
        && bytes_eq set bound.change_set
        && bytes_eq hash bound.approved_hash)
      approval_invalid

-- the operation of a change, where none is a modification
unfoldable pub operation_or_modify : Bytes → Operation
operation_or_modify [] = modify
operation_or_modify (c ∷ s) = operation_of (c ∷ s)

-- The text of an error is its code.
abbrev pub text_of_code : Code → Bytes
text_of_code e = codes (code_text e)

module _ (D : Disk) (sha256 : Bytes → Bytes) (max_bytes : ℕ) where
  -- a round of the loop of `changeSetFromProposed`: the hash of a file that is there
  unfoldable pub file_change : Workspace → D.State → Change → Result Code FileChange
  file_change ws s c =
      let op = operation_or_modify c.operation in
      let change : FileChange = record {
        path = trim_slash c.path;
        operation = op;
        base_hash = [];
        content = c.content;
        target_path = trim_slash c.target_path;
      } in
      elim (needs_base op) [
        | false ↦ ok change
        | true ↦ do
          r ← read_text_file D sha256 ws s (trim_slash c.path) max_bytes
          ok (record change { base_hash = r.hash })
      ]

  unfoldable pub file_changes : Workspace → D.State → List Change → Result Code (List FileChange)
  unfolding file_change
  file_changes ws s [] = ok []
  file_changes ws s (c ∷ cs) = do
    first ← file_change ws s c
    rest ← file_changes ws s cs
    ok (first ∷ rest)

  -- `changeSetFromProposed`
  unfoldable pub change_set_from_proposed :
      Workspace → D.State → Bytes → List Change → Result Code ChangeSet
  unfolding file_changes
  change_set_from_proposed ws s id changes = do
    cs ← file_changes ws s changes
    ok (record {
      change_set_id = id;
      in_workspace = ws.workspace_id;
      base_revision = [];
      changes = cs;
    })

  -- What the hub works on: the proposals, the workspaces and the disk, and how many identifiers were drawn.
  pub record Desk : Type 0 where
    pub store : ProposalStore
    pub world : World D
    pub draws : ℕ

  abbrev pub prepared_of : Proposal → Prepared
  prepared_of p = record {
    change_set_id = p.change_set.change_set_id;
    workspace_id = p.change_set.in_workspace;
    diff = p.actual_diff.diff;
    diff_hash = p.actual_diff.diff_hash;
  }

  -- the proposal that `prepareStoredProposal` makes
  unfoldable pub stored_proposal : Workspace → Bytes → List Change → D.State → Result Code Proposal
  unfolding change_set_from_proposed
  stored_proposal ws id changes s = do
    cs ← change_set_from_proposed ws s id changes
    propose D sha256 ws s cs max_bytes

  abbrev pub stores : Desk → Result Code Proposal → Result Bytes Prepared × Desk
  stores l (err e) = (err (text_of_code e), l)
  stores l (ok p) = (ok (prepared_of p), record l { store = put p l.store })

  module _ (decode : Bytes → Option (Bytes × List Change)) (uuids : ℕ → Uuid)
      (default_workspace : Bytes) where
    abbrev pub or_given : Bytes → Result IdError Bytes → Bytes
    or_given id (ok made) = made
    or_given id (err e) = id

    -- the identifier of a change set: what is no identifier is replaced by a new one
    abbrev pub set_id : Bytes → Result IdError (Unit {0}) → Desk → Bytes × Desk
    set_id id (ok u) l = (id, l)
    set_id id (err e) l =
        (or_given id (Ids.new Kinds.change_set (uuids l.draws)), record l { draws = suc l.draws })

    -- `prepareStoredProposal`
    unfoldable pub prepare_stored : Bytes → List Change → Desk → Result Bytes Prepared × Desk
    unfolding stored_proposal
    prepare_stored id changes l = elim (get_workspace default_workspace l.world.workspaces) [
      | err e ↦ (err (text_of_code e), l)
      | ok ws ↦
          let (set, drawn) = set_id id (Ids.validate Kinds.change_set id) l in
          stores drawn (stored_proposal ws set changes drawn.world.disk)
    ]

    abbrev pub store_parsed : Option (Bytes × List Change) → Desk → Result Bytes Prepared × Desk
    store_parsed none l = (err (codes "proposed changes json"), l)
    store_parsed (some (id, changes)) l =
        prepare_stored (if is_empty id then codes "CS-unknown" else id) changes l

    -- the preparation of a code proposal: the changes are decoded, and their proposal is stored
    unfoldable pub prepare : Bytes → Bytes → Desk → Result Bytes Prepared × Desk
    unfolding prepare_stored parse_proposed
    prepare json workspace l = store_parsed (parse_proposed decode json) l

    abbrev pub request_of : Hub.ApplyRequest → Apply.ApplyRequest
    request_of r = record {
      change_set_id = r.change_set;
      workspace_id = r.workspace;
      approval_id = r.approval;
      approved_diff_hash = r.approved_hash;
    }

    abbrev pub answer_of : Result Code Local.ApplyResult → Result (Bytes × Bytes) Hub.ApplyResult
    answer_of (err e) = err (text_of_code e, text_of_code e)
    answer_of (ok r) = ok (record {
      applied_set = r.change_set_id;
      applied_workspace = r.workspace_id;
      revision = r.workspace_revision;
    })

    unfoldable pub apply_bound :
        Hub.ApplyRequest → Desk → Result (Bytes × Bytes) Hub.ApplyResult × Desk
    unfolding bound_approval
    apply_bound r l =
        let (result, (store, world)) =
          apply_changes_on D sha256 max_bytes 0 (bound_approval r) (request_of r) l.store l.world in
        (answer_of result, record l { store = store; world = world })

    -- the hub that has workspaces, proposals, a stream that takes what `accepts` says, and an IDE
    abbrev pub local_wiring : (Bytes → Fields → Bool) → Wiring Desk
    local_wiring accepts = record {
      pushes = true;
      connected = true;
      accepts = accepts;
      default_workspace = default_workspace;
      registered = true;
      prepare = prepare;
      apply = apply_bound;
    }
