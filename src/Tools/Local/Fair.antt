-- ===== src/Tools/Local/Fair.antt =====
-- The handlers of the tools owe the dispatcher valid answers.
use on_code.Prelude.{
  suc, ◌≡◌, ◌<◌, ◌+◌, refl, Bool, true, false, ◌&&◌, ◌||◌, ◌==◌, ltb, Option, none, some, List, [],
  ◌∷◌, Bytes, String, Result, ok, err, ◌>>=◌, arith, if◌then◌else◌, is_empty,
}
use on_code.Protocol.Errors
use on_code.Protocol.Errors.{Code, Error}
use on_code.Protocol.Errors.Laws.{Describes, new-Describes}
use on_code.Protocol.Ids.Kinds
use on_code.Protocol.Json.{Value, lookup}
use on_code.Protocol.Messages.{
  ToolRequest, ChangeSet, validate_response, check_id, check_error, check_failure, known_status,
}
use on_code.Tools.{Outcome, Handler, protocol_error, plain_error}
use on_code.Tools.Laws.{IsFair, IsFairHandler, failed_response-valid}
use on_code.Tools.Local.{
  Bench, arguments_of, argument, refused, raised, success_response, outcome_of,
}
use on_code.Tools.Local.Files
use on_code.Tools.Local.Files.{
  Reading, read_file, read_files, read_paths, files_outcome, string_slice_arg, search,
  files_response, or_not_found, first_error,
}
use on_code.Tools.Local.Changes.{
  Writing, ParseError, bad_argument, of_protocol, stored, proposed_with, parse_proposed_change_set,
  propose_changes, apply_request, apply_changes_tool,
}
use on_code.Policy.{local_approval}
use on_code.Workspace.Apply.Local.{apply_changes_on}
use on_code.Workspace.Store.{Proposal}
use on_code.Workspace.Disk.{Disk}
use on_code.Workspace.Files.{
  Entry, read_entry, failed_entry, ReadFilesResult, overall_status, read_text_files,
}
use on_code.Workspace.Resolve.{Workspace}
use on_code.Workspace.Registry.{get_workspace}
use on_code.Workspace.Files.Counts.{read_text_files-total}

abbrev CheckMade : Option Error → Type 0
CheckMade none = Unit
CheckMade (some e) = Errors.known e.code ≡ true

-- an error made from a code has a code that the catalog has
made_known : (code : Code) (o : Option Error) → Describes code o → CheckMade o
made_known code none d = tt
made_known code (some e) d = rw d.1 d.0

raised_by :
    (code : Code) (o : Option Error)
    → Describes code o
    → IsFair (record {
      response = none;
      failure = some (elim o [ none ↦ plain_error "" | some e ↦ protocol_error e ]);
    })
raised_by code none d = tt
raised_by code (some e) d = rw d.1 d.0

pub raised-IsFair : (code : Code) → IsFair (raised code)
unfolding raised
raised-IsFair code = raised_by code (Errors.new code "") (new-Describes code "")

pub refused-IsFair :
    (req : ToolRequest) (code : Code) (msg : String)
    → check_id Kinds.call req.call_id ≡ ok tt
    → Errors.known code ≡ true
    → IsFair (refused req code msg)
unfolding refused
refused-IsFair req code msg h k = failed_response-valid req.call_id code msg h k

pub success-valid :
    (call : Bytes) (v : Option Value)
    → check_id Kinds.call call ≡ ok tt
    → validate_response (success_response call v) ≡ ok tt
unfolding success_response Errors.known Errors.catalog
success-valid call none h = failed_response-valid call Errors.internal_error _ h refl
success-valid call (some v) h = unfold validate_response in rw h refl

pub outcome-IsFair :
    {R : Type 0} (req : ToolRequest) (json : R → Option Value) (r : Result Code R)
    → check_id Kinds.call req.call_id ≡ ok tt
    → IsFair (outcome_of req json r)
unfolding outcome_of
outcome-IsFair req json (err e) h = raised-IsFair e
outcome-IsFair req json (ok r) h = success-valid req.call_id (json r) h

pub if-IsFair :
    {W : Type 0} (b : Bool) (one other : Outcome × W)
    → IsFair one.0
    → IsFair other.0
    → IsFair (if b then one else other).0
if-IsFair true one other h k = h
if-IsFair false one other h k = k

pub argument_known : Errors.known Errors.invalid_argument ≡ true
unfolding Errors.known Errors.catalog
argument_known = refl

-- the error of an answer whose every file failed has a known code
or_not_found_known :
    (code : Code) (o : Option Error) → Describes code o → check_error (or_not_found o) ≡ ok tt
unfolding Errors.known Errors.catalog Errors.new
or_not_found_known code none d = refl
or_not_found_known code (some e) d = rw (d.1, d.0) refl

first_error_known : (es : List Entry) → check_error (or_not_found (first_error es)) ≡ ok tt
unfolding Errors.known Errors.catalog Errors.new
first_error_known [] = refl
first_error_known (read_entry r ∷ es) = refl
first_error_known (failed_entry p code ∷ es) =
    or_not_found_known code (Errors.new code "") (new-Describes code "")

status_known : (r : ReadFilesResult) → known_status (overall_status r) ≡ true
unfolding overall_status
status_known r = ground arith

-- an error stands with a failure
failure_checked :
    (r : ReadFilesResult) (e : Option Error)
    → check_error e ≡ ok tt
    → r.successes + r.failures ≡ r.total
    → 0 < r.total
    → check_failure (overall_status r) (
        if Files.is_failed (overall_status r) && (r.failures == r.total) && ltb 0 r.total
        then e
        else none)
      ≡ ok tt
unfolding overall_status
failure_checked r e h k p = ground (arith, h, k, p)

files_response-valid :
    (call : Bytes) (r : ReadFilesResult) (v : Option Value)
    → check_id Kinds.call call ≡ ok tt
    → r.successes + r.failures ≡ r.total
    → 0 < r.total
    → validate_response (files_response call r v) ≡ ok tt
unfolding files_response Errors.known Errors.catalog validate_response
files_response-valid call r none h e p = failed_response-valid call Errors.internal_error _ h refl
files_response-valid call r (some v) h e p =
    rw (h, status_known r) (failure_checked r _ (first_error_known r.files) e p)

module _ (D : Disk) (sha256 lower : Bytes → Bytes) where
  abbrev pub Fair : Handler (Bench D) → Type 0
  Fair h = IsFairHandler (Bench D) h

  pub read_file-IsFair : (k : Reading D sha256 lower) → Fair (read_file D sha256 lower k)
  unfolding read_file
  read_file-IsFair k req w v =
      if-IsFair (is_empty (argument "workspace_id" req)) _ _
        (refused-IsFair req _ _ v argument_known)
        (if-IsFair (is_empty (argument "path" req)) _ _ (refused-IsFair req _ _ v argument_known)
          (outcome-IsFair req k.file_json _ v))

  pub search-IsFair : (k : Reading D sha256 lower) → Fair (search D sha256 lower k)
  unfolding search
  search-IsFair k req w v =
      if-IsFair (is_empty (argument "workspace_id" req)) _ _
        (refused-IsFair req _ _ v argument_known) (outcome-IsFair req k.hits_json _ v)

  files_outcome-IsFair :
      (k : Reading D sha256 lower) (req : ToolRequest) (ws : Workspace) (s : D.State)
      (paths : List Bytes) (r : Result Code ReadFilesResult)
      → check_id Kinds.call req.call_id ≡ ok tt
      → read_text_files D sha256 ws s paths k.max_bytes ≡ r
      → IsFair (files_outcome D sha256 lower k req r)
  files_outcome-IsFair k req ws s paths (err e) v h = raised-IsFair e
  files_outcome-IsFair k req ws s paths (ok r) v h =
      let (all, some_paths) = read_text_files-total D sha256 ws s k.max_bytes paths r h in
      files_response-valid req.call_id r (k.files_json r) v all some_paths

  files_found-IsFair :
      (k : Reading D sha256 lower) (req : ToolRequest) (found : Result Code Workspace) (s : D.State)
      (paths : List Bytes)
      → check_id Kinds.call req.call_id ≡ ok tt
      → IsFair (
          files_outcome D sha256 lower k req
            (found >>= λ ws. read_text_files D sha256 ws s paths k.max_bytes))
  files_found-IsFair k req (err e) s paths v = raised-IsFair e
  files_found-IsFair k req (ok ws) s paths v =
      files_outcome-IsFair k req ws s paths (read_text_files D sha256 ws s paths k.max_bytes) v refl

  paths-IsFair :
      (k : Reading D sha256 lower) (req : ToolRequest) (paths : Option (List Bytes)) (w : Bench D)
      → check_id Kinds.call req.call_id ≡ ok tt
      → IsFair (read_paths D sha256 lower k req paths w)
  unfolding read_paths
  paths-IsFair k req none w v = refused-IsFair req _ _ v argument_known
  paths-IsFair k req (some paths) w v =
      files_found-IsFair k req (get_workspace (argument "workspace_id" req) w.world.workspaces)
        w.world.disk paths v

  pub read_files-IsFair : (k : Reading D sha256 lower) → Fair (read_files D sha256 lower k)
  unfolding read_files
  read_files-IsFair k req w v =
      if-IsFair (is_empty (argument "workspace_id" req)) _ _
        (refused-IsFair req _ _ v argument_known)
        (paths-IsFair k req (string_slice_arg (lookup "paths" (arguments_of req))) w v)

  stored-IsFair :
      (k : Writing D sha256) (req : ToolRequest) (w : Bench D) (p : Result Code Proposal)
      → check_id Kinds.call req.call_id ≡ ok tt
      → IsFair (stored D sha256 k req w p).0
  stored-IsFair k req w (err e) v = raised-IsFair e
  stored-IsFair k req w (ok p) v = outcome-IsFair req k.proposal_json (ok p) v

  proposed-IsFair :
      (k : Writing D sha256) (req : ToolRequest) (w : Bench D) (cs : Result ParseError ChangeSet)
      → check_id Kinds.call req.call_id ≡ ok tt
      → IsFair (proposed_with D sha256 k req w cs).0
  proposed-IsFair k req w (err bad_argument) v = refused-IsFair req _ _ v argument_known
  proposed-IsFair k req w (err (of_protocol e)) v = raised-IsFair e
  proposed-IsFair k req w (ok cs) v = stored-IsFair k req w _ v

  pub propose-IsFair : (k : Writing D sha256) → Fair (propose_changes D sha256 k)
  unfolding propose_changes
  propose-IsFair k req w v =
      proposed-IsFair k req (record w { draws = suc w.draws })
        (parse_proposed_change_set D sha256 k w req.arguments) v

  pub apply-IsFair : (k : Writing D sha256) → Fair (apply_changes_tool D sha256 k)
  unfolding apply_changes_tool
  apply-IsFair k req w v =
      let done =
        apply_changes_on D sha256 k.max_bytes 0 local_approval (apply_request D sha256 k req)
          w.proposals w.world in
      if-IsFair (is_empty (argument "change_set_id" req) || is_empty (argument "workspace_id" req))
        _ _ (refused-IsFair req _ _ v argument_known) (outcome-IsFair req k.applied_json done.0 v)
