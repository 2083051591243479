-- ===== src/Tools/Local/Files.antt =====
-- The handlers of local-agent/internal/tools/workspace/tools.go that read: workspace.read_file,
-- workspace.read_files and workspace.search. Package encoding/json, which writes the results, is a parameter.
use on_code.Prelude.{
  ℕ, Bool, true, false, ◌&&◌, Option, none, some, List, [], ◌∷◌, Bytes, codes, Result, ok, err,
  ◌>>=◌, ltb, ◌==◌, if◌then◌else◌, is_empty, bytes_eq,
}
use on_code.Protocol.Errors
use on_code.Protocol.Errors.{
  Code, Error, invalid_argument, internal_error, workspace_file_not_found,
}
use on_code.Protocol.Json.{Value, str, array, Items, nil, item, lookup}
use on_code.Protocol.Messages.{ToolRequest, ToolResponse, Status, failed}
use on_code.Tools.{Outcome, Handler, failed_response}
use on_code.Tools.Local.{Bench, arguments_of, argument, replies, refused, outcome_of, raised}
use on_code.Workspace.Disk.{Disk}
use on_code.Workspace.Files.{
  ReadFileResult, Entry, read_entry, failed_entry, ReadFilesResult, read_text_file, read_text_files,
  overall_status,
}
use on_code.Workspace.Hits.{
  Mode, no_mode, all_modes, by_name, by_path, by_content, other_mode, Options, Hits, Forest,
}
use on_code.Workspace.Registry.{get_workspace}
use on_code.Workspace.Resolve.{Workspace}
use on_code.Workspace.Search.{search_workspace}

-- the strings of a list, if all of its elements are strings
unfoldable pub strings_of : Items → Option (List Bytes)
strings_of nil = some []
strings_of (item (str s) r) = elim (strings_of r) [ none ↦ none | some ss ↦ some (s ∷ ss) ]
strings_of (item v r) = none

-- `stringSliceArg`; its error is `none`
unfoldable pub string_slice_arg : Option Value → Option (List Bytes)
unfolding strings_of
string_slice_arg (some (array nil)) = none
string_slice_arg (some (array (item v r))) = strings_of (item v r)
string_slice_arg _ = none

-- the error of a file that was not read
abbrev pub entry_error : Entry → Option Error
entry_error (read_entry r) = none
entry_error (failed_entry p code) = Errors.new code ""

abbrev pub first_error : List Entry → Option Error
first_error [] = none
first_error (e ∷ es) = entry_error e

abbrev pub or_not_found : Option Error → Option Error
or_not_found none = Errors.new workspace_file_not_found "all paths failed"
or_not_found (some e) = some e

abbrev pub is_failed : Status → Bool
is_failed failed = true
is_failed _ = false

-- the answer to workspace.read_files, with the error of the first file where every one failed
unfoldable pub files_response : Bytes → ReadFilesResult → Option Value → ToolResponse
files_response call r none = failed_response call internal_error "marshal result"
files_response call r (some v) = record {
  reply_id = call;
  status = overall_status r;
  reply = some v;
  error =
      if is_failed (overall_status r) && (r.failures == r.total) && ltb 0 r.total
      then or_not_found (first_error r.files)
      else none;
  duration_ms = none;
}

-- SearchMode(text)
unfoldable pub mode_of_text : Bytes → Mode
mode_of_text text =
    if is_empty text
    then no_mode
    else if bytes_eq text (codes "all")
    then all_modes
    else if bytes_eq text (codes "name")
    then by_name
    else if bytes_eq text (codes "path")
    then by_path
    else if bytes_eq text (codes "content")
    then by_content
    else other_mode text

module _ (D : Disk) (sha256 lower : Bytes → Bytes) where
  -- The limits of the agent, the tree of files under a workspace, and how results are written as JSON.
  pub record Reading : Type 0 where
    pub max_bytes : ℕ
    pub excludes : List Bytes
    pub max_hits : ℕ
    pub tree : Workspace → D.State → Forest
    pub file_json : ReadFileResult → Option Value
    pub files_json : ReadFilesResult → Option Value
    pub hits_json : Hits → Option Value

  module _ (k : Reading) where
    unfoldable pub read_file : Handler (Bench D)
    read_file req w =
        let id = argument "workspace_id" req in
        let path = argument "path" req in
        let found = (do
          ws ← get_workspace id w.world.workspaces
          read_text_file D sha256 ws w.world.disk path k.max_bytes) in
        if is_empty id
        then (refused req invalid_argument "workspace_id required", w)
        else if is_empty path
        then (refused req invalid_argument "path required", w)
        else (outcome_of req k.file_json found, w)

    abbrev pub files_outcome : ToolRequest → Result Code ReadFilesResult → Outcome
    files_outcome req (err e) = raised e
    files_outcome req (ok r) = replies (files_response req.call_id r (k.files_json r))

    unfoldable pub read_paths : ToolRequest → Option (List Bytes) → Bench D → Outcome
    unfolding files_response
    read_paths req none w = refused req invalid_argument "paths required"
    read_paths req (some paths) w = files_outcome req (do
      ws ← get_workspace (argument "workspace_id" req) w.world.workspaces
      read_text_files D sha256 ws w.world.disk paths k.max_bytes)

    unfoldable pub read_files : Handler (Bench D)
    unfolding string_slice_arg
    read_files req w =
        if is_empty (argument "workspace_id" req)
        then (refused req invalid_argument "workspace_id required", w)
        else (read_paths req (string_slice_arg (lookup "paths" (arguments_of req))) w, w)

    abbrev default_excludes : List Bytes
    default_excludes =
        codes ".git" ∷ codes "target" ∷ codes "node_modules" ∷ codes "dist" ∷ codes "build" ∷ []

    abbrev pub or_default : List Bytes → List Bytes
    or_default [] = default_excludes
    or_default (d ∷ ds) = d ∷ ds

    abbrev pub all_if_none : Mode → Mode
    all_if_none no_mode = all_modes
    all_if_none m = m

    -- DefaultSearchOptions with the limits of the agent
    abbrev pub search_options : Bytes → Bytes → Options
    search_options query mode = record {
      query = query;
      mode = all_if_none (mode_of_text mode);
      exclude = some (or_default k.excludes);
      max_results = if ltb 0 k.max_hits then k.max_hits else 200;
      max_bytes = k.max_bytes;
      max_scan = 524288;
    }

    unfoldable pub search : Handler (Bench D)
    search req w =
        let id = argument "workspace_id" req in
        let found = (do
          ws ← get_workspace id w.world.workspaces
          search_workspace D lower ws w.world.disk
              (search_options (argument "query" req) (argument "mode" req))
              (k.tree ws w.world.disk)) in
        if is_empty id
        then (refused req invalid_argument "workspace_id required", w)
        else (outcome_of req k.hits_json found, w)
