-- ===== src/Tools/Local/Runs.antt =====
-- The handlers build.run, test.run, git.status and git.diff (local-agent/internal/tools/build/build.go,
-- test/test.go and git/git.go). The runs of the programs and the JSON of results are parameters.
use on_code.Prelude.{
  ℕ, Bool, false, Option, none, some, List, Bytes, Result, ok, err, ◌>>=◌, ◌>>◌, if◌then◌else◌,
  is_empty,
}
use on_code.Git
use on_code.Maven
use on_code.Maven.{TestResult, BuildResult, timeout}
use on_code.Process
use on_code.Protocol.Errors
use on_code.Protocol.Errors.{
  Code, invalid_argument, build_tool_not_found, process_timeout, process_cancelled, build_failed,
  test_failed,
}
use on_code.Protocol.Json.{Value, boolean, lookup}
use on_code.Protocol.Messages.{ToolRequest, ToolResponse, Status, failed, cancelled, timed_out}
use on_code.Tools.{Outcome, Handler}
use on_code.Tools.Local.{
  Bench, arguments_of, argument, replies, refused, raised, outcome_of, success_response,
}
use on_code.Workspace.Disk.{Disk}
use on_code.Workspace.Registry.{get_workspace}
use on_code.Workspace.Resolve.{Workspace, resolve_path}

-- `mapStatus`
abbrev pub map_status : Maven.Status → Status
map_status timeout = timed_out
map_status Maven.Status.cancelled = cancelled
map_status _ = failed

-- the code of the error of a run that is no success, by the code of a failure
abbrev pub run_code : Code → Maven.Status → Code
run_code failure timeout = process_timeout
run_code failure Maven.Status.cancelled = process_cancelled
run_code failure _ = failure

-- The answer to a run, with its time.
unfoldable pub run_response : Bytes → Code → Maven.Status → ℕ → Option Value → ToolResponse
unfolding success_response
run_response call failure status ms result =
    let resp = record (success_response call result) { duration_ms = some ms } in
    if Maven.is_success status
    then resp
    else record resp { status = map_status status; error = Errors.new (run_code failure status) "" }

module _ (D : Disk) where
  -- The run of the first adapter that detects a workspace, if one does, with the time limit of a call; git in a folder; and the JSON
  -- of the results.
  pub record Programs : Type 0 where
    pub build_adapter : Option ℕ → Workspace → D.State → Option (Result Code Process.Result)
    pub test_adapter : Option ℕ → Workspace → D.State → Option (Result Code Process.Result)
    pub git : Workspace → D.State → List Bytes → Option Process.Result
    pub has_git : Workspace → D.State → Bool
    pub build_json : BuildResult → Option Value
    pub test_json : TestResult → Option Value
    pub status_json : Git.Status → Option Value
    pub diff_json : Git.DiffResult → Option Value

  abbrev pub ran_build :
      (BuildResult → Option Value) → ToolRequest → Option (Result Code Process.Result) → Outcome
  ran_build json req none =
      refused req build_tool_not_found "no build adapter detected for workspace"
  ran_build json req (some (err e)) = raised e
  ran_build json req (some (ok r)) =
      let result = Maven.build_result r in
      replies
        (run_response req.call_id build_failed result.build_status r.duration_ms (json result))

  abbrev pub ran_test :
      (TestResult → Option Value) → ToolRequest → Option (Result Code Process.Result) → Outcome
  ran_test json req none = refused req build_tool_not_found "no test adapter detected for workspace"
  ran_test json req (some (err e)) = raised e
  ran_test json req (some (ok r)) =
      let result = Maven.test_result r in
      replies (run_response req.call_id test_failed result.status r.duration_ms (json result))

  abbrev pub in_workspace : (Workspace → Outcome) → Result Code Workspace → Outcome
  in_workspace f (err e) = raised e
  in_workspace f (ok ws) = f ws

  abbrev pub staged_of : Option Value → Bool
  staged_of (some (boolean b)) = b
  staged_of _ = false

  -- the test of a path that git.diff is given
  abbrev pub path_checked : Workspace → D.State → Bytes → Result Code (Unit {0})
  path_checked ws s path =
      if is_empty path then ok tt else (do resolved ← resolve_path D ws s path; ok tt)

  module _ (k : Programs) where
    abbrev pub with_workspace : (Workspace → D.State → Outcome) → Handler (Bench D)
    with_workspace f req w =
        let id = argument "workspace_id" req in
        if is_empty id
        then (refused req invalid_argument "workspace_id required", w)
        else (in_workspace (λ ws. f ws w.world.disk) (get_workspace id w.world.workspaces), w)

    unfoldable pub run_build : Handler (Bench D)
    run_build req w =
        with_workspace (λ ws s. ran_build k.build_json req (k.build_adapter req.timeout_ms ws s))
          req w

    unfoldable pub run_tests : Handler (Bench D)
    run_tests req w =
        with_workspace (λ ws s. ran_test k.test_json req (k.test_adapter req.timeout_ms ws s)) req w

    unfoldable pub git_status : Handler (Bench D)
    git_status req w =
        with_workspace
          (λ ws s. outcome_of req k.status_json (Git.status (k.git ws s) (k.has_git ws s))) req w

    unfoldable pub git_diff : Handler (Bench D)
    git_diff req w =
        let path = argument "path" req in
        let staged = staged_of (lookup "staged" (arguments_of req)) in
        with_workspace
          (λ ws s.
            outcome_of req k.diff_json
              (do path_checked ws s path; Git.diff_of (k.git ws s) (k.has_git ws s) path staged))
          req w
