-- ===== src/Tools/Local/RunAnswers.antt =====
-- What the tools of Tools/Local/Runs answer: a valid response, or an error with a known code.
use on_code.Prelude.{ℕ, ◌≡◌, refl, true, Option, none, some, Bytes, Result, ok, err, ◌>>◌, is_empty}
use on_code.Git
use on_code.Maven
use on_code.Process
use on_code.Protocol.Errors
use on_code.Protocol.Errors.{
  Code, Error, invalid_argument, build_tool_not_found, process_timeout, process_cancelled,
  build_failed, test_failed,
}
use on_code.Protocol.Errors.Laws.{Describes, new-Describes}
use on_code.Protocol.Ids.Kinds
use on_code.Protocol.Json.{Value, lookup}
use on_code.Protocol.Messages.{
  ToolRequest, validate_response, check_id, check_error, check_failure, known_status,
}
use on_code.Tools.{failed_response, Outcome}
use on_code.Tools.Laws.{IsFair, IsFairHandler}
use on_code.Tools.Local.{Bench, arguments_of, argument, success_response, outcome_of}
use on_code.Tools.Local.Fair.{
  raised-IsFair, refused-IsFair, success-valid, outcome-IsFair, if-IsFair, argument_known,
}
use on_code.Tools.Local.Runs.{
  Programs, map_status, run_code, run_response, ran_build, ran_test, in_workspace, staged_of,
  path_checked, with_workspace, run_build, run_tests, git_status, git_diff,
}
use on_code.Workspace.Disk.{Disk}
use on_code.Workspace.Registry.{get_workspace}
use on_code.Workspace.Resolve.{Workspace}

run_code_known :
    (failure : Code) (s : Maven.Status)
    → Errors.known failure ≡ true
    → Errors.known (run_code failure s) ≡ true
unfolding Errors.known Errors.catalog
run_code_known failure Maven.Status.timeout h = refl
run_code_known failure Maven.Status.cancelled h = refl
run_code_known failure Maven.Status.success h = h
run_code_known failure Maven.Status.failed h = h

-- an error for a run has a known code
error_checked :
    (code : Code) (o : Option Error)
    → Describes code o
    → Errors.known code ≡ true
    → check_error o ≡ ok tt
error_checked code none d k = absurd (cc (d, k))
error_checked code (some e) d k = rw (d.1, k) refl

status_checked :
    (s : Maven.Status) (e : Option Error)
    → check_error e ≡ ok tt
    → (known_status (map_status s) ≡ true) × (check_failure (map_status s) e ≡ ok tt)
status_checked Maven.Status.timeout e h = (refl, refl)
status_checked Maven.Status.cancelled e h = (refl, refl)
status_checked Maven.Status.success e h = (refl, h)
status_checked Maven.Status.failed e h = (refl, h)

success_call : (call : Bytes) (v : Option Value) → (success_response call v).reply_id ≡ call
unfolding success_response failed_response
success_call call none = refl
success_call call (some v) = refl

run_response-valid :
    (call : Bytes) (failure : Code) (s : Maven.Status) (ms : ℕ) (v : Option Value)
    → check_id Kinds.call call ≡ ok tt
    → Errors.known failure ≡ true
    → validate_response (run_response call failure s ms v) ≡ ok tt
unfolding run_response validate_response
run_response-valid call failure Maven.Status.success ms v h k = success-valid call v h
run_response-valid call failure s ms v h k =
    let e = Errors.new (run_code failure s) "" in
    let checked = status_checked s e (
      error_checked (run_code failure s) e (new-Describes (run_code failure s) "")
        (run_code_known failure s k)) in
    rw (success_call call v, h) checked.1

build_known : Errors.known build_failed ≡ true
unfolding Errors.known Errors.catalog
build_known = refl

tests_known : Errors.known test_failed ≡ true
unfolding Errors.known Errors.catalog
tests_known = refl

tool_known : Errors.known build_tool_not_found ≡ true
unfolding Errors.known Errors.catalog
tool_known = refl

module _ (D : Disk) where
  found-IsFair :
      (req : ToolRequest) (f : Workspace → Outcome) (found : Result Code Workspace)
      → ((ws : Workspace) → IsFair (f ws))
      → IsFair (in_workspace D f found)
  found-IsFair req f (err e) h = raised-IsFair e
  found-IsFair req f (ok ws) h = h ws

  with_workspace-IsFair :
      (k : Programs D) (f : Workspace → D.State → Outcome) (req : ToolRequest) (w : Bench D)
      → check_id Kinds.call req.call_id ≡ ok tt
      → ((ws : Workspace) → IsFair (f ws w.world.disk))
      → IsFair (with_workspace D k f req w).0
  with_workspace-IsFair k f req w v h =
      let id = argument "workspace_id" req in
      if-IsFair (is_empty id) _ _ (refused-IsFair req _ _ v argument_known)
        (found-IsFair req (λ ws. f ws w.world.disk) (get_workspace id w.world.workspaces) h)

  build-IsFair :
      (k : Programs D) (req : ToolRequest) (r : Option (Result Code Process.Result))
      → check_id Kinds.call req.call_id ≡ ok tt
      → IsFair (ran_build D k.build_json req r)
  build-IsFair k req none v = refused-IsFair req _ _ v tool_known
  build-IsFair k req (some (err e)) v = raised-IsFair e
  build-IsFair k req (some (ok r)) v =
      run_response-valid req.call_id build_failed _ _ _ v build_known

  test-IsFair :
      (k : Programs D) (req : ToolRequest) (r : Option (Result Code Process.Result))
      → check_id Kinds.call req.call_id ≡ ok tt
      → IsFair (ran_test D k.test_json req r)
  test-IsFair k req none v = refused-IsFair req _ _ v tool_known
  test-IsFair k req (some (err e)) v = raised-IsFair e
  test-IsFair k req (some (ok r)) v = run_response-valid req.call_id test_failed _ _ _ v tests_known

  pub run_build-IsFair : (k : Programs D) → IsFairHandler (Bench D) (run_build D k)
  unfolding run_build
  run_build-IsFair k req w v =
      with_workspace-IsFair k
        (λ ws s. ran_build D k.build_json req (k.build_adapter req.timeout_ms ws s)) req w v
        (λ ws. build-IsFair k req (k.build_adapter req.timeout_ms ws w.world.disk) v)

  pub run_tests-IsFair : (k : Programs D) → IsFairHandler (Bench D) (run_tests D k)
  unfolding run_tests
  run_tests-IsFair k req w v =
      with_workspace-IsFair k
        (λ ws s. ran_test D k.test_json req (k.test_adapter req.timeout_ms ws s)) req w v
        (λ ws. test-IsFair k req (k.test_adapter req.timeout_ms ws w.world.disk) v)

  pub git_status-IsFair : (k : Programs D) → IsFairHandler (Bench D) (git_status D k)
  unfolding git_status
  git_status-IsFair k req w v =
      with_workspace-IsFair k
        (λ ws s. outcome_of req k.status_json (Git.status (k.git ws s) (k.has_git ws s))) req w v
        (λ ws.
          outcome-IsFair req k.status_json
            (Git.status (k.git ws w.world.disk) (k.has_git ws w.world.disk)) v)

  pub git_diff-IsFair : (k : Programs D) → IsFairHandler (Bench D) (git_diff D k)
  unfolding git_diff
  git_diff-IsFair k req w v =
      let path = argument "path" req in
      let staged = staged_of D (lookup "staged" (arguments_of req)) in
      let found : Workspace → D.State → Result Code Git.DiffResult = λ ws s. (do
        path_checked D ws s path
        Git.diff_of (k.git ws s) (k.has_git ws s) path staged) in
      with_workspace-IsFair k (λ ws s. outcome_of req k.diff_json (found ws s)) req w v
        (λ ws. outcome-IsFair req k.diff_json (found ws w.world.disk) v)
