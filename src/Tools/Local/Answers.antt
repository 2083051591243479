-- ===== src/Tools/Local/Answers.antt =====
-- What the agent's own tools answer through the dispatcher.
use on_code.Prelude.{
  ℕ, ◌≡◌, refl, Bool, Bool-cases, inl, inr, ◌||◌, Option, some, Bytes, Result, ok, err, is_empty,
}
use on_code.Policy.{local_approval}
use on_code.Protocol.Errors.{Code, invalid_argument}
use on_code.Protocol.Ids.Kinds
use on_code.Protocol.Json.{Value}
use on_code.Protocol.Messages.{ToolRequest, ToolResponse, validate_response, check_id}
use on_code.Tools.{failed_response, State, dispatch}
use on_code.Tools.Laws.{IsFairRegistry, dispatch-valid}
use on_code.Tools.Local.{Bench, argument, replies, refused, raised, outcome_of}
use on_code.Tools.Local.Fair.{
  success-valid, read_file-IsFair, read_files-IsFair, search-IsFair, propose-IsFair, apply-IsFair,
}
use on_code.Tools.Local.Files.{Reading}
use on_code.Tools.Local.Changes.{Writing, apply_request, apply_changes_tool}
use on_code.Tools.Local.Runs.{Programs}
use on_code.Tools.Local.System.{Identity, ping, get_capabilities, agent_tools}
use on_code.Workspace.Apply.Local.{ApplyResult, apply_changes_on}
use on_code.Workspace.Apply.Local.Effects.{Approved, apply_changes_on-Approved}
use on_code.Workspace.Disk.{Disk}
use on_code.Tools.Local.RunAnswers.{
  run_build-IsFair, run_tests-IsFair, git_status-IsFair, git_diff-IsFair,
}

-- a refusal has no result
no_reply :
    (req : ToolRequest) (resp : ToolResponse) (v : Value)
    → refused req invalid_argument "change_set_id and workspace_id required" ≡ replies resp
    → resp.reply ≡ some v
    → ⊥
unfolding refused failed_response
no_reply req resp v h e = cc

-- an answer that has a result is one to a result
result_lem :
    {R : Type 0} (req : ToolRequest) (json : R → Option Value) (x : Result Code R)
    (resp : ToolResponse) (v : Value)
    → outcome_of req json x ≡ replies resp
    → resp.reply ≡ some v
    → (r : R) × (x ≡ ok r)
unfolding outcome_of raised
result_lem req json (err e) resp v h g = cc
result_lem req json (ok r) resp v h g = (r, refl)

module _ (D : Disk) (sha256 lower : Bytes → Bytes) where
  agent_tools-IsFair :
      (i : Identity) (r : Reading D sha256 lower) (w : Writing D sha256) (p : Programs D)
      → IsFairRegistry (Bench D) (agent_tools D sha256 lower i r w p)
  unfolding agent_tools ping get_capabilities
  agent_tools-IsFair i r w p = (
    (λ req s v. success-valid req.call_id _ v),
    (
      (λ req s v. success-valid req.call_id _ v),
      (
        read_file-IsFair D sha256 lower r,
        (
          read_files-IsFair D sha256 lower r,
          (
            search-IsFair D sha256 lower r,
            (
              propose-IsFair D sha256 lower w,
              (
                apply-IsFair D sha256 lower w,
                (
                  run_build-IsFair D p,
                  (run_tests-IsFair D p, (git_status-IsFair D p, (git_diff-IsFair D p, tt))),
                ),
              ),
            ),
          ),
        ),
      ),
    ),
  )

  -- Every call of the agent's own tools is answered by a valid response, if it has a valid identifier: whatever
  -- tool it names, whatever its arguments are, and whether the tool succeeds, fails, or the files, the
  -- programs or the JSON fail it.
  pub agent_tools-valid :
      (i : Identity) (r : Reading D sha256 lower) (w : Writing D sha256) (p : Programs D)
      (audited : Bool) (ms : ℕ) (req : ToolRequest) (s : State (Bench D))
      → check_id Kinds.call req.call_id ≡ ok tt
      → validate_response (dispatch (agent_tools D sha256 lower i r w p) audited ms (some req) s).0
        ≡ ok tt
  agent_tools-valid i r w p audited ms req s v =
      dispatch-valid (agent_tools D sha256 lower i r w p) audited ms req s v
        (agent_tools-IsFair i r w p)

  -- The answer of workspace.apply_changes has a result only where the change was approved: the arguments name a
  -- proposal that is stored, the approval passes the agent's validator for it and for the hash in
  -- the arguments, and the diff that its change set makes on the files just before has that hash.
  pub apply_tool-Approved :
      (k : Writing D sha256) (req : ToolRequest) (w : Bench D) (v : Value) (resp : ToolResponse)
      → (apply_changes_tool D sha256 k req w).0 ≡ replies resp
      → resp.reply ≡ some v
      → (r : ApplyResult) × Approved D sha256 k.max_bytes 0 local_approval
          (apply_request D sha256 k req)
          w.proposals
          w.world
          (apply_changes_tool D sha256 k req w).1.world.disk
          r
  unfolding apply_changes_tool
  apply_tool-Approved k req w v resp h e =
      elim (Bool-cases
        (is_empty (argument "change_set_id" req) || is_empty (argument "workspace_id" req))) [
          | inl missing ↦ absurd (no_reply req resp v (rw missing at h) e)
          | inr given ↦
              let out =
                apply_changes_on D sha256 k.max_bytes 0 local_approval
                  (apply_request D sha256 k req) w.proposals w.world in
              let (r, done) = result_lem req k.applied_json out.0 resp v (rw given at h) e in
              (
                r,
                rw given (
                    apply_changes_on-Approved D sha256 k.max_bytes 0 local_approval
                      (apply_request D sha256 k req) w.proposals w.world r done),
              )
        ]
