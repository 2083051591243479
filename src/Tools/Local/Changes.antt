-- ===== src/Tools/Local/Changes.antt =====
-- The handlers of local-agent/internal/tools/workspace/tools.go that change something: workspace.propose_changes
-- and workspace.apply_changes. Package encoding/json is a parameter: what the arguments read as, and how a
-- result is written.
use on_code.Prelude.{
  ℕ, suc, Bool, true, false, ◌&&◌, ◌||◌, Option, none, some, List, [], ◌∷◌, Bytes, Result, ok, err,
  ◌>>=◌, if◌then◌else◌, is_empty,
}
use on_code.Policy.{local_approval}
use on_code.Protocol.Errors.{Code, invalid_argument}
use on_code.Protocol.Ids
use on_code.Protocol.Ids.{IdError}
use on_code.Protocol.Ids.Kinds
use on_code.Protocol.Ids.Uuids.{Uuid}
use on_code.Protocol.Json.{Value, Fields, text_at}
use on_code.Protocol.Messages.{
  ToolRequest, ChangeSet, FileChange, Operation, modify, other_operation, needs_base,
}
use on_code.Session.Proposed.{operation_of}
use on_code.Tools.{Outcome, Handler}
use on_code.Tools.Local.{Bench, argument, refused, raised, outcome_of}
use on_code.Workspace.Apply.{ApplyRequest, Applied}
use on_code.Workspace.Apply.Local.{ApplyResult, apply_changes_on}
use on_code.Workspace.Disk.{Disk}
use on_code.Workspace.Files.{read_text_file}
use on_code.Workspace.Propose.{propose}
use on_code.Workspace.Registry.{World, Workspaces, get_workspace, sole}
use on_code.Workspace.Resolve.{Workspace}
use on_code.Workspace.Store.{Proposal, put}

-- The two kinds of errors of `parseProposedChangeSet`: one of the arguments, or one of the protocol.
pub data ParseError : Type 0 where
  bad_argument : ParseError
  of_protocol : Code → ParseError

abbrev pub protocol_result : {A : Type 0} → Result Code A → Result ParseError A
protocol_result (ok a) = ok a
protocol_result (err e) = err (of_protocol e)

-- the operation in capitals, where none is a modification
unfoldable pub upper_operation : Operation → Operation
upper_operation (other_operation t) = if is_empty t then modify else operation_of t
upper_operation op = op

abbrev pub is_valid : Result IdError (Unit {0}) → Bool
is_valid (ok u) = true
is_valid (err e) = false

-- `resolveProposeWorkspace`
unfoldable pub resolve_propose_workspace : Bytes → Workspaces → Result Code Workspace
resolve_propose_workspace id r =
    if is_valid (Ids.validate Kinds.workspace id) then get_workspace id r else sole r

-- the one change that the arguments themselves may be
unfoldable pub own_change : Fields → List FileChange → List FileChange
own_change args (c ∷ cs) = c ∷ cs
own_change args [] =
    if is_empty (text_at "path" args)
    then []
    else record {
      path = text_at "path" args;
      operation = other_operation (text_at "operation" args);
      base_hash = [];
      content = text_at "content" args;
      target_path = [];
    }
      ∷ []

module _ (D : Disk) (sha256 : Bytes → Bytes) where
  -- The limit of the agent, the UUIDs that are drawn, and the JSON.
  pub record Writing : Type 0 where
    pub max_bytes : ℕ
    pub drawn : ℕ → Uuid
    pub change_set_of : Fields → Option ChangeSet
    pub proposal_json : Proposal → Option Value
    pub applied_json : ApplyResult → Option Value

  module _ (k : Writing) where
    -- a round of `fillBaseHashes`
    unfoldable pub fill_base_hash : Workspace → D.State → FileChange → Result Code FileChange
    unfolding upper_operation
    fill_base_hash ws s c =
        let op = upper_operation c.operation in
        if needs_base op && is_empty c.base_hash
        then (do
          r ← read_text_file D sha256 ws s c.path k.max_bytes
          ok (record c { operation = op; base_hash = r.hash }))
        else ok (record c { operation = op })

    unfoldable pub fill_base_hashes :
        Workspace → D.State → List FileChange → Result Code (List FileChange)
    unfolding fill_base_hash
    fill_base_hashes ws s [] = ok []
    fill_base_hashes ws s (c ∷ cs) = do
      first ← fill_base_hash ws s c
      rest ← fill_base_hashes ws s cs
      ok (first ∷ rest)

    abbrev pub or_given : Bytes → Result IdError Bytes → Bytes
    or_given id (ok made) = made
    or_given id (err e) = id

    -- an identifier that is none is replaced; a random number more is drawn
    unfoldable pub set_id : Bytes → ℕ → Bytes × ℕ
    set_id id n =
        if is_valid (Ids.validate Kinds.change_set id)
        then (id, n)
        else (or_given id (Ids.new Kinds.change_set (k.drawn n)), suc n)

    abbrev pub parsed_set : Option ChangeSet → Result ParseError ChangeSet
    parsed_set none = err bad_argument
    parsed_set (some cs) = ok cs

    unfoldable pub with_hashes : Bench D → Fields → ChangeSet → Result ParseError ChangeSet
    unfolding fill_base_hashes own_change resolve_propose_workspace set_id
    with_hashes w args cs = do
      ws ← protocol_result (resolve_propose_workspace cs.in_workspace w.world.workspaces)
      changes ← protocol_result (fill_base_hashes ws w.world.disk (own_change args cs.changes))
      ok (record cs {
        change_set_id = (set_id cs.change_set_id w.draws).0;
        in_workspace = ws.workspace_id;
        changes = changes;
      })

    -- `parseProposedChangeSet`, where no arguments are an error
    unfoldable pub parse_proposed_change_set : Bench D → Option Fields → Result ParseError ChangeSet
    unfolding with_hashes
    parse_proposed_change_set w none = err bad_argument
    parse_proposed_change_set w (some args) = do
      cs ← parsed_set (k.change_set_of args)
      with_hashes w args cs

    abbrev pub stored : ToolRequest → Bench D → Result Code Proposal → Outcome × Bench D
    stored req w (err e) = (raised e, w)
    stored req w (ok p) =
        (outcome_of req k.proposal_json (ok p), record w { proposals = put p w.proposals })

    -- behind the parsing
    abbrev pub proposed_with :
        ToolRequest → Bench D → Result ParseError ChangeSet → Outcome × Bench D
    proposed_with req w (err bad_argument) =
        (refused req invalid_argument "invalid proposed change set", w)
    proposed_with req w (err (of_protocol e)) = (raised e, w)
    proposed_with req w (ok cs) = stored req w (do
      ws ← get_workspace cs.in_workspace w.world.workspaces
      propose D sha256 ws w.world.disk cs k.max_bytes)

    -- a number is counted as drawn for every call
    unfoldable pub propose_changes : Handler (Bench D)
    unfolding parse_proposed_change_set
    propose_changes req w =
        proposed_with req (record w { draws = suc w.draws })
          (parse_proposed_change_set w req.arguments)

    abbrev pub apply_request : ToolRequest → ApplyRequest
    apply_request req = record {
      change_set_id = argument "change_set_id" req;
      workspace_id = argument "workspace_id" req;
      approval_id = argument "approval_id" req;
      approved_diff_hash = argument "approved_diff_hash" req;
    }

    -- the answer, and what the tools work on behind it
    abbrev pub applied_outcome :
        ToolRequest → Bench D → Applied ApplyResult (World D) → Outcome × Bench D
    applied_outcome req w (result, (proposals, world)) =
        (outcome_of req k.applied_json result, record w { world = world; proposals = proposals })

    unfoldable pub apply_changes_tool : Handler (Bench D)
    apply_changes_tool req w =
        if is_empty (argument "change_set_id" req) || is_empty (argument "workspace_id" req)
        then (refused req invalid_argument "change_set_id and workspace_id required", w)
        else applied_outcome req w (
            apply_changes_on D sha256 k.max_bytes 0 local_approval (apply_request req) w.proposals
              w.world)
