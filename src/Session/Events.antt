-- ===== src/Session/Events.antt =====
-- The events of the server, in local-agent/internal/idesession/hub.go and apply.go: what the IDE is
-- told, what the hub remembers, and the one place where a change is applied.
pub mod Apply
use on_code.Prelude.{
  is_empty, ℕ, Bool, true, false, not, ◌&&◌, ◌||◌, Option, none, some, List, [], ◌∷◌, Bytes, codes,
  String, Result, ok, err, if◌then◌else◌, bytes_eq,
}
use on_code.Protocol.Json.{
  Value, null, boolean, number, str, Fields, end, field, lookup, insert, remove, text_at, value_of,
}
use on_code.Protocol.Messages.{
  Envelope, Payload, EventPayload, tool_event, tool_request, tool_response, garbled,
}
use on_code.Session.Change.{diff_has_content_change}
use on_code.Session.Hub.{
  Message, Prepared, ApplyRequest, ApplyResult, Wiring, PendingApply, Hub, fields_of, send, push,
}

-- The events that the hub has a case for.
pub data EventKind : Type 0 where
  workflow_progress question_ask error_event design_review change_proposed : EventKind
  build_result test_result : EventKind
  other_event : Bytes → EventKind

unfoldable pub classify : Bytes → EventKind
classify e =
    if bytes_eq e (codes "workflow.progress")
    then workflow_progress
    else if bytes_eq e (codes "question.ask")
    then question_ask
    else if bytes_eq e (codes "error")
    then error_event
    else if bytes_eq e (codes "design.review")
    then design_review
    else if bytes_eq e (codes "change.proposed")
    then change_proposed
    else if bytes_eq e (codes "build.result")
    then build_result
    else if bytes_eq e (codes "test.result")
    then test_result
    else other_event e

-- the type of the frame that the IDE gets
abbrev pub frame_type : EventKind → Bytes
frame_type workflow_progress = codes "workflow.progress"
frame_type question_ask = codes "question.ask"
frame_type error_event = codes "error"
frame_type design_review = codes "design.review"
frame_type change_proposed = codes "change.proposed"
frame_type build_result = codes "build.result"
frame_type test_result = codes "test.result"
frame_type (other_event e) = e

-- The stages that the hub acts on.
pub data Stage : Type 0 where
  rejected applying completed other_stage : Stage

unfoldable pub stage_of : Fields → Stage
stage_of m =
    let stage = text_at "stage" m in
    if bytes_eq stage (codes "REJECTED")
    then rejected
    else if bytes_eq stage (codes "APPLYING_CHANGE")
    then applying
    else if bytes_eq stage (codes "COMPLETED")
    then completed
    else other_stage

-- `m[k]`, where a missing key is null
abbrev copy : String → Fields → Value
copy k m = value_of (lookup k m)

module _ {W : Type 0} (w : Wiring W) where
  -- `rememberBind`
  unfoldable pub remember_bind : Fields → Bool → Hub W → Hub W
  remember_bind m with_diff h =
      let rest = if with_diff then field "diff_hash" (copy "diff_hash" m) end else end in
      let bind = field "approval_id" (copy "approval_id" m) (
        field "work_item_id" (copy "work_item_id" m) (
          field "workspace_id" (copy "workspace_id" m) (
            field "resource_id" (copy "resource_id" m)
              (field "design_identity" (copy "design_identity" m) rest)))) in
      let id = text_at "work_item_id" m in
      record h { last_bind = bind; last_work_item = if is_empty id then h.last_work_item else id }

  -- `rememberApply`: a proposal that lacks a field of the bind is not remembered.
  unfoldable pub remember_apply : PendingApply → Hub W → Hub W
  remember_apply p h =
      if is_empty p.pending_set
        || is_empty p.pending_workspace
        || is_empty p.pending_approval
        || is_empty p.pending_hash
      then h
      else record h { pending = some p }

  unfoldable pub clear_pending : Hub W → Hub W
  clear_pending h = record h { pending = none }

  -- `notifyApplyCompleted`; an event that the stream does not take is dropped.
  unfoldable pub notify_apply_completed : Bytes → Bytes → Bytes → Bool → Hub W → Hub W
  notify_apply_completed item workspace change_set unchanged h =
      let content = field "work_item_id" (str item) (
        field "workspace_id" (str workspace)
          (field "change_set_id" (str change_set) (field "unchanged" (boolean unchanged) end))) in
      if not w.connected || is_empty item || is_empty workspace
      then h
      else (send w (codes "apply.completed") content h).1

  abbrev pub apply_request : PendingApply → ApplyRequest
  apply_request p = record {
    change_set = p.pending_set;
    workspace = p.pending_workspace;
    approval = p.pending_approval;
    approved_hash = p.pending_hash;
  }

  abbrev error_fields : Bytes → Bytes → Fields
  error_fields code message = field "code" (str code) (field "message" (str message) end)

  -- what the hub says of an apply that the workspace made or refused
  unfoldable pub report : Bytes → Result (Bytes × Bytes) ApplyResult → Hub W → Hub W
  report item (err e) h = push w (codes "error") (error_fields e.0 e.1) h
  report item (ok r) h =
      let content = field "status" (str (codes "SUCCESS")) (
        field "change_set_id" (str r.applied_set) (
          field "workspace_id" (str r.applied_workspace) (
            field "workspace_revision" (number r.revision)
              (field "message" (str (codes "approved changes applied")) end)))) in
      notify_apply_completed item r.applied_workspace r.applied_set false
        (push w (codes "apply.result") content h)

  -- The three ways that `applyIfAuthorized` ends, by `unchanged` and by whether a workspace is
  -- registered.
  abbrev pub apply_case : Bool → Bool → PendingApply → Bytes → Hub W → Hub W
  apply_case true there p item h =
      let content = field "status" (str (codes "SUCCESS")) (
        field "change_set_id" (str p.pending_set) (
          field "workspace_id" (str p.pending_workspace) (
            field "unchanged" (boolean true)
              (field "message" (str (codes "no content change; workspace left as-is")) end)))) in
      notify_apply_completed item p.pending_workspace p.pending_set true
        (push w (codes "apply.result") content h)
  apply_case false true p item h =
      let (result, world) = w.apply (apply_request p) h.world in
      report item result (record h { world = world })
  apply_case false false p item h =
      push w (codes "error")
        (error_fields (codes "UNAVAILABLE") (codes "workspace is not registered; apply skipped")) h

  -- The part of `applyIfAuthorized` behind `takePending`: `p` is taken and no longer pending.
  unfoldable pub apply_taken : PendingApply → Fields → Hub W → Hub W
  apply_taken p m h =
      let item = if is_empty p.pending_item then text_at "work_item_id" m else p.pending_item in
      apply_case p.unchanged w.registered p item h

  abbrev pub take_and_apply : Option PendingApply → Fields → Hub W → Hub W
  take_and_apply none m h = h
  take_and_apply (some p) m h = apply_taken p m (record h { pending = none })

  abbrev pub at_stage : Stage → Fields → Hub W → Hub W
  at_stage rejected m h = clear_pending h
  at_stage applying m h = take_and_apply h.pending m h
  at_stage completed m h = h
  at_stage other_stage m h = h

  unfoldable pub apply_if_authorized : Fields → Hub W → Hub W
  apply_if_authorized m h = at_stage (stage_of m) m h

  -- the end of a work item
  abbrev pub forget_completed : Stage → Hub W → Hub W
  forget_completed completed h = clear_pending (record h { last_work_item = []; last_bind = end })
  forget_completed s h = h

  -- The source's message, a Korean text, is written "unchanged". `FromProposed` and
  -- `prepareStoredProposal` got their workspace and change set before this.
  abbrev review : Fields → Prepared → Bool → Fields
  review m r unchanged =
      let view = insert "unchanged" (boolean unchanged) (
        insert "can_apply" (boolean false) (
          insert "workspace_id" (str r.workspace_id) (
            insert "diff_hash" (str r.diff_hash) (
              insert "actual_diff" (str r.diff) (
                insert "change_set_id" (str r.change_set_id)
                  (remove "proposed_changes_json" m)))))) in
      if unchanged then insert "message" (str (codes "unchanged")) view else view

  abbrev bind_event : Fields → Prepared → Fields
  bind_event view r = field "approval_id" (copy "approval_id" view) (
      field "work_item_id" (copy "work_item_id" view) (
        field "workspace_id" (copy "workspace_id" view) (
          field "resource_id" (copy "resource_id" view) (field "diff_hash" (str r.diff_hash) end))))

  abbrev pub pending_of : Fields → Prepared → Bool → PendingApply
  pending_of view r unchanged = record {
    pending_set = r.change_set_id;
    pending_workspace = r.workspace_id;
    pending_approval = text_at "approval_id" view;
    pending_hash = r.diff_hash;
    pending_item = text_at "work_item_id" view;
    unchanged = unchanged;
  }

  -- `pushDiffReview` behind a diff that was made
  unfoldable pub show_review : Fields → Prepared → Hub W → Hub W
  show_review m r h =
      let unchanged = not (diff_has_content_change r.diff) in
      let view = review m r unchanged in
      let h1 = remember_bind view true h in
      let h2 =
        if w.connected then (send w (codes "approval.bind") (bind_event view r) h1).1 else h1 in
      let h3 = if w.registered then remember_apply (pending_of view r unchanged) h2 else h2 in
      push w (codes "diff.review") view h3

  abbrev pub reviewed : Fields → Result Bytes Prepared → Hub W → Hub W
  reviewed m (err e) h = push w (codes "error") (error_fields (codes "INVALID_REQUEST") e) h
  reviewed m (ok r) h = show_review m r h

  unfoldable pub push_diff_review : Fields → Hub W → Hub W
  push_diff_review m h =
      let given = text_at "workspace_id" m in
      let workspace = if is_empty given then w.default_workspace else given in
      let (result, world) = w.prepare (text_at "proposed_changes_json" m) workspace h.world in
      reviewed m result (record h { world = world })

  -- the case of an event, on the data that the envelope has completed
  unfoldable pub on_event : EventKind → Fields → Hub W → Hub W
  on_event change_proposed m h = push_diff_review m h
  on_event design_review m h =
      push w (codes "design.review") (insert "can_apply" (boolean false) m)
        (remember_bind m false h)
  on_event workflow_progress m h =
      forget_completed (stage_of m) (apply_if_authorized m (push w (codes "workflow.progress") m h))
  on_event kind m h = push w (frame_type kind) m h

  -- what the payload reads as: the JSON of another payload has none of an event's fields
  abbrev pub as_event : Payload → Option EventPayload
  as_event (tool_event ev) = some ev
  as_event (garbled raw) = none
  as_event _ = some (record { name = []; execution_id = []; body = none })

  abbrev pub with_text : String → Bytes → Fields → Fields
  with_text k v m = if is_empty v then m else insert k (str v) m

  -- the data of an event, which its envelope completes
  abbrev pub event_data : Envelope → EventPayload → Fields
  event_data env ev =
      with_text "workflow_id" env.workflow_id
        (with_text "work_item_id" env.work_item_id (fields_of ev.body))

  -- `forwardServerEvent`
  unfoldable pub forward_server_event : Option Envelope → Hub W → Hub W
  forward_server_event none h = h
  forward_server_event (some env) h = elim (as_event env.payload) [
    | none ↦ h
    | some ev ↦
        let item = if is_empty env.work_item_id then h.last_work_item else env.work_item_id in
        if w.pushes
        then on_event (classify ev.name) (event_data env ev) (record h { last_work_item = item })
        else h
  ]
