-- ===== src/Session/Events/Apply.antt =====
-- When the hub applies a change (local-agent/internal/idesession/hub.go and apply.go).
use on_code.Prelude.{
  is_empty, ◌≡◌, refl, Bool, true, false, Option, none, some, Bytes, codes, Result, ok, err, arith,
  if◌then◌else◌,
}
use on_code.Protocol.Json.{Fields, text_at}
use on_code.Session.Hub.{Prepared, ApplyResult, Wiring, PendingApply, Hub, push}
use on_code.Session.Events.{
  EventKind, workflow_progress, question_ask, error_event, design_review, change_proposed,
  build_result, test_result, other_event, Stage, rejected, applying, completed, other_stage,
  stage_of, remember_bind, remember_apply, clear_pending, notify_apply_completed, apply_request,
  report, apply_case, apply_taken, apply_if_authorized, show_review, push_diff_review, reviewed,
  on_event, at_stage, forget_completed, take_and_apply,
}

module _ {W : Type 0} (w : Wiring W) where
  -- Two hubs with the same workspace and the same pending apply.
  record Agrees (h h' : Hub W) : Type 0 where
    world : h'.world ≡ h.world
    pending : h'.pending ≡ h.pending

  notify-Agrees :
      (item workspace set : Bytes) (u : Bool) (h : Hub W)
      → Agrees h (notify_apply_completed w item workspace set u h)
  unfolding notify_apply_completed
  notify-Agrees item workspace set u h = ground arith

  report-Agrees :
      (item : Bytes) (r : Result (Bytes × Bytes) ApplyResult) (h : Hub W)
      → Agrees h (report w item r h)
  unfolding report
  report-Agrees item (err e) h = record { world = refl; pending = refl }
  report-Agrees item (ok r) h =
      let n = notify-Agrees item r.applied_workspace r.applied_set false _ in
      record { world = n.world; pending = n.pending }

  -- What the server's word that a change may be applied does to the workspace: a pending apply that
  -- changes something is applied where a workspace is registered.
  abbrev pub world_after : Stage → Option PendingApply → W → W
  world_after applying (some p) x =
      if p.unchanged then x else if w.registered then (w.apply (apply_request w p) x).1 else x
  world_after stage p x = x

  -- Every one of the three stages takes the pending apply away.
  abbrev pub pending_after : Stage → Option PendingApply → Option PendingApply
  pending_after other_stage p = p
  pending_after stage p = none

  -- The workspace and the pending apply of a hub.
  abbrev pub Holds : Hub W → W → Option PendingApply → Type 0
  Holds h x p = (h.world ≡ x) × (h.pending ≡ p)

  apply_case-Holds :
      (same there : Bool) (p : PendingApply) (item : Bytes) (h : Hub W)
      → Holds
          (apply_case w same there p item h)
          (if same
            then h.world
            else if there
            then (w.apply (apply_request w p) h.world).1
            else h.world)
          h.pending
  apply_case-Holds true there p item h =
      let n = notify-Agrees item p.pending_workspace p.pending_set true (push w _ _ h) in
      (n.world, n.pending)
  apply_case-Holds false false p item h = (refl, refl)
  apply_case-Holds false true p item h =
      let a = w.apply (apply_request w p) h.world in
      let n = report-Agrees item a.0 (record h { world = a.1 }) in (n.world, n.pending)

  apply_taken-Holds :
      (p : PendingApply) (m : Fields) (h : Hub W)
      → Holds (apply_taken w p m h) (world_after applying (some p) h.world) h.pending
  unfolding apply_taken
  apply_taken-Holds p m h = apply_case-Holds p.unchanged w.registered p _ h

  stage-Holds :
      (s : Stage) (m : Fields) (h : Hub W)
      → Holds
          (forget_completed w s (at_stage w s m h))
          (world_after s h.pending h.world)
          (pending_after s h.pending)
  unfolding clear_pending
  stage-Holds rejected m h = (refl, refl)
  stage-Holds completed m h = (refl, refl)
  stage-Holds other_stage m h = (refl, refl)
  stage-Holds applying m h = taken h.pending refl
    where
      taken :
          (p : Option PendingApply)
          → h.pending ≡ p
          → Holds (take_and_apply w p m h) (world_after applying p h.world) none
      taken none e = (refl, e)
      taken (some p) e = apply_taken-Holds p m (record h { pending = none })

  pub progress-Holds :
      (m : Fields) (h : Hub W)
      → Holds
          (on_event w workflow_progress m h)
          (world_after (stage_of m) h.pending h.world)
          (pending_after (stage_of m) h.pending)
  unfolding on_event apply_if_authorized
  progress-Holds m h = stage-Holds (stage_of m) m (push w (codes "workflow.progress") m h)

  show_review-world :
      (m : Fields) (r : Prepared) (h : Hub W) → (show_review w m r h).world ≡ h.world
  unfolding show_review remember_bind remember_apply
  show_review-world m r h = ground arith

  reviewed-world :
      (m : Fields) (r : Result Bytes Prepared) (h : Hub W) → (reviewed w m r h).world ≡ h.world
  reviewed-world m (err e) h = refl
  reviewed-world m (ok r) h = show_review-world m r h

  -- the workspace that a proposed change is prepared in
  abbrev pub workspace_for : Fields → Bytes
  workspace_for m =
      if is_empty (text_at "workspace_id" m) then w.default_workspace else text_at "workspace_id" m

  -- The workspace behind an event.
  abbrev pub world_by : EventKind → Fields → Hub W → W
  world_by change_proposed m h =
      (w.prepare (text_at "proposed_changes_json" m) (workspace_for m) h.world).1
  world_by workflow_progress m h = world_after (stage_of m) h.pending h.world
  world_by _ m h = h.world

  -- An event of the server changes the workspace in two ways only: a proposed change is prepared and
  -- stored, and a progress event makes the pending apply. A design, a question, an error, a result
  -- and every other event leave it as it is.
  pub on_event-world :
      (kind : EventKind) (m : Fields) (h : Hub W) → (on_event w kind m h).world ≡ world_by kind m h
  unfolding on_event push_diff_review remember_bind
  on_event-world change_proposed m h = reviewed-world m _ _
  on_event-world workflow_progress m h = (progress-Holds m h).0
  on_event-world design_review m h = refl
  on_event-world question_ask m h = refl
  on_event-world error_event m h = refl
  on_event-world build_result m h = refl
  on_event-world test_result m h = refl
  on_event-world (other_event e) m h = refl
