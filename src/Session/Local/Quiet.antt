-- ===== src/Session/Local/Quiet.antt =====
-- When the hub on the registered workspaces and the disk changes files (local-agent/internal/idesession/hub.go
-- and apply.go).
use on_code.Prelude.{
  ℕ, ◌≡◌, ◌∙◌, refl, ap, Bool, true, false, Option, none, some, List, [], ◌∷◌, Bytes, Result, ok,
  err, if◌then◌else◌, is_empty,
}
use on_code.Protocol.Errors.{Code}
use on_code.Protocol.Ids
use on_code.Protocol.Ids.{IdError}
use on_code.Protocol.Ids.Kinds
use on_code.Protocol.Ids.Uuids.{Uuid}
use on_code.Protocol.Json.{Fields, text_at}
use on_code.Protocol.Messages.{Envelope, EventPayload}
use on_code.Session.Events.{
  EventKind, workflow_progress, question_ask, error_event, design_review, change_proposed,
  build_result, test_result, other_event, Stage, rejected, applying, completed, other_stage,
  stage_of, classify, on_event, as_event, event_data, forward_server_event,
}
use on_code.Session.Events.Apply.{world_after, world_by, on_event-world}
use on_code.Session.Frames.{handle, handle-Untouched}
use on_code.Session.Hub
use on_code.Session.Hub.{Message, Prepared, Wiring, PendingApply, Hub}
use on_code.Session.Local.{
  Desk, bound_approval, set_id, stores, prepare_stored, store_parsed, prepare, request_of,
  answer_of, apply_bound, local_wiring,
}
use on_code.Session.Proposed.{Change, parse_proposed}
use on_code.Workspace.Apply.Local
use on_code.Workspace.Apply.Local.{apply_changes_on}
use on_code.Workspace.Apply.Local.Effects.{Approved, apply_changes_on-Approved}
use on_code.Workspace.Disk.{Disk}
use on_code.Workspace.Registry.{get_workspace}
use on_code.Workspace.Resolve.{Workspace}
use on_code.Workspace.Store.{Proposal}

-- A frame of the IDE or a message of the server.
pub data Input : Type 0 where
  frame : Message → Input
  message : Option Envelope → Input

abbrev pub is_applying : Stage → Bool
is_applying applying = true
is_applying _ = false

abbrev pub event_orders : EventKind → Fields → Bool
event_orders workflow_progress m = is_applying (stage_of m)
event_orders _ m = false

module _ (D : Disk) (sha256 : Bytes → Bytes) (max_bytes : ℕ) where
  stores-world :
      (l : Desk D sha256 max_bytes) (r : Result Code Proposal)
      → (stores D sha256 max_bytes l r).1.world ≡ l.world
  stores-world l (err e) = refl
  stores-world l (ok p) = refl

  module _ (decode : Bytes → Option (Bytes × List Change)) (uuids : ℕ → Uuid)
      (default_workspace : Bytes) (accepts : Bytes → Fields → Bool) where
    abbrev pub wiring : Wiring (Desk D sha256 max_bytes)
    wiring = local_wiring D sha256 max_bytes decode uuids default_workspace accepts

    set_id-world :
        (id : Bytes) (r : Result IdError (Unit {0})) (l : Desk D sha256 max_bytes)
        → (set_id D sha256 max_bytes decode uuids default_workspace id r l).1.world ≡ l.world
    set_id-world id (ok u) l = refl
    set_id-world id (err e) l = refl

    prepare_stored-world :
        (id : Bytes) (changes : List Change) (l : Desk D sha256 max_bytes)
        → (prepare_stored D sha256 max_bytes decode uuids default_workspace id changes l).1.world
          ≡ l.world
    unfolding prepare_stored
    prepare_stored-world id changes l =
        by_found (get_workspace default_workspace l.world.workspaces) refl
      where
        by_found :
            (m : Result Code Workspace)
            → get_workspace default_workspace l.world.workspaces ≡ m
            → (prepare_stored D sha256 max_bytes decode uuids default_workspace id changes
                l).1.world
              ≡ l.world
        by_found (err e) now = rw (prepare_stored, now) refl
        by_found (ok ws) now =
            let drawn =
              set_id D sha256 max_bytes decode uuids default_workspace id
                (Ids.validate Kinds.change_set id) l in
            rw (prepare_stored, now) (stores-world drawn.1 _ ∙ set_id-world id _ l)

    store_parsed-world :
        (o : Option (Bytes × List Change)) (l : Desk D sha256 max_bytes)
        → (store_parsed D sha256 max_bytes decode uuids default_workspace o l).1.world ≡ l.world
    store_parsed-world none l = refl
    store_parsed-world (some (id, changes)) l = prepare_stored-world _ changes l

    -- does a message of the server order an apply?
    abbrev pub payload_orders : Envelope → Option EventPayload → Bool
    payload_orders env none = false
    payload_orders env (some ev) = event_orders (classify ev.name) (event_data wiring env ev)

    abbrev pub orders : Input → Bool
    orders (frame msg) = false
    orders (message none) = false
    orders (message (some env)) = payload_orders env (as_event wiring env.payload)

    abbrev pub NoOrder : List Input → Type 0
    NoOrder [] = Unit {0}
    NoOrder (i ∷ is) = (orders i ≡ false) × NoOrder is

    -- One input of the hub, and a run of them.
    abbrev pub step : Input → Hub (Desk D sha256 max_bytes) → Hub (Desk D sha256 max_bytes)
    step (frame msg) h = (handle wiring msg h).1
    step (message m) h = forward_server_event wiring m h

    abbrev pub steps : List Input → Hub (Desk D sha256 max_bytes) → Hub (Desk D sha256 max_bytes)
    steps [] h = h
    steps (i ∷ is) h = steps is (step i h)

    progress-keeps :
        (s : Stage) (p : Option PendingApply) (l : Desk D sha256 max_bytes)
        → is_applying s ≡ false
        → world_after wiring s p l ≡ l
    progress-keeps rejected p l e = refl
    progress-keeps completed p l e = refl
    progress-keeps other_stage p l e = refl
    progress-keeps applying p l e = cc e

    on_event-keeps :
        (kind : EventKind) (m : Fields) (h : Hub (Desk D sha256 max_bytes))
        → event_orders kind m ≡ false
        → (on_event wiring kind m h).world.world ≡ h.world.world
    unfolding prepare
    on_event-keeps kind m h e = ap (λ l. l.world) (on_event-world wiring kind m h) ∙ by_kind kind e
      where
        by_kind :
            (k : EventKind)
            → event_orders k m ≡ false
            → (world_by wiring k m h).world ≡ h.world.world
        by_kind workflow_progress e =
            ap (λ l. l.world) (progress-keeps (stage_of m) h.pending h.world e)
        by_kind change_proposed e =
            store_parsed-world (parse_proposed decode (text_at "proposed_changes_json" m)) h.world
        by_kind question_ask e = refl
        by_kind error_event e = refl
        by_kind design_review e = refl
        by_kind build_result e = refl
        by_kind test_result e = refl
        by_kind (other_event t) e = refl

    message-keeps :
        (env : Envelope) (o : Option EventPayload) (h : Hub (Desk D sha256 max_bytes))
        → as_event wiring env.payload ≡ o
        → payload_orders env o ≡ false
        → (forward_server_event wiring (some env) h).world.world ≡ h.world.world
    unfolding forward_server_event
    message-keeps env none h now e = rw (forward_server_event, now) refl
    message-keeps env (some ev) h now e =
        rw (forward_server_event, now)
          (on_event-keeps (classify ev.name) (event_data wiring env ev)
            (record h {
              last_work_item =
                  if is_empty env.work_item_id then h.last_work_item else env.work_item_id;
            })
            e)

    step-keeps :
        (i : Input) (h : Hub (Desk D sha256 max_bytes))
        → orders i ≡ false
        → (step i h).world.world ≡ h.world.world
    unfolding forward_server_event
    step-keeps (frame msg) h e = ap (λ l. l.world) (handle-Untouched wiring msg h).same_world
    step-keeps (message none) h e = refl
    step-keeps (message (some env)) h e = message-keeps env (as_event wiring env.payload) h refl e

    -- Whatever the IDE sends and the server proposes, reviews and reports, in any order, the files and the
    -- workspaces stay as they are, as long as there is no progress event at the stage APPLYING_CHANGE:
    -- not an approval of the user, but that event alone lets the hub change a file.
    pub steps-keeps :
        (is : List Input) (h : Hub (Desk D sha256 max_bytes))
        → NoOrder is
        → (steps is h).world.world ≡ h.world.world
    steps-keeps [] h e = refl
    steps-keeps (i ∷ is) h e = steps-keeps is (step i h) e.1 ∙ step-keeps i h e.0

    answer_of-ok :
        (m : Result Code Local.ApplyResult) (a : Hub.ApplyResult)
        → answer_of D sha256 max_bytes decode uuids default_workspace m ≡ ok a
        → (r : Local.ApplyResult) × (m ≡ ok r)
    answer_of-ok (ok r) a e = (r, refl)
    answer_of-ok (err x) a e = cc e

    -- Where the apply of a pending proposal succeeds, the request names an approval, a change set and a hash, the
    -- proposal of that change set is stored with that hash, and the diff that the change set makes on
    -- the files just before has that hash too.
    pub apply_bound-Approved :
        (req : Hub.ApplyRequest) (l : Desk D sha256 max_bytes) (a : Hub.ApplyResult)
        → (apply_bound D sha256 max_bytes decode uuids default_workspace req l).0 ≡ ok a
        → (r : Local.ApplyResult) × Approved D sha256 max_bytes 0
            (bound_approval req)
            (request_of D sha256 max_bytes decode uuids default_workspace req)
            l.store
            l.world
            (apply_bound D sha256 max_bytes decode uuids default_workspace req l).1.world.disk
            r
    unfolding apply_bound
    apply_bound-Approved req l a e =
        let call =
          apply_changes_on D sha256 max_bytes 0 (bound_approval req)
            (request_of D sha256 max_bytes decode uuids default_workspace req) l.store l.world in
        let (r, now) = answer_of-ok call.0 a e in
        (
          r,
          apply_changes_on-Approved D sha256 max_bytes 0 (bound_approval req)
              (request_of D sha256 max_bytes decode uuids default_workspace req) l.store l.world r
              now,
        )
