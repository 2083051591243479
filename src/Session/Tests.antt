-- ===== src/Session/Tests.antt =====
-- Examples of the hub (local-agent/internal/idesession/).
use on_code.Prelude.{
  ℕ, ◌+◌, ◌≡◌, refl, true, false, Option, none, some, [], Bytes, codes, ok, arith, bytes_eq, split,
  cut, has_prefix,
}
use on_code.Prelude.Space.{trim_space}
use on_code.Protocol.Json.{str, object, Fields, end, field, lookup, insert, remove}
use on_code.Protocol.Messages.{event, Envelope, tool_event, fresh_envelope}
use on_code.Diff.{split_lines, row, last_row, table, walk, lcs_ops}
use on_code.Diff.Unified.{unified_file}
use on_code.Session.Change.{diff_has_content_change, any_changes, change-unified_file}
use on_code.Session.Chat.{
  holds, stands_in, is_forbidden, allowed, allowed_items, allowed_fields, validate_submit,
  HaveCleanKeys, validate_submit-HaveCleanKeys,
}
use on_code.Session.Events.{
  question_ask, stage_of, classify, on_event, forward_server_event, apply_if_authorized,
  apply_taken, report, notify_apply_completed, push_diff_review, show_review, remember_bind,
  remember_apply,
}
use on_code.Session.Events.Apply.{on_event-world}
use on_code.Session.Frames.{Untouched, handle, handle-Untouched}
use on_code.Session.Hub.{Message, Wiring, PendingApply, Hub}

-- A deleted line that begins with "--" is not seen: the diff counts as one that changes nothing.
change-unified_file_example :
    diff_has_content_change
      (unified_file (codes "q.sql") (codes "select 1\n-- old\n") (codes "select 1\n"))
    ≡ false
unfolding split_lines split cut lcs_ops walk table row last_row bytes_eq has_prefix
change-unified_file_example =
    change-unified_file (codes "q.sql") (codes "select 1\n-- old\n") (codes "select 1\n")
      (omega arith) refl

abbrev chat : Fields
chat =
    field "message" (str (codes "hello"))
      (field "ide_context" (object (field "current_file" (str (codes "src/A.java")) end)) end)

validate_submit-HaveCleanKeys_example : HaveCleanKeys chat
unfolding validate_submit trim_space allowed allowed_items allowed_fields is_forbidden stands_in
    holds bytes_eq lookup
validate_submit-HaveCleanKeys_example = validate_submit-HaveCleanKeys chat refl

-- a key for source text is refused, also in the context
validate_submit_test :
    (validate_submit (some (field "message" (str (codes "hello")) (field "Content" (str []) end)))
      ≡ false)
    × (validate_submit
          (some (field "message" (str (codes "hello")) (field "fİle_content" (str []) end)))
        ≡ false)
    × (validate_submit none ≡ false)
unfolding validate_submit trim_space allowed allowed_items allowed_fields is_forbidden stands_in
    holds bytes_eq lookup
validate_submit_test = (refl, refl, refl)

-- a workspace that counts: 1 for each prepared change, 100 for each apply
abbrev wiring : Wiring ℕ
wiring = record {
  pushes = true;
  connected = true;
  accepts = λ name content. true;
  default_workspace = codes "WS-1";
  registered = true;
  prepare = λ json workspace n. (
    ok (record {
      change_set_id = codes "CHG-1";
      workspace_id = workspace;
      diff = codes "+a\n";
      diff_hash = codes "h";
    }),
    n + 1,
  );
  apply = λ r n. (
    ok (record { applied_set = r.change_set; applied_workspace = r.workspace; revision = 4 }),
    n + 100,
  );
}

abbrev waiting : PendingApply
waiting = record {
  pending_set = codes "CHG-1";
  pending_workspace = codes "WS-1";
  pending_approval = codes "APR-1";
  pending_hash = codes "h";
  pending_item = codes "WI-1";
  unchanged = false;
}

abbrev hub : Option PendingApply → Hub ℕ
hub p = record {
  last_work_item = codes "WI-1";
  last_bind = end;
  pending = p;
  pushed = [];
  sent = [];
  world = 0;
}

abbrev decide : Message
decide = record {
  kind = codes "approval.decide";
  message_id = codes "m1";
  body = some (field "decision" (str (codes "APPROVE")) end);
}

handle-Untouched_example :
    Untouched wiring (hub (some waiting)) (handle wiring decide (hub (some waiting))).1
handle-Untouched_example = handle-Untouched wiring decide (hub (some waiting))

abbrev at : Bytes → Fields
at stage = field "stage" (str stage) end

on_event-world_example :
    (on_event wiring question_ask (at (codes "APPLYING_CHANGE")) (hub (some waiting))).world ≡ 0
on_event-world_example =
    on_event-world wiring question_ask (at (codes "APPLYING_CHANGE")) (hub (some waiting))

abbrev envelope : Bytes → Fields → Envelope
envelope name content =
    fresh_envelope [] [] event
      (tool_event (record { name = name; execution_id = []; body = some content }))

-- a whole round: a change is proposed, prepared and approved, and applied once
forward_server_event_test :
    (forward_server_event wiring
      (some (envelope (codes "workflow.progress") (at (codes "APPLYING_CHANGE"))))
      (forward_server_event wiring
        (some (envelope (codes "workflow.progress") (at (codes "APPLYING_CHANGE"))))
        (forward_server_event wiring
          (some
            (envelope (codes "change.proposed") (field "approval_id" (str (codes "APR-1")) end)))
          (hub none)))).world
    ≡ 101
unfolding forward_server_event classify on_event push_diff_review show_review remember_bind
    remember_apply stage_of apply_if_authorized apply_taken report notify_apply_completed lookup
    insert remove bytes_eq diff_has_content_change any_changes split cut has_prefix
forward_server_event_test = refl
