-- ===== src/Session/Frames.antt =====
-- `Handle` of local-agent/internal/idesession/hub.go: the frames of the IDE.
use on_code.Prelude.{
  is_empty, ◌≡◌, true, not, ◌&&◌, Option, none, some, [], ◌∷◌, Bytes, codes, arith, if◌then◌else◌,
  bytes_eq,
}
use on_code.Protocol.Json.{boolean, str, Fields, end, field, insert, text_at}
use on_code.Session.Chat.{validate_submit}
use on_code.Session.Hub.{Message, Wiring, Hub, fields_of, error_message, insert_new, merge}

module _ {W : Type 0} (w : Wiring W) where
  -- the answer to the IDE, if there is one at once, and the hub behind the call
  abbrev pub Answer : Type 0
  Answer = Option Message × Hub W

  abbrev pub unavailable : Message → Hub W → Answer
  unavailable msg h = (some (error_message msg.message_id (codes "UNAVAILABLE") []), h)

  -- sends an event, and answers where the stream does not take it
  abbrev pub relay : Bytes → Fields → Message → Hub W → Option Message → Answer
  relay event content msg h reply =
      if w.accepts event content
      then (reply, record h { sent = (event, content) ∷ h.sent })
      else unavailable msg h

  abbrev pub accepted : Message → Message
  accepted msg = record {
    kind = codes "chat.accepted";
    message_id = msg.message_id;
    body = some (field "ok" (boolean true) end);
  }

  unfoldable pub submit_chat : Message → Hub W → Answer
  submit_chat msg h =
      if validate_submit msg.body
      then if w.connected
        then relay (codes "chat.submit")
            (insert_new "workspace_id" (str w.default_workspace) (fields_of msg.body)) msg h
            (some (accepted msg))
        else unavailable msg h
      else (some (error_message msg.message_id (codes "INVALID_REQUEST") []), h)

  -- where the map is nil, the source sends null and not an empty object
  unfoldable pub forward_answer : Message → Hub W → Answer
  forward_answer msg h =
      if w.connected
      then relay (codes "question.answer") (fields_of msg.body) msg h none
      else unavailable msg h

  -- the decision with the bind that the hub remembers, without what the IDE gives itself
  unfoldable pub decision : Message → Hub W → Fields
  decision msg h =
      insert_new "workspace_id" (str w.default_workspace) (merge h.last_bind (fields_of msg.body))

  unfoldable pub forward_decide : Message → Hub W → Answer
  unfolding decision
  forward_decide msg h =
      if w.connected
      then relay (codes "approval.decide") (decision msg h) msg h none
      else unavailable msg h

  unfoldable pub restore_data : Message → Hub W → Fields
  restore_data msg h =
      let content = fields_of msg.body in
      if is_empty (text_at "work_item_id" content) && not (is_empty h.last_work_item)
      then insert "work_item_id" (str h.last_work_item) content
      else content

  unfoldable pub restore : Message → Hub W → Answer
  unfolding restore_data
  restore msg h =
      if w.connected
      then if is_empty (text_at "work_item_id" (restore_data msg h))
        then (none, h)
        else relay (codes "session.restore") (restore_data msg h) msg h none
      else unavailable msg h

  unfoldable pub handle : Message → Hub W → Answer
  handle msg h =
      if bytes_eq msg.kind (codes "chat.submit")
      then submit_chat msg h
      else if bytes_eq msg.kind (codes "question.answer")
      then forward_answer msg h
      else if bytes_eq msg.kind (codes "approval.decide")
      then forward_decide msg h
      else if bytes_eq msg.kind (codes "session.restore")
      then restore msg h
      else (some (error_message msg.message_id (codes "UNSUPPORTED") []), h)

  -- The workspace, the pending apply and the bind that the hub remembers stay as they are.
  pub record Untouched (h h' : Hub W) : Type 0 where
    pub same_world : h'.world ≡ h.world
    pub same_pending : h'.pending ≡ h.pending
    pub same_bind : h'.last_bind ≡ h.last_bind

  relay-Untouched :
      (event : Bytes) (content : Fields) (msg : Message) (h : Hub W) (reply : Option Message)
      → Untouched h (relay event content msg h reply).1
  relay-Untouched event content msg h reply = ground arith

  submit_chat-Untouched : (msg : Message) (h : Hub W) → Untouched h (submit_chat msg h).1
  unfolding submit_chat
  submit_chat-Untouched msg h = ground arith

  forward_answer-Untouched : (msg : Message) (h : Hub W) → Untouched h (forward_answer msg h).1
  unfolding forward_answer
  forward_answer-Untouched msg h = ground arith

  forward_decide-Untouched : (msg : Message) (h : Hub W) → Untouched h (forward_decide msg h).1
  unfolding forward_decide
  forward_decide-Untouched msg h = ground arith

  restore-Untouched : (msg : Message) (h : Hub W) → Untouched h (restore msg h).1
  unfolding restore
  restore-Untouched msg h = ground arith

  -- No frame of the IDE, an approval decision among them, applies a change: the workspace, the
  -- pending apply and the bind that the hub remembers stay as they are.
  pub handle-Untouched : (msg : Message) (h : Hub W) → Untouched h (handle msg h).1
  unfolding handle
  handle-Untouched msg h = ground (
    arith,
    submit_chat-Untouched msg h,
    forward_answer-Untouched msg h,
    forward_decide-Untouched msg h,
    restore-Untouched msg h,
  )
