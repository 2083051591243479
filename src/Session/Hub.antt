-- ===== src/Session/Hub.antt =====
-- local-agent/internal/idesession/hub.go and apply.go: the hub that relays between the IDE and the
-- server. What the hub asks of the workspace, a stored proposal and an apply, is an interface.
use on_code.Prelude.{
  ℕ, Bool, true, false, Option, none, some, List, [], ◌∷◌, Bytes, codes, String, Result,
  if◌then◌else◌,
}
use on_code.Protocol.Json.{Value, str, Fields, end, field, lookup, insert}

-- a frame of the IDE
pub record Message : Type 0 where
  pub kind : Bytes
  pub message_id : Bytes
  pub body : Option Fields

-- actualdiff.Result
pub record Prepared : Type 0 where
  pub change_set_id : Bytes
  pub workspace_id : Bytes
  pub diff : Bytes
  pub diff_hash : Bytes

pub record ApplyRequest : Type 0 where
  pub change_set : Bytes
  pub workspace : Bytes
  pub approval : Bytes
  pub approved_hash : Bytes

pub record ApplyResult : Type 0 where
  pub applied_set : Bytes
  pub applied_workspace : Bytes
  pub revision : ℕ

-- What the hub is made of: `pushes` says that there is a
-- function that pushes to the IDE, `connected` that there is a stream, `accepts` whether the stream
-- takes an event, `registered` that there are workspaces and proposals. `prepare` turns the JSON of
-- the proposed changes into a diff, and stores the proposal where there is a store; `apply` is
-- workspace.ApplyChanges with the approval that is bound to its request. An error is its code and text.
pub record Wiring (W : Type 0) : Type 0 where
  pub pushes : Bool
  pub connected : Bool
  pub accepts : Bytes → Fields → Bool
  pub default_workspace : Bytes
  pub registered : Bool
  pub prepare : Bytes → Bytes → W → Result Bytes Prepared × W
  pub apply : ApplyRequest → W → Result (Bytes × Bytes) ApplyResult × W

pub record PendingApply : Type 0 where
  pub pending_set : Bytes
  pub pending_workspace : Bytes
  pub pending_approval : Bytes
  pub pending_hash : Bytes
  pub pending_item : Bytes
  pub unchanged : Bool

-- The hub's fields, with what it pushed to the IDE and sent to the server, the latest first. An
-- empty pending apply, which the source knows by its empty change set, is `none`.
pub record Hub (W : Type 0) : Type 0 where
  pub last_work_item : Bytes
  pub last_bind : Fields
  pub pending : Option PendingApply
  pub pushed : List Message
  pub sent : List (Bytes × Fields)
  pub world : W

abbrev pub fields_of : Option Fields → Fields
fields_of none = end
fields_of (some m) = m

abbrev pub error_message : Bytes → Bytes → Bytes → Message
error_message id code text = record {
  kind = codes "error";
  message_id = id;
  body = some (field "code" (str code) (field "message" (str text) end));
}

abbrev pub missing : String → Fields → Bool
missing k m = elim (lookup k m) [ none ↦ true | some v ↦ false ]

-- `if _, ok := m[k]; !ok { m[k] = v }`
abbrev pub insert_new : String → Value → Fields → Fields
insert_new k v m = if missing k m then insert k v m else m

-- the loop over the last bind
unfoldable pub merge : Fields → Fields → Fields
merge end m = m
merge (field k v b) m = merge b (insert_new k v m)

module _ {W : Type 0} (w : Wiring W) where
  -- `SendEvent`: what the stream does not take is not sent
  abbrev pub send : Bytes → Fields → Hub W → Bool × Hub W
  send event content h =
      if w.accepts event content
      then (true, record h { sent = (event, content) ∷ h.sent })
      else (false, h)

  abbrev pub push : Bytes → Fields → Hub W → Hub W
  push kind content h = record h {
    pushed = record { kind = kind; message_id = []; body = some content } ∷ h.pushed;
  }
