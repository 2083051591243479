-- ===== src/Protocol/Messages/Changes.antt =====
-- Which change sets `Validate` accepts (protocol/messages/messages.go).
use on_code.Prelude.{is_empty, ◌≡◌, ◌↔◌, refl, false, List, [], ◌∷◌, ok, >>=-eq-ok, arith, All}
use on_code.Protocol.Messages.{
  FileChange, Operation, create, modify, delete, rename, other_operation, validate_change,
  validate_changes,
}

-- What a change must give: a path, a base hash where a file is changed or removed, and a target for
-- a rename.
abbrev pub IsComplete : Operation → FileChange → Type 0
IsComplete create c = is_empty c.path ≡ false
IsComplete modify c = (is_empty c.path ≡ false) × (is_empty c.base_hash ≡ false)
IsComplete delete c = (is_empty c.path ≡ false) × (is_empty c.base_hash ≡ false)
IsComplete rename c =
    (is_empty c.path ≡ false) × (is_empty c.base_hash ≡ false) × (is_empty c.target_path ≡ false)
IsComplete (other_operation t) c = ⊥

validate_change-IsComplete :
    (o : Operation) (c : FileChange) → c.operation ≡ o → validate_change c ≡ ok tt → IsComplete o c
unfolding validate_change
validate_change-IsComplete create c e h = ground arith
validate_change-IsComplete modify c e h = ground arith
validate_change-IsComplete delete c e h = ground arith
validate_change-IsComplete rename c e h = ground arith
validate_change-IsComplete (other_operation t) c e h = ground arith

IsComplete-validate_change :
    (o : Operation) (c : FileChange) → c.operation ≡ o → IsComplete o c → validate_change c ≡ ok tt
unfolding validate_change
IsComplete-validate_change create c e h = ground arith
IsComplete-validate_change modify c e h = ground arith
IsComplete-validate_change delete c e h = ground arith
IsComplete-validate_change rename c e h = ground arith
IsComplete-validate_change (other_operation t) c e h = absurd h

-- The loop over the changes accepts exactly the lists whose changes are all complete.
pub validate_changes_iff :
    (cs : List FileChange) → (validate_changes cs ≡ ok tt) ↔ All (λ c. IsComplete c.operation c) cs
unfolding validate_changes
validate_changes_iff [] = (λ h. tt, λ h. refl)
validate_changes_iff (c ∷ cs) = (
  λ h.
      let (u, p, q) = >>=-eq-ok (validate_change c) _ h in
      (validate_change-IsComplete c.operation c refl p, (validate_changes_iff cs).0 q),
  λ h. rw (IsComplete-validate_change c.operation c refl h.0) ((validate_changes_iff cs).1 h.1),
)
