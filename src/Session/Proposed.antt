-- ===== src/Session/Proposed.antt =====
-- local-agent/internal/actualdiff/actualdiff.go: the diff of proposed changes against the files as they are.
use on_code.Prelude.{
  ℕ, ◌-◌, ◌&&◌, Option, none, some, List, [], ◌∷◌, ◌++◌, Bytes, codes, leb, ◌==◌, if◌then◌else◌,
  is_empty, bytes_eq,
}
use on_code.Prelude.Space.{trim_space}
use on_code.Protocol.Messages.{Operation, create, modify, delete, rename, other_operation}
use on_code.Diff.Unified.{unified_file, trim_slash}
use on_code.Session.Hub.{Prepared}
use on_code.Workspace.Files.{hash_bytes}
use on_code.Workspace.Propose.{Part, diff_text}

-- Change, one file of the proposed changes
pub record Change : Type 0 where
  pub path : Bytes
  pub operation : Bytes
  pub content : Bytes
  pub target_path : Bytes

abbrev upper : ℕ → ℕ
upper c = if leb 97 c && leb c 122 then c - 32 else c

-- `strings.ToUpper`, as far as it gives ASCII: the letters of ASCII, the dotless i, which becomes an I, and the
-- long s, which becomes an S. Any other character is kept, of two bytes or more; its upper case stands in no
-- name of an operation either.
unfoldable pub to_upper : Bytes → Bytes
to_upper [] = []
to_upper (c ∷ []) = upper c ∷ []
to_upper (c ∷ d ∷ s) =
    let short = to_upper s in
    let long = to_upper (d ∷ s) in
    if (c == 196) && (d == 177)
    then 73 ∷ short
    else if (c == 197) && (d == 191)
    then 83 ∷ short
    else upper c ∷ long

unfoldable pub operation_of : Bytes → Operation
unfolding to_upper
operation_of text =
    let op = to_upper text in
    if bytes_eq op (codes "CREATE")
    then create
    else if bytes_eq op (codes "MODIFY")
    then modify
    else if bytes_eq op (codes "DELETE")
    then delete
    else if bytes_eq op (codes "RENAME")
    then rename
    else other_operation op

abbrev pub part : Bytes → Bytes → Bytes → List Part
part p old new = record { part_path = p; text = unified_file p old new } ∷ []

-- the diffs of one change: an unknown operation is a change of the file
abbrev pub parts_by : Operation → Bytes → Bytes → Change → List Part
parts_by create p old c = part p [] c.content
parts_by delete p old c = part p old []
parts_by rename p old c =
    let target = trim_slash c.target_path in
    part p old []
    ++ (if is_empty target
        then []
        else part target [] (if is_empty c.content then old else c.content))
parts_by modify p old c = part p old c.content
parts_by (other_operation t) p old c = part p old c.content

-- a round of the loop; a change without a path is passed over
abbrev pub parts_of : (Bytes → Bytes) → Change → List Part
parts_of old_content c =
    let p = trim_slash c.path in
    if is_empty p then [] else parts_by (operation_of c.operation) p (old_content p) c

unfoldable pub all_parts : (Bytes → Bytes) → List Change → List Part
all_parts old_content [] = []
all_parts old_content (c ∷ cs) = parts_of old_content c ++ all_parts old_content cs

-- `FromProposed`; `none` is its error
unfoldable pub from_proposed :
    (Bytes → Bytes) → Bytes → Bytes → List Change → (Bytes → Bytes) → Option Prepared
unfolding all_parts
from_proposed sha256 id workspace changes old_content =
    let text = diff_text (all_parts old_content changes) in
    if is_empty id
    then none
    else some (record {
      change_set_id = id;
      workspace_id = workspace;
      diff = text;
      diff_hash = hash_bytes sha256 text;
    })

-- `ParseProposedJSON`, from the decoder of JSON; `none` is its error
unfoldable pub parse_proposed :
    (Bytes → Option (Bytes × List Change)) → Bytes → Option (Bytes × List Change)
parse_proposed decode raw = if is_empty (trim_space raw) then none else decode raw
