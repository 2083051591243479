-- ===== src/Diff/Unified.antt =====
-- The text of a diff (`UnifiedFile` and `UnifiedJoin` of local-agent/internal/diff/unified.go).
use on_code.Prelude.{
  is_empty, ℕ, Bool, false, ◌&&◌, List, [], ◌∷◌, ◌++◌, Bytes, codes, ◌==◌, if◌then◌else◌, length,
}
use on_code.Prelude.Decimal.{decimal}
use on_code.Diff.{Line, DiffOp, keep, del, add, split_lines, lcs_ops}

-- one line of the diff and its newline
unfoldable pub op_text : DiffOp → Bytes
op_text (keep l) = b' ' ∷ (l ++ b'\n' ∷ [])
op_text (del l) = b'-' ∷ (l ++ b'\n' ∷ [])
op_text (add l) = b'+' ∷ (l ++ b'\n' ∷ [])

unfoldable pub ops_text : List DiffOp → Bytes
unfolding op_text
ops_text [] = []
ops_text (op ∷ ops) = op_text op ++ ops_text ops

-- `strings.TrimPrefix(path, "/")`
unfoldable pub trim_slash : Bytes → Bytes
trim_slash [] = []
trim_slash (c ∷ s) = if c == b'/' then s else c ∷ s

abbrev pub named : Bytes → Bytes
named [] = codes "unknown"
named (c ∷ s) = c ∷ s

-- the first line, for a file that is absent or not before the change
unfoldable pub old_header : Bytes → Bytes → Bytes
old_header path old = if is_empty old then codes "--- /dev/null" else codes "--- a/" ++ path

unfoldable pub new_header : Bytes → Bytes → Bytes → Bytes
new_header path old new =
    if is_empty old
    then codes "+++ b/" ++ path
    else if is_empty new
    then codes "+++ /dev/null"
    else codes "+++ b/" ++ path

-- the number of the first line: 0 for no lines
abbrev pub start : List Line → ℕ
start [] = 0
start (l ∷ ls) = 1

abbrev pub concat : List Bytes → Bytes
concat [] = []
concat (p ∷ ps) = p ++ concat ps

abbrev pub hunk_parts : List Line → List Line → List Bytes
hunk_parts old new =
    codes "@@ -"
    ∷ decimal (start old)
    ∷ codes ","
    ∷ decimal (length old)
    ∷ codes " +"
    ∷ decimal (start new)
    ∷ codes ","
    ∷ decimal (length new)
    ∷ codes " @@"
    ∷ []

unfoldable pub hunk : List Line → List Line → Bytes
hunk old new = concat (hunk_parts old new)

unfoldable pub unified_file : Bytes → Bytes → Bytes → Bytes
unfolding old_header new_header hunk ops_text trim_slash
unified_file path old new =
    let p = named (trim_slash path) in
    let a = split_lines old in
    let b = split_lines new in
    if is_empty old && is_empty new
    then []
    else old_header p old
      ++ b'\n' ∷ (new_header p old new ++ b'\n' ∷ (hunk a b ++ b'\n' ∷ ops_text (lcs_ops a b)))

-- `strings.HasSuffix(p, "\n")`
unfoldable pub ends_in_newline : Bytes → Bool
ends_in_newline [] = false
ends_in_newline (c ∷ []) = c == b'\n'
ends_in_newline (c ∷ d ∷ s) = ends_in_newline (d ∷ s)

unfoldable pub unified_join : List Bytes → Bytes
unfolding ends_in_newline
unified_join [] = []
unified_join (p ∷ ps) =
    let rest = unified_join ps in
    if is_empty p then rest else if ends_in_newline p then p ++ rest else p ++ b'\n' ∷ rest
