-- ===== src/Session/Change.antt =====
-- `diffHasContentChange` of local-agent/internal/idesession/hub.go: does a diff change a file?
use on_code.Prelude.{
  is_empty, ℕ, ◌≡◌, ◌≢◌, refl, ap, ◌∙◌, inl, inr, Bool-cases, Bool, false, not, ◌&&◌, ◌||◌, List,
  [], ◌∷◌, ◌++◌, Bytes, codes, ◌==◌, arith, has_prefix, bytes_eq, length, All-append, split, cut,
  split_line, All, Lacks, append_assoc,
}
use on_code.Prelude.Decimal.{decimal, decimal-IsDigit, IsDigit}
use on_code.Diff.{Line, DiffOp, keep, del, add, split_lines, drop_last_empty, lcs_ops}
use on_code.Diff.Recover.{old_side, new_side, lcs_ops-Spells}
use on_code.Diff.Unified.{
  op_text, ops_text, unified_file, old_header, new_header, hunk, hunk_parts, concat, start, named,
  trim_slash,
}

-- one round of the loop
abbrev line_changes : Bytes → Bool
line_changes line =
    not (has_prefix line (codes "+++") || has_prefix line (codes "---"))
    && (has_prefix line (codes "+") || has_prefix line (codes "-"))

unfoldable pub any_changes : List Bytes → Bool
any_changes [] = false
any_changes (l ∷ ls) = line_changes l || any_changes ls

unfoldable pub diff_has_content_change : Bytes → Bool
unfolding any_changes
diff_has_content_change text = any_changes (split b'\n' text)

change-line :
    (l rest : Bytes)
    → Lacks b'\n' l
    → diff_has_content_change (l ++ b'\n' ∷ rest) ≡ (line_changes l || diff_has_content_change rest)
unfolding diff_has_content_change
change-line l rest h = rw (split_line b'\n' l rest h)

-- What the loop sees of an operation: a deleted line that begins with "--" and an added one that
-- begins with "++" look like the header of a file.
abbrev pub is_seen : DiffOp → Bool
is_seen (keep l) = false
is_seen (del l) = not (has_prefix l (codes "--"))
is_seen (add l) = not (has_prefix l (codes "++"))

abbrev pub any_seen : List DiffOp → Bool
any_seen [] = false
any_seen (op ∷ ops) = is_seen op || any_seen ops

abbrev op_line : DiffOp → Line
op_line (keep l) = l
op_line (del l) = l
op_line (add l) = l

abbrev IsLines : List DiffOp → Type 0
IsLines = All (λ op. Lacks b'\n' (op_line op))

change-mark :
    (c : ℕ) (l rest : Bytes)
    → c ≢ b'\n'
    → Lacks b'\n' l
    → diff_has_content_change (c ∷ (l ++ b'\n' ∷ []) ++ rest)
      ≡ (line_changes (c ∷ l) || diff_has_content_change rest)
change-mark c l rest n h =
    ap (λ t. diff_has_content_change (c ∷ t)) (append_assoc l (b'\n' ∷ []) rest)
    ∙ change-line (c ∷ l) rest (n, h)

change-op :
    (op : DiffOp) (rest : Bytes)
    → Lacks b'\n' (op_line op)
    → diff_has_content_change (op_text op ++ rest) ≡ (is_seen op || diff_has_content_change rest)
unfolding op_text has_prefix
change-op (keep l) rest h = change-mark b' ' l rest (omega arith) h
change-op (del l) rest h = change-mark b'-' l rest (omega arith) h ∙ ground arith
change-op (add l) rest h = change-mark b'+' l rest (omega arith) h ∙ ground arith

change-ops :
    (ops : List DiffOp) → IsLines ops → diff_has_content_change (ops_text ops) ≡ any_seen ops
unfolding ops_text
change-ops [] h = unfold diff_has_content_change split cut has_prefix in refl
change-ops (op ∷ ops) h = rw (change-op op (ops_text ops) h.0, change-ops ops h.1)

-- The parts of a split hold no separator.
cut-Lacks : (sep : ℕ) (cur s : Bytes) → Lacks sep cur → All (Lacks sep) (cut sep cur s)
unfolding cut
cut-Lacks sep cur [] h = (h, tt)
cut-Lacks sep cur (c ∷ s) h = elim (Bool-cases (c == sep)) [
  | inl same ↦ rw (same, All) (h, cut-Lacks sep [] s tt)
  | inr other ↦
      rw (other, All)
        (cut-Lacks sep (cur ++ c ∷ []) s
          (All-append (λ d. d ≢ sep) cur (c ∷ []) h (ground arith, tt)))
]

drop_last_empty-All : (P : Bytes → Type 0) (ls : List Bytes) → All P ls → All P (drop_last_empty ls)
drop_last_empty-All P [] h = tt
drop_last_empty-All P (p ∷ []) h = elim (Bool-cases (bytes_eq p [])) [
  | inl empty ↦ rw empty tt
  | inr given ↦ rw given h
]
drop_last_empty-All P (p ∷ q ∷ ps) h = (h.0, drop_last_empty-All P (q ∷ ps) h.1)

split_lines-Lacks : (s : Bytes) → All (Lacks b'\n') (split_lines s)
unfolding split_lines split
split_lines-Lacks [] = tt
split_lines-Lacks (c ∷ s) = drop_last_empty-All _ _ (cut-Lacks b'\n' [] (c ∷ s) tt)

-- Every line of an operation stands in one of the two files.
sides-IsLines :
    (ops : List DiffOp)
    → All (Lacks b'\n') (old_side ops)
    → All (Lacks b'\n') (new_side ops)
    → IsLines ops
sides-IsLines [] p q = tt
sides-IsLines (keep l ∷ ops) p q = (p.0, sides-IsLines ops p.1 q.1)
sides-IsLines (del l ∷ ops) p q = (p.0, sides-IsLines ops p.1 q)
sides-IsLines (add l ∷ ops) p q = (q.0, sides-IsLines ops p q.1)

lcs_ops-IsLines : (old new : Bytes) → IsLines (lcs_ops (split_lines old) (split_lines new))
lcs_ops-IsLines old new =
    let (p, q) = lcs_ops-Spells (split_lines old) (split_lines new) in
    sides-IsLines (lcs_ops (split_lines old) (split_lines new)) (rw p (split_lines-Lacks old))
      (rw q (split_lines-Lacks new))

digits-Lacks : (s : Bytes) → All IsDigit s → Lacks b'\n' s
digits-Lacks [] h = tt
digits-Lacks (c ∷ s) h = (omega arith, digits-Lacks s h.1)

decimal-Lacks : (n : ℕ) → Lacks b'\n' (decimal n)
decimal-Lacks n = digits-Lacks (decimal n) (decimal-IsDigit n)

join : (xs ys : Bytes) → Lacks b'\n' xs → Lacks b'\n' ys → Lacks b'\n' (xs ++ ys)
join xs ys = All-append (λ c. c ≢ b'\n') xs ys

concat-Lacks : (ps : List Bytes) → All (Lacks b'\n') ps → Lacks b'\n' (concat ps)
concat-Lacks [] h = tt
concat-Lacks (p ∷ ps) h = join p (concat ps) h.0 (concat-Lacks ps h.1)

hunk-Lacks : (a b : List Line) → Lacks b'\n' (hunk a b)
unfolding hunk
hunk-Lacks a b = concat-Lacks (hunk_parts a b) (
  omega arith,
  (
    decimal-Lacks (start a),
    (
      omega arith,
      (
        decimal-Lacks (length a),
        (
          omega arith,
          (decimal-Lacks (start b), (omega arith, (decimal-Lacks (length b), (omega arith, tt)))),
        ),
      ),
    ),
  ),
)

-- A line that the loop passes over, and its newline.
IsHeader : Bytes → Type 0
IsHeader l = Lacks b'\n' l × (line_changes l ≡ false)

old_header-IsHeader : (p old : Bytes) → Lacks b'\n' p → IsHeader (old_header p old)
unfolding old_header has_prefix IsHeader
old_header-IsHeader p [] h = (omega arith, refl)
old_header-IsHeader p (c ∷ s) h = (join (codes "--- a/") p (omega arith) h, refl)

new_header-IsHeader : (p old new : Bytes) → Lacks b'\n' p → IsHeader (new_header p old new)
unfolding new_header has_prefix IsHeader
new_header-IsHeader p [] new h = (join (codes "+++ b/") p (omega arith) h, refl)
new_header-IsHeader p (c ∷ s) [] h = (omega arith, refl)
new_header-IsHeader p (c ∷ s) (d ∷ t) h = (join (codes "+++ b/") p (omega arith) h, refl)

hunk-IsHeader : (a b : List Line) → IsHeader (hunk a b)
unfolding IsHeader
hunk-IsHeader a b = (hunk-Lacks a b, unfold hunk has_prefix in refl)

change-header :
    (l rest : Bytes)
    → IsHeader l
    → diff_has_content_change (l ++ b'\n' ∷ rest) ≡ diff_has_content_change rest
unfolding IsHeader
change-header l rest h = rw (change-line l rest h.0, h.1)

-- what the source writes in front of a path is removed, and an empty path gets a name
path_of : Bytes → Bytes
path_of path = named (trim_slash path)

named-Lacks : (s : Bytes) → Lacks b'\n' s → Lacks b'\n' (named s)
named-Lacks [] h = omega arith
named-Lacks (c ∷ s) h = h

trim_slash-Lacks : (s : Bytes) → Lacks b'\n' s → Lacks b'\n' (trim_slash s)
unfolding trim_slash
trim_slash-Lacks [] h = tt
trim_slash-Lacks (c ∷ s) h = elim (Bool-cases (c == b'/')) [
  | inl slash ↦ rw (slash, All) h.1
  | inr other ↦ rw (other, All) h
]

path_of-Lacks : (path : Bytes) → Lacks b'\n' path → Lacks b'\n' (path_of path)
unfolding path_of
path_of-Lacks path h = named-Lacks (trim_slash path) (trim_slash-Lacks path h)

-- For a path without newlines, and unless both texts are empty, the test on the diff of a file says
-- whether some deleted line does not begin with "--" or some added line does not begin with "++".
pub change-unified_file :
    (path old new : Bytes)
    → Lacks b'\n' path
    → is_empty old && is_empty new ≡ false
    → diff_has_content_change (unified_file path old new)
      ≡ any_seen (lcs_ops (split_lines old) (split_lines new))
unfolding unified_file path_of
change-unified_file path old new h e =
    let p = path_of-Lacks path h in
    let a = split_lines old in
    let b = split_lines new in
    rw e (
      change-header (old_header (path_of path) old) _ (old_header-IsHeader (path_of path) old p)
      ∙ change-header (new_header (path_of path) old new) _
          (new_header-IsHeader (path_of path) old new p)
      ∙ change-header (hunk a b) _ (hunk-IsHeader a b)
      ∙ change-ops (lcs_ops a b) (lcs_ops-IsLines old new))
