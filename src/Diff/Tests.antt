-- ===== src/Diff/Tests.antt =====
-- Examples of diffs (local-agent/internal/diff/unified.go).
use on_code.Prelude.{◌≡◌, ◌≤◌, refl, List, [], ◌∷◌, codes, bytes_eq, split, cut}
use on_code.Prelude.Decimal.{decimal}
use on_code.Diff.{Line, keep, del, add, split_lines, row, last_row, table, walk, lcs_ops}
use on_code.Diff.Minimal.{kept, skip, take_line, done, lcs_ops-minimal}
use on_code.Diff.Recover.{old_side, new_side, lcs_ops-Spells}
use on_code.Diff.Unified.{
  unified_file, unified_join, op_text, ops_text, trim_slash, old_header, new_header, hunk,
  ends_in_newline,
}

abbrev old : List Line
old = codes "a" ∷ codes "b" ∷ codes "c" ∷ []

abbrev new : List Line
new = codes "b" ∷ codes "d" ∷ codes "c" ∷ []

lcs_ops-Spells_example : (old_side (lcs_ops old new) ≡ old) × (new_side (lcs_ops old new) ≡ new)
lcs_ops-Spells_example = lcs_ops-Spells old new

lcs_ops-minimal_example : 2 ≤ kept (lcs_ops old new)
lcs_ops-minimal_example =
    lcs_ops-minimal old new (codes "b" ∷ codes "c" ∷ [])
      (skip (codes "a") (take_line (codes "b") (take_line (codes "c") done)))
      (take_line (codes "b") (skip (codes "d") (take_line (codes "c") done)))

lcs_ops_test :
    lcs_ops old new ≡ del (codes "a") ∷ keep (codes "b") ∷ add (codes "d") ∷ keep (codes "c") ∷ []
unfolding lcs_ops walk table row last_row bytes_eq
lcs_ops_test = refl

unified_file_test :
    unified_file (codes "/x") (codes "a\n") (codes "b\n")
    ≡ codes "--- a/x\n+++ b/x\n@@ -1,1 +1,1 @@\n-a\n+b\n"
unfolding unified_file split_lines split cut lcs_ops walk table row last_row bytes_eq op_text
    ops_text trim_slash old_header new_header hunk decimal
unified_file_test = refl

unified_join_test : unified_join (codes "a" ∷ [] ∷ codes "b\n" ∷ []) ≡ codes "a\nb\n"
unfolding unified_join ends_in_newline
unified_join_test = refl
