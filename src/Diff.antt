-- ===== src/Diff.antt =====
-- local-agent/internal/diff/unified.go: the actual diff of a file, by a table of longest common
-- subsequences.
pub mod Unified
pub mod Recover
pub mod Minimal
mod Tests
use on_code.Prelude.{
  ℕ, zero, suc, ◌+◌, Bool, true, false, ◌&&◌, ◌||◌, Option, none, some, List, [], ◌∷◌, ◌++◌,
  reverse, Bytes, codes, ◌==◌, leb, if◌then◌else◌, bytes_eq, split, length, get_or,
}
use on_code.Prelude.Decimal.{decimal}

abbrev pub Line : Type 0
Line = Bytes

-- The kinds of type opKind, each with its line.
pub data DiffOp : Type 0 where
  keep del add : Line → DiffOp

-- drops the empty part behind a final newline
abbrev pub drop_last_empty : List Bytes → List Bytes
drop_last_empty [] = []
drop_last_empty (p ∷ []) = if bytes_eq p [] then [] else p ∷ []
drop_last_empty (p ∷ q ∷ ps) = p ∷ drop_last_empty (q ∷ ps)

unfoldable pub split_lines : Bytes → List Line
split_lines [] = []
split_lines (c ∷ s) = drop_last_empty (split b'\n' (c ∷ s))

-- `dp[i]` from `dp[i+1]`, its cells from the last one to the first.
unfoldable pub row : Line → List Line → List ℕ → List ℕ
row x [] below = 0 ∷ []
row x (y ∷ b) [] = 0 ∷ []
row x (y ∷ b) (down ∷ below) =
    let rest = row x b below in
    let right = get_or rest 0 0 in
    (if bytes_eq x y then get_or below 0 0 + 1 else if leb right down then down else right) ∷ rest

-- `dp[n]`
unfoldable pub last_row : List Line → List ℕ
last_row [] = 0 ∷ []
last_row (y ∷ b) = 0 ∷ last_row b

-- `dp`, its rows from the last one to the first
unfoldable pub table : List Line → List Line → List (List ℕ)
unfolding last_row row
table [] b = last_row b ∷ []
table (x ∷ a) b = let below = table a b in row x b (get_or below 0 []) ∷ below

-- `dp[i][j]`
abbrev pub cell : List (List ℕ) → ℕ → ℕ → ℕ
cell dp i j = get_or (get_or dp i []) j 0

abbrev dels : List Line → List DiffOp
dels [] = []
dels (x ∷ a) = del x ∷ dels a

abbrev adds : List Line → List DiffOp
adds [] = []
adds (y ∷ b) = add y ∷ adds b

-- The loop behind the table: `a` and `b` are the lines from `i` and `j` on.
unfoldable pub walk : List (List ℕ) → ℕ → ℕ → List Line → List Line → List DiffOp
walk dp i j [] b = adds b
walk dp i j (x ∷ a) [] = dels (x ∷ a)
walk dp i j (x ∷ a) (y ∷ b) = elim (bytes_eq x y) [
  | true ↦ keep x ∷ walk dp (suc i) (suc j) a b
  | false ↦ elim (leb (cell dp i (suc j)) (cell dp (suc i) j)) [
    | true ↦ del x ∷ walk dp (suc i) j a (y ∷ b)
    | false ↦ add y ∷ walk dp i (suc j) (x ∷ a) b
  ]
]

unfoldable pub lcs_ops : List Line → List Line → List DiffOp
unfolding walk table
lcs_ops a b = walk (table a b) 0 0 a b
