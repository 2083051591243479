-- ===== src/Diff/Recover.antt =====
-- The operations of a diff spell both files (local-agent/internal/diff/unified.go).
use on_code.Prelude.{ℕ, suc, ◌≡◌, refl, ap, List, [], ◌∷◌, arith, bytes_eq→eq}
use on_code.Diff.{Line, DiffOp, keep, del, add, dels, adds, walk, lcs_ops}

-- the lines that the file has before the change
abbrev pub old_side : List DiffOp → List Line
old_side [] = []
old_side (keep l ∷ ops) = l ∷ old_side ops
old_side (del l ∷ ops) = l ∷ old_side ops
old_side (add l ∷ ops) = old_side ops

-- the lines that it has after the change
abbrev pub new_side : List DiffOp → List Line
new_side [] = []
new_side (keep l ∷ ops) = l ∷ new_side ops
new_side (del l ∷ ops) = new_side ops
new_side (add l ∷ ops) = l ∷ new_side ops

abbrev Spells : List Line → List Line → List DiffOp → Type 0
Spells a b ops = (old_side ops ≡ a) × (new_side ops ≡ b)

adds-Spells : (b : List Line) → Spells [] b (adds b)
adds-Spells [] = (refl, refl)
adds-Spells (y ∷ b) = let (p, q) = adds-Spells b in (p, ap (λ l. y ∷ l) q)

dels-Spells : (a : List Line) → Spells a [] (dels a)
dels-Spells [] = (refl, refl)
dels-Spells (x ∷ a) = let (p, q) = dels-Spells a in (ap (λ l. x ∷ l) p, q)

walk-Spells : (dp : List (List ℕ)) (i j : ℕ) (a b : List Line) → Spells a b (walk dp i j a b)
unfolding walk
walk-Spells dp i j [] b = adds-Spells b
walk-Spells dp i j (x ∷ a) [] = dels-Spells (x ∷ a)
walk-Spells dp i j (x ∷ a) (y ∷ b) = ground (
  arith,
  bytes_eq→eq x y,
  walk-Spells dp (suc i) (suc j) a b,
  walk-Spells dp (suc i) j a (y ∷ b),
  walk-Spells dp i (suc j) (x ∷ a) b,
)

-- The kept and deleted lines of a diff are the old file, and the kept and added lines the new one.
pub lcs_ops-Spells : (a b : List Line) → (old_side (lcs_ops a b) ≡ a) × (new_side (lcs_ops a b) ≡ b)
unfolding lcs_ops
lcs_ops-Spells a b = walk-Spells _ 0 0 a b
