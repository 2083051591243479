-- ===== src/Diff/Minimal.antt =====
-- A diff keeps as many lines as two files can share (local-agent/internal/diff/unified.go).
use on_code.Prelude.{
  ℕ, zero, suc, ◌+◌, ◌≤◌, ◌≡◌, refl, ap, sym, List, [], ◌∷◌, arith, leb, if◌then◌else◌, bytes_eq,
  bytes_eq_refl, length, get_or, drop,
}
use on_code.Diff.{
  Line, DiffOp, keep, del, add, row, last_row, table, cell, dels, adds, walk, lcs_ops,
}

-- The length of a longest common subsequence, by the recursion that the table tabulates.
lcs : List Line → List Line → ℕ
lcs [] b = 0
lcs (x ∷ a) [] = 0
lcs (x ∷ a) (y ∷ b) =
    let down = lcs a (y ∷ b) in
    let right = lcs (x ∷ a) b in
    let both = lcs a b in if bytes_eq x y then both + 1 else if leb right down then down else right

lcs-nil : (a : List Line) → lcs a [] ≡ 0
unfolding lcs
lcs-nil [] = refl
lcs-nil (x ∷ a) = refl

-- One more line on one side adds at most one.
record Near (a b : List Line) : Type 0 where
  above : (y : Line) → (lcs a b ≤ lcs a (y ∷ b)) × (lcs a (y ∷ b) ≤ lcs a b + 1)
  left : (x : Line) → (lcs a b ≤ lcs (x ∷ a) b) × (lcs (x ∷ a) b ≤ lcs a b + 1)

near : (a b : List Line) → Near a b
unfolding lcs
near [] [] = record { above = λ y. omega arith; left = λ x. omega arith }
near [] (y ∷ b) = record {
  above = λ z. omega arith;
  left = λ x. ground (arith, (near [] b).left x);
}
near (x ∷ a) [] = record {
  above = λ y. ground (arith, (near a []).above y, lcs-nil a);
  left = λ z. omega arith;
}
near (x ∷ a) (y ∷ b) = record {
  above = λ z. ground (arith, (near a (y ∷ b)).above z, (near a (y ∷ b)).left x);
  left = λ w. ground (arith, (near (x ∷ a) b).above y, (near (x ∷ a) b).left w);
}

-- one row of the table: the lengths for all ends of `b`
lens : List Line → List Line → List ℕ
lens a [] = lcs a [] ∷ []
lens a (y ∷ b) = lcs a (y ∷ b) ∷ lens a b

lens-head : (a b : List Line) → get_or (lens a b) 0 0 ≡ lcs a b
unfolding lens
lens-head a [] = refl
lens-head a (y ∷ b) = refl

last_row-lens : (b : List Line) → last_row b ≡ lens [] b
unfolding last_row lens lcs
last_row-lens [] = refl
last_row-lens (y ∷ b) = ap (λ r. 0 ∷ r) (last_row-lens b)

row-lens : (x : Line) (a b : List Line) → row x b (lens a b) ≡ lens (x ∷ a) b
unfolding row lens
row-lens x a [] = unfold lcs in refl
row-lens x a (y ∷ b) = rw (row-lens x a b, lens-head a b, lens-head (x ∷ a) b) (unfold lcs in refl)

get_or-lens : (a b : List Line) (j : ℕ) → get_or (lens a b) j 0 ≡ lcs a (drop j b)
unfolding lens
get_or-lens a b zero = lens-head a b
get_or-lens a [] (suc j) = sym (lcs-nil a)
get_or-lens a (y ∷ b) (suc j) = get_or-lens a b j

table-head : (a b : List Line) → get_or (table a b) 0 [] ≡ lens a b
unfolding table
table-head [] b = last_row-lens b
table-head (x ∷ a) b = rw (table-head a b) (row-lens x a b)

-- Cell (i, j) is the length for the lines from `i` and from `j` on.
cell-table : (a b : List Line) (i j : ℕ) → cell (table a b) i j ≡ lcs (drop i a) (drop j b)
unfolding table
cell-table a b zero j = rw (table-head a b) (get_or-lens a b j)
cell-table [] b (suc i) j = unfold lcs in refl
cell-table (x ∷ a) b (suc i) j = cell-table a b i j

abbrev pub kept : List DiffOp → ℕ
kept [] = 0
kept (keep l ∷ ops) = suc (kept ops)
kept (del l ∷ ops) = kept ops
kept (add l ∷ ops) = kept ops

kept-adds : (b : List Line) → kept (adds b) ≡ 0
kept-adds [] = refl
kept-adds (y ∷ b) = kept-adds b

kept-dels : (a : List Line) → kept (dels a) ≡ 0
kept-dels [] = refl
kept-dels (x ∷ a) = kept-dels a

drop_next {ℓ} : {A : Type ℓ} (l r : List A) (i : ℕ) (x : A) → drop i l ≡ x ∷ r → drop (suc i) l ≡ r
drop_next [] r zero x e = cc
drop_next [] r (suc i) x e = cc
drop_next (z ∷ l) r zero x e = cc
drop_next (z ∷ l) r (suc i) x e = drop_next l r i x e

module _ (a0 b0 : List Line) where
  kept-walk :
      (i j : ℕ) (a b : List Line)
      → drop i a0 ≡ a
      → drop j b0 ≡ b
      → kept (walk (table a0 b0) i j a b) ≡ lcs a b
  unfolding walk lcs
  kept-walk i j [] b p q = kept-adds b
  kept-walk i j (x ∷ a) [] p q = kept-dels a
  kept-walk i j (x ∷ a) (y ∷ b) p q =
      let down = drop_next a0 a i x p in
      let right = drop_next b0 b j y q in
      ground (
        arith,
        kept-walk (suc i) (suc j) a b,
        kept-walk (suc i) j a (y ∷ b),
        kept-walk i (suc j) (x ∷ a) b,
        cell-table a0 b0 i (suc j),
        cell-table a0 b0 (suc i) j,
      )

-- A common part of two files: lines that stand in both, in this order.
pub data Sub : List Line → List Line → Type 0 where
  done : Sub [] []
  skip : {c a : List Line} (x : Line) → Sub c a → Sub c (x ∷ a)
  take_line : {c a : List Line} (x : Line) → Sub c a → Sub (x ∷ c) (x ∷ a)

lcs_self : (x : Line) (a b : List Line) → lcs (x ∷ a) (x ∷ b) ≡ suc (lcs a b)
unfolding lcs
lcs_self x a b = rw (bytes_eq_refl x) (omega arith)

lcs_bound : {c a b : List Line} → Sub c a → Sub c b → length c ≤ lcs a b
lcs_bound done q = omega arith
lcs_bound {b = b} (skip {a = a} x p) q = omega (arith, lcs_bound p q, (near a b).left x)
lcs_bound (take_line {a = a} x p) (skip {a = b} y q) =
    omega (arith, lcs_bound (take_line x p) q, (near (x ∷ a) b).above y)
lcs_bound (take_line {a = a} x p) (take_line {a = b} _ q) =
    omega (arith, lcs_bound p q, lcs_self x a b)

-- The diff of two files keeps at least as many lines as any common part of them has.
pub lcs_ops-minimal : (a b c : List Line) → Sub c a → Sub c b → length c ≤ kept (lcs_ops a b)
unfolding lcs_ops
lcs_ops-minimal a b c p q = omega (arith, lcs_bound p q, kept-walk a b 0 0 a b refl refl)
