-- ===== src/Workspace/Apply/Files/Staged.antt =====
-- The staged files of an apply (local-agent/internal/workspace/apply.go): paths with an ending of their own.
use on_code.Prelude.{
  ◌+◌, ◌≡◌, refl, ap, inl, inr, true, false, [], ◌∷◌, Bytes, arith, ltb, length, bytes_eq,
  bytes_eq→eq, Bool-cases,
}
use on_code.Workspace.Apply.Files.{staged_at}

-- No staged file is written at that path.
abbrev pub IsNoStage : Bytes → Type 0
IsNoStage q = (p : Bytes) → bytes_eq q (staged_at p) ≡ false

length-staged_at : (p : Bytes) → length (staged_at p) ≡ length p + 11
length-staged_at [] = refl
length-staged_at (c ∷ p) = omega (arith, length-staged_at p)

-- No text of less than eleven bytes is the path of a staged file.
pub short-IsNoStage : (q : Bytes) → ltb (length q) 11 ≡ true → IsNoStage q
short-IsNoStage q short p = elim (Bool-cases (bytes_eq q (staged_at p))) [
  | inl same ↦
      absurd
        (ground (arith, short, ap length (bytes_eq→eq q (staged_at p) same), length-staged_at p))
  | inr other ↦ other
]
