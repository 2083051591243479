-- ===== src/Prelude/Decimal.antt =====
-- `%d` of fmt for numbers that are not negative, and `strconv.Atoi` with 64-bit ints.
use Prim.Native.Nat.{ℕ, zero, suc, ◌+◌, ◌-◌, ◌*◌, ◌/◌, ◌%◌, ◌^◌, ◌≤◌, ◌<◌}
use mathlib.Core.Path.{◌≡◌, refl, ap}
use mathlib.Core.Logic.{inl, inr}
use mathlib.Core.Bool.{Bool, ◌&&◌}
use mathlib.Core.List.{[], ◌∷◌, ◌++◌}
use mathlib.Core.Option.{Option, none, some}
use native.Mathlib.Omega.{arith}
use on_code.Prelude.Tests.{◌==◌, ltb, leb, if◌then◌else◌, Bool-cases}
use on_code.Prelude.Lists.{All}
use on_code.Prelude.Texts.{Bytes}

-- Signed integers; `negsuc n` is -(n + 1).
pub data ℤ : Type 0 where
  pos : ℕ → ℤ
  negsuc : ℕ → ℤ

-- -n
unfoldable pub negate : ℕ → ℤ
negate zero = pos 0
negate (suc n) = negsuc n

-- the digits of `n` before `out`; the first argument bounds the rounds
unfoldable pub digits : ℕ → ℕ → Bytes → Bytes
digits zero n out = out
digits (suc f) n out =
    let rest = digits f (n / 10) ((48 + n % 10) ∷ out) in if ltb n 10 then (48 + n) ∷ out else rest

-- a number has no more digits than its successor has units
unfoldable pub decimal : ℕ → Bytes
unfolding digits
decimal n = digits (suc n) n []

abbrev pub is_digit : ℕ → Bool
is_digit c = leb 48 c && leb c 57

-- the value of a text of digits behind the value of the digits before it
unfoldable pub scan : ℕ → Bytes → Option ℕ
scan n [] = some n
scan n (c ∷ s) = if is_digit c then scan (n * 10 + (c - 48)) s else none

unfoldable pub unsigned : Bytes → Option ℕ
unfolding scan
unsigned [] = none
unsigned (c ∷ s) = scan 0 (c ∷ s)

abbrev pub in_range : ℕ → (ℕ → ℤ) → Option ℕ → Option ℤ
in_range limit sign none = none
in_range limit sign (some n) = if leb n limit then some (sign n) else none

unfoldable pub atoi : Bytes → Option ℤ
unfolding unsigned
atoi [] = none
atoi (c ∷ s) =
    if c == b'-'
    then in_range (2 ^ 63) negate (unsigned s)
    else if c == b'+'
    then in_range (2 ^ 63 - 1) pos (unsigned s)
    else in_range (2 ^ 63 - 1) pos (unsigned (c ∷ s))

scan_last : (n : ℕ) (out : Bytes) → scan (n / 10) ((48 + n % 10) ∷ out) ≡ scan n out
unfolding scan
scan_last n out = ground arith

scan_first : (n : ℕ) (out : Bytes) → n < 10 → scan 0 ((48 + n) ∷ out) ≡ scan n out
unfolding scan
scan_first n out h = ground arith

scan-digits : (f n : ℕ) (out : Bytes) → n < f → scan 0 (digits f n out) ≡ scan n out
unfolding digits
scan-digits zero n out h = absurd (omega arith)
scan-digits (suc f) n out h =
    ground (arith, scan_first n out, scan_last n out, scan-digits f (n / 10) ((48 + n % 10) ∷ out))

abbrev pub IsDigit : ℕ → Type 0
IsDigit c = (48 ≤ c) × (c ≤ 57)

digits-IsDigit : (f n : ℕ) (out : Bytes) → All IsDigit out → All IsDigit (digits f n out)
unfolding digits
digits-IsDigit zero n out h = h
digits-IsDigit (suc f) n out h = elim (Bool-cases (ltb n 10)) [
  | inl small ↦ rw small (ground arith, h)
  | inr big ↦ rw big (digits-IsDigit f (n / 10) ((48 + n % 10) ∷ out) (ground arith, h))
]

abbrev IsCons : Bytes → Type 0
IsCons l = (c : ℕ) × (s : Bytes) × (l ≡ c ∷ s)

digits-IsCons : (f n x : ℕ) (out : Bytes) → IsCons (digits f n (x ∷ out))
unfolding digits
digits-IsCons zero n x out = (x, out, refl)
digits-IsCons (suc f) n x out = elim (Bool-cases (ltb n 10)) [
  | inl small ↦ (48 + n, x ∷ out, rw small)
  | inr big ↦ rw big (digits-IsCons f (n / 10) (48 + n % 10) (x ∷ out))
]

decimal-IsCons : (n : ℕ) → IsCons (decimal n)
unfolding decimal
decimal-IsCons n = elim (Bool-cases (ltb n 10)) [
  | inl small ↦ (48 + n, [], rw small)
  | inr big ↦ rw big (digits-IsCons n (n / 10) (48 + n % 10) [])
]

pub decimal-IsDigit : (n : ℕ) → All IsDigit (decimal n)
unfolding decimal
decimal-IsDigit n = digits-IsDigit (suc n) n [] tt

scan-decimal : (n : ℕ) → scan 0 (decimal n) ≡ some n
unfolding decimal scan
scan-decimal n = scan-digits (suc n) n [] (omega arith)

atoi-digits :
    (s : Bytes) (n : ℕ)
    → IsCons s
    → All IsDigit s
    → scan 0 s ≡ some n
    → n < 2 ^ 63
    → atoi s ≡ some (pos n)
unfolding atoi
atoi-digits [] n (c, t, e) h v b = cc
atoi-digits (c ∷ s) n w h v b = ground arith

-- Every int that is not negative is read back from its decimal print.
pub atoi-decimal : (n : ℕ) → n < 2 ^ 63 → atoi (decimal n) ≡ some (pos n)
atoi-decimal n b =
    atoi-digits (decimal n) n (decimal-IsCons n) (decimal-IsDigit n) (scan-decimal n) b

All-concat :
    (s : Bytes) → IsCons s → All IsDigit s → (t : Bytes) × (d : ℕ) × (s ≡ t ++ d ∷ []) × IsDigit d
All-concat [] w h = absurd (cc w.2)
All-concat (c ∷ []) w h = ([], c, refl, h.0)
All-concat (c ∷ b ∷ s) w h =
    let (t, d, e, p) = All-concat (b ∷ s) (b, s, refl) h.1 in (c ∷ t, d, ap (λ l. c ∷ l) e, p)

-- A decimal print ends in a digit.
pub decimal-concat : (n : ℕ) → (t : Bytes) × (d : ℕ) × (decimal n ≡ t ++ d ∷ []) × IsDigit d
decimal-concat n = All-concat (decimal n) (decimal-IsCons n) (decimal-IsDigit n)
