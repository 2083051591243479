-- ===== src/Prelude/Texts.antt =====
-- Go's strings as lists of bytes, and what the source takes from package strings.
use Prim.Native.Nat.{ℕ, suc}
use Prim.Native.Char.{code}
use Prim.Native.String.{String}
use mathlib.Core.Path.{◌≡◌, refl}
use mathlib.Core.Logic.{◌↔◌, ◌≢◌}
use mathlib.Core.Bool.{Bool, true, false, ◌&&◌}
use mathlib.Core.List.{List, [], ◌∷◌, ◌++◌, append_assoc, append-nil}
use mathlib.Core.Option.{Option, none, some}
use native.Mathlib.Omega.{arith}
use on_code.Prelude.Tests.{◌==◌, if◌then◌else◌}
use on_code.Prelude.Lists.{All}

abbrev pub Bytes : Type 0
Bytes = List ℕ

abbrev pub is_empty : Bytes → Bool
is_empty [] = true
is_empty (c ∷ s) = false

-- The bytes of an ASCII literal.
abbrev pub codes : String → Bytes
codes String.[] = []
codes (String.◌∷◌ c s) = code c ∷ codes s

-- `a == b` of two strings.
unfoldable pub bytes_eq : Bytes → Bytes → Bool
bytes_eq [] [] = true
bytes_eq (x ∷ xs) (y ∷ ys) = (x == y) && bytes_eq xs ys
bytes_eq _ _ = false

pub bytes_eq→eq : (a b : Bytes) → bytes_eq a b ≡ true → a ≡ b
unfolding bytes_eq
bytes_eq→eq [] [] h = refl
bytes_eq→eq (x ∷ xs) (y ∷ ys) h = ground (arith, bytes_eq→eq xs ys)
bytes_eq→eq [] (y ∷ ys) h = cc
bytes_eq→eq (x ∷ xs) [] h = cc

pub bytes_eq_refl : (a : Bytes) → bytes_eq a a ≡ true
unfolding bytes_eq
bytes_eq_refl [] = refl
bytes_eq_refl (x ∷ xs) = ground (arith, bytes_eq_refl xs)

pub bytes_eq_iff : (a b : Bytes) → (bytes_eq a b ≡ true) ↔ (a ≡ b)
bytes_eq_iff a b = (bytes_eq→eq a b, λ e. rw e (bytes_eq_refl b))

-- `strings.HasPrefix(s, p)`
unfoldable pub has_prefix : Bytes → Bytes → Bool
has_prefix s [] = true
has_prefix (x ∷ s) (y ∷ p) = (x == y) && has_prefix s p
has_prefix [] (y ∷ p) = false

pub has_prefix-append : (p s : Bytes) → has_prefix (p ++ s) p ≡ true
unfolding has_prefix
has_prefix-append [] s = refl
has_prefix-append (y ∷ p) s = ground (arith, has_prefix-append p s)

abbrev pub Lacks : ℕ → Bytes → Type 0
Lacks b = All (λ c. c ≢ b)

-- `strings.Split(s, sep)` for a separator of one byte: there is always a part.
unfoldable pub cut : ℕ → Bytes → Bytes → List Bytes
cut sep cur [] = cur ∷ []
cut sep cur (c ∷ s) = elim (c == sep) [
  | true ↦ cur ∷ cut sep [] s
  | false ↦ cut sep (cur ++ c ∷ []) s
]

unfoldable pub split : ℕ → Bytes → List Bytes
unfolding cut
split sep s = cut sep [] s

pub cut-append :
    (sep : ℕ) (p cur rest : Bytes) → Lacks sep p → cut sep cur (p ++ rest) ≡ cut sep (cur ++ p) rest
unfolding cut
cut-append sep [] cur rest h = rw append-nil
cut-append sep (c ∷ p) cur rest h =
    ground (arith, cut-append sep p (cur ++ c ∷ []) rest, append_assoc cur (c ∷ []) p)

pub cut_at_sep : (sep : ℕ) (cur rest : Bytes) → cut sep cur (sep ∷ rest) ≡ cur ∷ cut sep [] rest
unfolding cut
cut_at_sep sep cur rest = ground arith

-- The first part of a text.
pub split_line :
    (sep : ℕ) (l rest : Bytes) → Lacks sep l → split sep (l ++ sep ∷ rest) ≡ l ∷ split sep rest
unfolding split
split_line sep l rest h = rw (cut-append sep l [] (sep ∷ rest) h, cut_at_sep sep l rest) refl

-- One separator between two parts that hold none.
pub split_pair :
    (sep : ℕ) (p q : Bytes) → Lacks sep p → Lacks sep q → split sep (p ++ sep ∷ q) ≡ p ∷ q ∷ []
unfolding split
split_pair sep p q hp hq =
    rw (cut-append sep p [] (sep ∷ q) hp, cut_at_sep sep p q, ← append-nil q)
      (rw (cut-append sep q [] [] hq) (unfold cut in rw append-nil))

-- `strings.IndexByte(s, b)`, with `none` for -1
unfoldable pub index_byte : ℕ → Bytes → Option ℕ
index_byte b [] = none
index_byte b (c ∷ s) =
    if c == b then some 0 else elim (index_byte b s) [ none ↦ none | some i ↦ some (suc i) ]
