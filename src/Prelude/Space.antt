-- ===== src/Prelude/Space.antt =====
-- `strings.TrimSpace` on UTF-8 bytes, with the white space of package unicode.
use on_code.Prelude.Tests.{◌==◌, leb, if◌then◌else◌}
use on_code.Prelude.Texts.{Bytes}
use Prim.Native.Nat.{ℕ, zero, suc, ◌≤◌}
use mathlib.Core.Path.{◌≡◌, sym, ap, ◌∙◌}
use mathlib.Core.Bool.{Bool, ◌&&◌, ◌||◌}
use mathlib.Core.List.{[], ◌∷◌, ◌++◌, reverse, reverse-reverse, reverse-append}
use native.Mathlib.Omega.{arith}

-- one byte: tab, line feed, vertical tab, form feed, carriage return, space
unfoldable pub is_space1 : ℕ → Bool
is_space1 a = (leb 9 a && leb a 13) || (a == 32)

-- two bytes: U+0085 and U+00A0
unfoldable pub is_space2 : ℕ → ℕ → Bool
is_space2 a b = (a == 0xc2) && ((b == 0x85) || (b == 0xa0))

-- three bytes: U+1680, U+2000 to U+200A, U+2028, U+2029, U+202F, U+205F, U+3000
unfoldable pub is_space3 : ℕ → ℕ → ℕ → Bool
is_space3 a b c =
    ((a == 0xe1) && (b == 0x9a) && (c == 0x80))
    || ((a == 0xe2)
        && (b == 0x80)
        && ((leb 0x80 c && leb c 0x8a) || (c == 0xa8) || (c == 0xa9) || (c == 0xaf)))
    || ((a == 0xe2) && (b == 0x81) && (c == 0x9f))
    || ((a == 0xe3) && (b == 0x80) && (c == 0x80))

-- how many bytes the white space at the front takes, 0 if there is none
unfoldable pub front_space : Bytes → ℕ
unfolding is_space1 is_space2 is_space3
front_space [] = 0
front_space (a ∷ []) = if is_space1 a then 1 else 0
front_space (a ∷ b ∷ []) = if is_space1 a then 1 else if is_space2 a b then 2 else 0
front_space (a ∷ b ∷ c ∷ s) =
    if is_space1 a then 1 else if is_space2 a b then 2 else if is_space3 a b c then 3 else 0

-- the same at the back of a text that is held backwards
unfoldable pub back_space : Bytes → ℕ
unfolding is_space1 is_space2 is_space3
back_space [] = 0
back_space (a ∷ []) = if is_space1 a then 1 else 0
back_space (a ∷ b ∷ []) = if is_space1 a then 1 else if is_space2 b a then 2 else 0
back_space (a ∷ b ∷ c ∷ s) =
    if is_space1 a then 1 else if is_space2 b a then 2 else if is_space3 c b a then 3 else 0

-- drops white space as long as there is some; the number counts bytes still to be dropped
unfoldable pub strip : (Bytes → ℕ) → ℕ → Bytes → Bytes
strip width n [] = []
strip width (suc n) (c ∷ s) = strip width n s
strip width zero (c ∷ s) = elim (width (c ∷ s)) [ zero ↦ c ∷ s | suc k ↦ strip width k s ]

unfoldable pub trim_space : Bytes → Bytes
unfolding strip front_space back_space
trim_space s = reverse (strip back_space 0 (reverse (strip front_space 0 s)))

-- A printable ASCII byte.
abbrev pub IsGraphic : ℕ → Type 0
IsGraphic c = (33 ≤ c) × (c ≤ 126)

pub front_space-graphic : (c : ℕ) (s : Bytes) → IsGraphic c → front_space (c ∷ s) ≡ 0
unfolding front_space
front_space-graphic c [] h = ground arith
front_space-graphic c (b ∷ []) h = ground arith
front_space-graphic c (b ∷ d ∷ s) h = ground arith

pub back_space-graphic : (c : ℕ) (s : Bytes) → IsGraphic c → back_space (c ∷ s) ≡ 0
unfolding back_space
back_space-graphic c [] h = ground arith
back_space-graphic c (b ∷ []) h = ground arith
back_space-graphic c (b ∷ d ∷ s) h = ground arith

strip-eq :
    (width : Bytes → ℕ) (c : ℕ) (s : Bytes) → width (c ∷ s) ≡ 0 → strip width 0 (c ∷ s) ≡ c ∷ s
unfolding strip
strip-eq width c s h = rw (h, strip)

-- A text that begins and ends with printable ASCII is not changed.
pub trim_space-graphic :
    (c d : ℕ) (s t : Bytes)
    → IsGraphic c
    → IsGraphic d
    → (c ∷ s) ≡ t ++ d ∷ []
    → trim_space (c ∷ s) ≡ c ∷ s
unfolding trim_space
trim_space-graphic c d s t hc hd e =
    ap (λ z. reverse (strip back_space 0 (reverse z)))
      (strip-eq front_space c s (front_space-graphic c s hc) ∙ e)
    ∙ ap (λ z. reverse (strip back_space 0 z)) (reverse-append t (d ∷ []))
    ∙ ap reverse (strip-eq back_space d (reverse t) (back_space-graphic d (reverse t) hd))
    ∙ sym (ap reverse (reverse-append t (d ∷ [])))
    ∙ reverse-reverse (t ++ d ∷ [])
    ∙ sym e
