-- ===== src/Prelude/Utf8.antt =====
-- `utf8.Valid` of package unicode/utf8.
use Prim.Native.Nat.{ℕ}
use mathlib.Core.Bool.{Bool, true, ◌&&◌}
use mathlib.Core.List.{[], ◌∷◌}
use on_code.Prelude.Tests.{leb, ltb, ◌==◌, if◌then◌else◌}
use on_code.Prelude.Texts.{Bytes}

-- a byte behind the first one
abbrev is_next : ℕ → Bool
is_next b = leb 0x80 b && leb b 0xbf

abbrev in_range : ℕ → ℕ → ℕ → Bool
in_range lo hi b = leb lo b && leb b hi

-- the second byte of three: no overlong form and no surrogate
abbrev second_of_three : ℕ → ℕ → Bool
second_of_three a b =
    if a == 0xe0
    then in_range 0xa0 0xbf b
    else if a == 0xed
    then in_range 0x80 0x9f b
    else is_next b

-- the second byte of four: no overlong form and nothing above U+10FFFF
abbrev second_of_four : ℕ → ℕ → Bool
second_of_four a b =
    if a == 0xf0
    then in_range 0x90 0xbf b
    else if a == 0xf4
    then in_range 0x80 0x8f b
    else is_next b

unfoldable pub valid_utf8 : Bytes → Bool
valid_utf8 [] = true
valid_utf8 (a ∷ []) = ltb a 0x80
valid_utf8 (a ∷ b ∷ []) =
    let after1 = valid_utf8 (b ∷ []) in
    if ltb a 0x80 then after1 else in_range 0xc2 0xdf a && is_next b
valid_utf8 (a ∷ b ∷ c ∷ []) =
    let after1 = valid_utf8 (b ∷ c ∷ []) in
    let after2 = valid_utf8 (c ∷ []) in
    if ltb a 0x80
    then after1
    else if in_range 0xc2 0xdf a
    then is_next b && after2
    else in_range 0xe0 0xef a && second_of_three a b && is_next c
valid_utf8 (a ∷ b ∷ c ∷ d ∷ s) =
    let after1 = valid_utf8 (b ∷ c ∷ d ∷ s) in
    let after2 = valid_utf8 (c ∷ d ∷ s) in
    let after3 = valid_utf8 (d ∷ s) in
    let after4 = valid_utf8 s in
    if ltb a 0x80
    then after1
    else if in_range 0xc2 0xdf a
    then is_next b && after2
    else if in_range 0xe0 0xef a
    then second_of_three a b && is_next c && after3
    else in_range 0xf0 0xf4 a && second_of_four a b && is_next c && is_next d && after4
