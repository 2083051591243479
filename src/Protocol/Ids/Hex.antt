-- ===== src/Protocol/Ids/Hex.antt =====
-- What the source takes from package encoding/hex.
use on_code.Prelude.{
  ℕ, ◌+◌, ◌-◌, ◌*◌, ◌/◌, ◌%◌, ◌≤◌, ◌<◌, ◌≡◌, refl, ◌&&◌, Option, none, some, [], ◌∷◌, Bytes, arith,
  ltb, leb, if◌then◌else◌, All,
}

-- one lower-case digit
unfoldable pub hex_digit : ℕ → ℕ
hex_digit n = if ltb n 10 then 48 + n else 87 + n

-- `hex.Encode`
unfoldable pub encode : Bytes → Bytes
unfolding hex_digit
encode [] = []
encode (b ∷ s) = hex_digit (b / 16) ∷ hex_digit (b % 16) ∷ encode s

-- a digit of either case
unfoldable pub from_hex : ℕ → Option ℕ
from_hex c =
    if leb 48 c && leb c 57
    then some (c - 48)
    else if leb 97 c && leb c 102
    then some (c - 87)
    else if leb 65 c && leb c 70
    then some (c - 55)
    else none

abbrev pub cons_byte : Option ℕ → Option ℕ → Option Bytes → Option Bytes
cons_byte (some h) (some l) (some s) = some ((h * 16 + l) ∷ s)
cons_byte _ _ _ = none

-- `hex.Decode`; `none` for a byte that is no digit and for an odd length
unfoldable pub decode : Bytes → Option Bytes
unfolding from_hex
decode [] = some []
decode (c ∷ []) = none
decode (c ∷ d ∷ s) = cons_byte (from_hex c) (from_hex d) (decode s)

from_hex-hex_digit : (n : ℕ) → n < 16 → from_hex (hex_digit n) ≡ some n
unfolding from_hex hex_digit
from_hex-hex_digit n h = ground arith

pub decode-cons :
    (b : ℕ) (s t : Bytes)
    → b < 256
    → decode s ≡ some t
    → decode (hex_digit (b / 16) ∷ hex_digit (b % 16) ∷ s) ≡ some (b ∷ t)
unfolding decode
decode-cons b s t h e =
    rw (from_hex-hex_digit (b / 16) (omega arith), from_hex-hex_digit (b % 16) (omega arith), e)
      (ground arith)

pub decode-encode : (s : Bytes) → All (λ b. b < 256) s → decode (encode s) ≡ some s
unfolding encode
decode-encode [] h = unfold decode in refl
decode-encode (b ∷ s) h = decode-cons b (encode s) s h.0 (decode-encode s h.1)

-- A digit that the encoder writes is printable and no dash.
pub hex_digit_range : (n : ℕ) → n < 16 → (48 ≤ hex_digit n) × (hex_digit n ≤ 102)
unfolding hex_digit
hex_digit_range n h = ground arith

abbrev IsNibble : Option ℕ → Type 0
IsNibble none = Unit
IsNibble (some n) = n < 16

abbrev pub HoldsBytes : Option Bytes → Type 0
HoldsBytes none = Unit
HoldsBytes (some s) = All (λ b. b < 256) s

from_hex-IsNibble : (c : ℕ) → IsNibble (from_hex c)
unfolding from_hex
from_hex-IsNibble c = ground arith

cons_byte-HoldsBytes :
    (h l : Option ℕ) (s : Option Bytes)
    → IsNibble h
    → IsNibble l
    → HoldsBytes s
    → HoldsBytes (cons_byte h l s)
cons_byte-HoldsBytes (some h) (some l) (some s) p q r = (omega arith, r)
cons_byte-HoldsBytes none l s p q r = tt
cons_byte-HoldsBytes (some h) none s p q r = tt
cons_byte-HoldsBytes (some h) (some l) none p q r = tt

-- What is decoded holds bytes.
pub decode-HoldsBytes : (s : Bytes) → HoldsBytes (decode s)
unfolding decode
decode-HoldsBytes [] = tt
decode-HoldsBytes (c ∷ []) = tt
decode-HoldsBytes (c ∷ d ∷ s) =
    cons_byte-HoldsBytes (from_hex c) (from_hex d) (decode s) (from_hex-IsNibble c)
      (from_hex-IsNibble d) (decode-HoldsBytes s)
