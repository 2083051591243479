-- ===== src/Protocol/Ids/Uuids.antt =====
-- UUIDs of protocol/ids/ids.go: the array [16]byte as a record of sixteen bytes.
use on_code.Prelude.{
  ℕ, ◌/◌, ◌%◌, ◌^◌, ◌<◌, ◌≡◌, Bool, true, false, ◌&&◌, Option, none, some, [], ◌∷◌, ◌++◌, Bytes,
  ◌==◌, if◌then◌else◌, All, length, get_or, slice,
}
use Prim.Native.Nat.{bit_and, bit_or}
use on_code.Protocol.Ids.Hex

pub record Uuid : Type 0 where
  pub b0 : ℕ
  pub b1 : ℕ
  pub b2 : ℕ
  pub b3 : ℕ
  pub b4 : ℕ
  pub b5 : ℕ
  pub b6 : ℕ
  pub b7 : ℕ
  pub b8 : ℕ
  pub b9 : ℕ
  pub b10 : ℕ
  pub b11 : ℕ
  pub b12 : ℕ
  pub b13 : ℕ
  pub b14 : ℕ
  pub b15 : ℕ

abbrev pub bytes : Uuid → Bytes
bytes u =
    u.b0 ∷ u.b1 ∷ u.b2 ∷ u.b3 ∷ u.b4 ∷ u.b5 ∷ u.b6 ∷ u.b7 ∷ u.b8 ∷ u.b9 ∷ u.b10 ∷ u.b11 ∷ u.b12
    ∷ u.b13 ∷ u.b14 ∷ u.b15 ∷ []

-- The elements are bytes.
abbrev pub IsUuid : Uuid → Type 0
IsUuid u = All (λ b. b < 256) (bytes u)

abbrev pub of_bytes : Bytes → Option Uuid
of_bytes (a ∷ b ∷ c ∷ d ∷ e ∷ f ∷ g ∷ h ∷ i ∷ j ∷ k ∷ l ∷ m ∷ n ∷ o ∷ p ∷ []) = some (record {
  b0 = a;
  b1 = b;
  b2 = c;
  b3 = d;
  b4 = e;
  b5 = f;
  b6 = g;
  b7 = h;
  b8 = i;
  b9 = j;
  b10 = k;
  b11 = l;
  b12 = m;
  b13 = n;
  b14 = o;
  b15 = p;
})
of_bytes _ = none

-- `FormatUUID`
unfoldable pub format_uuid : Uuid → Bytes
unfolding Hex.encode
format_uuid u =
    Hex.encode (slice 0 4 (bytes u))
    ++ b'-'
      ∷ (Hex.encode (slice 4 6 (bytes u))
          ++ b'-'
            ∷ (Hex.encode (slice 6 8 (bytes u))
                ++ b'-'
                  ∷ (Hex.encode (slice 8 10 (bytes u))
                      ++ b'-' ∷ Hex.encode (slice 10 16 (bytes u)))))

abbrev pub dash_at : ℕ → Bytes → Bool
dash_at i s = get_or s i 0 == b'-'

abbrev pub compact : Bytes → Bytes
compact s = slice 0 8 s ++ slice 9 13 s ++ slice 14 18 s ++ slice 19 23 s ++ slice 24 36 s

abbrev pub raw_uuid : Option Bytes → Option Uuid
raw_uuid none = none
raw_uuid (some raw) = of_bytes raw

-- `parseUUID`; `none` stands for its two errors
unfoldable pub parse_uuid : Bytes → Option Uuid
parse_uuid s =
    if (length s == 36) && dash_at 8 s && dash_at 13 s && dash_at 18 s && dash_at 23 s
    then raw_uuid (Hex.decode (compact s))
    else none

unfoldable pub version : Uuid → ℕ
version u = u.b6 / 16

unfoldable pub variant : Uuid → ℕ
variant u = u.b8 / 64

-- `NewV7`: the sixteen random bytes and the clock in milliseconds, an uint64, are its arguments.
unfoldable pub new_v7 : Uuid → ℕ → Uuid
new_v7 u ms = record u {
  b0 = ms / 2 ^ 40 % 256;
  b1 = ms / 2 ^ 32 % 256;
  b2 = ms / 2 ^ 24 % 256;
  b3 = ms / 2 ^ 16 % 256;
  b4 = ms / 2 ^ 8 % 256;
  b5 = ms % 256;
  b6 = bit_or (bit_and u.b6 0x0f) 0x70;
  b8 = bit_or (bit_and u.b8 0x3f) 0x80;
}

-- A UUID is read back from its text.
pub parse_uuid-format_uuid : (u : Uuid) → IsUuid u → parse_uuid (format_uuid u) ≡ some u
unfolding parse_uuid format_uuid
parse_uuid-format_uuid u h = rw (Hex.decode-encode (bytes u) h)

abbrev pub HoldsUuid : Option Uuid → Type 0
HoldsUuid none = Unit
HoldsUuid (some u) = IsUuid u

of_bytes-HoldsUuid : (s : Bytes) → Hex.HoldsBytes (some s) → HoldsUuid (of_bytes s)
of_bytes-HoldsUuid (a ∷ b ∷ c ∷ d ∷ e ∷ f ∷ g ∷ h ∷ i ∷ j ∷ k ∷ l ∷ m ∷ n ∷ o ∷ p ∷ []) q = q
of_bytes-HoldsUuid _ q = tt

raw_uuid-HoldsUuid : (o : Option Bytes) → Hex.HoldsBytes o → HoldsUuid (raw_uuid o)
raw_uuid-HoldsUuid none h = tt
raw_uuid-HoldsUuid (some s) h = of_bytes-HoldsUuid s h

HoldsUuid-if : (b : Bool) (o : Option Uuid) → HoldsUuid o → HoldsUuid (if b then o else none)
HoldsUuid-if true o h = h
HoldsUuid-if false o h = tt

-- What is read from a text holds bytes.
pub parse_uuid-HoldsUuid : (s : Bytes) → HoldsUuid (parse_uuid s)
unfolding parse_uuid
parse_uuid-HoldsUuid s =
    HoldsUuid-if _ _
      (raw_uuid-HoldsUuid (Hex.decode (compact s)) (Hex.decode-HoldsBytes (compact s)))
