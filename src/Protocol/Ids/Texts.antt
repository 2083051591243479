-- ===== src/Protocol/Ids/Texts.antt =====
-- The texts of UUIDs that parseUUID reads (protocol/ids/ids.go).
use on_code.Prelude.{
  ℕ, ◌+◌, ◌*◌, ◌/◌, ◌%◌, ◌<◌, ◌≡◌, ◌∙◌, refl, sym, ap, Bool, true, ◌&&◌, Option, none, some, [],
  ◌∷◌, ◌++◌, Bytes, arith, leb, ◌==◌, if◌then◌else◌, map, length, slice,
}
use on_code.Protocol.Ids.Hex
use on_code.Protocol.Ids.Uuids.{
  Uuid, bytes, of_bytes, dash_at, compact, raw_uuid, format_uuid, parse_uuid,
}

-- the small letter of a digit from A to F
abbrev pub small : ℕ → ℕ
small c = if leb 65 c && leb c 70 then c + 32 else c

from_hex-small : (c n : ℕ) → Hex.from_hex c ≡ some n → Hex.hex_digit n ≡ small c
unfolding Hex.from_hex Hex.hex_digit
from_hex-small c n e = ground (arith, e)

from_hex-lt : (c n : ℕ) → Hex.from_hex c ≡ some n → n < 16
unfolding Hex.from_hex
from_hex-lt c n e = ground (arith, e)

dashes : Bytes → Bytes
dashes s =
    slice 0 8 s
    ++ b'-'
      ∷ (slice 8 12 s ++ b'-' ∷ (slice 12 16 s ++ b'-' ∷ (slice 16 20 s ++ b'-' ∷ slice 20 32 s)))

format_uuid_lem : (u : Uuid) → format_uuid u ≡ dashes (Hex.encode (bytes u))
unfolding format_uuid Hex.encode dashes
format_uuid_lem u = refl

of_bytes_sound : (s : Bytes) (u : Uuid) → of_bytes s ≡ some u → bytes u ≡ s
of_bytes_sound (a ∷ b ∷ c ∷ d ∷ e ∷ f ∷ g ∷ h ∷ i ∷ j ∷ k ∷ l ∷ m ∷ n ∷ o ∷ p ∷ []) u q =
    ap bytes (sym (cc q))
of_bytes_sound _ u q = cc q

dash_small : (c : ℕ) → (c == b'-') ≡ true → small c ≡ b'-'
dash_small c e = ground (arith, e)

-- A text with dashes in their places is its digits with dashes.
dashes-compact :
    (s : Bytes)
    → length s ≡ 36
    → dash_at 8 s ≡ true
    → dash_at 13 s ≡ true
    → dash_at 18 s ≡ true
    → dash_at 23 s ≡ true
    → dashes (map small (compact s)) ≡ map small s
unfolding dashes
dashes-compact
      (c0 ∷ c1 ∷ c2 ∷ c3 ∷ c4 ∷ c5 ∷ c6 ∷ c7 ∷ c8 ∷ c9 ∷ c10 ∷ c11 ∷ c12 ∷ c13 ∷ c14 ∷ c15 ∷ c16
        ∷ c17 ∷ c18 ∷ c19 ∷ c20 ∷ c21 ∷ c22 ∷ c23 ∷ c24 ∷ c25 ∷ c26 ∷ c27 ∷ c28 ∷ c29 ∷ c30 ∷ c31
        ∷ c32 ∷ c33 ∷ c34 ∷ c35 ∷ [])
      n a b c d =
    rw (dash_small c8 a, dash_small c13 b, dash_small c18 c, dash_small c23 d) refl
dashes-compact _ n a b c d = absurd (omega (arith, n))

cons_small :
    (c d : ℕ) (h l : Option ℕ) (rest : Option Bytes) (s t : Bytes)
    → Hex.from_hex c ≡ h
    → Hex.from_hex d ≡ l
    → ((r : Bytes) → rest ≡ some r → Hex.encode r ≡ map small s)
    → Hex.cons_byte h l rest ≡ some t
    → Hex.encode t ≡ map small (c ∷ d ∷ s)
unfolding Hex.encode
cons_small c d (some h) (some l) (some r) s t p q later e =
    let same : (h * 16 + l) ∷ r ≡ t = cc e in
    let low : l < 16 = from_hex-lt d l q in
    let high : (h * 16 + l) / 16 ≡ h = omega (arith, low) in
    let rest : (h * 16 + l) % 16 ≡ l = omega (arith, low) in
    ap Hex.encode (sym same)
    ∙ ap (λ n. Hex.hex_digit n ∷ Hex.hex_digit ((h * 16 + l) % 16) ∷ Hex.encode r) high
    ∙ ap (λ n. Hex.hex_digit h ∷ Hex.hex_digit n ∷ Hex.encode r) rest
    ∙ ap (λ n. n ∷ Hex.hex_digit l ∷ Hex.encode r) (from_hex-small c h p)
    ∙ ap (λ n. small c ∷ n ∷ Hex.encode r) (from_hex-small d l q)
    ∙ ap (λ m. small c ∷ small d ∷ m) (later r refl)
cons_small c d none l rest s t p q later e = cc e
cons_small c d (some h) none rest s t p q later e = cc e
cons_small c d (some h) (some l) none s t p q later e = cc e

empty_eq : (t : Bytes) → some [] ≡ some t → t ≡ []
empty_eq t e = cc e

-- What is decoded is encoded as the same digits, in small letters.
encode-decode : (s t : Bytes) → Hex.decode s ≡ some t → Hex.encode t ≡ map small s
unfolding Hex.decode Hex.encode
encode-decode [] t e = ap Hex.encode (empty_eq t e)
encode-decode (c ∷ []) t e = cc e
encode-decode (c ∷ d ∷ s) t e =
    cons_small c d (Hex.from_hex c) (Hex.from_hex d) (Hex.decode s) s t refl refl
      (λ r now. encode-decode s r now) e

raw_uuid_sound : (o : Option Bytes) (u : Uuid) → raw_uuid o ≡ some u → o ≡ some (bytes u)
raw_uuid_sound none u e = cc e
raw_uuid_sound (some s) u e = ap some (sym (of_bytes_sound s u e))

-- the text that is read has its dashes, and its digits are those of the UUID
record IsRead (s : Bytes) (u : Uuid) : Type 0 where
  measured : length s ≡ 36
  first : dash_at 8 s ≡ true
  second : dash_at 13 s ≡ true
  third : dash_at 18 s ≡ true
  fourth : dash_at 23 s ≡ true
  digits : raw_uuid (Hex.decode (compact s)) ≡ some u

read_lem :
    (n a b c d : Bool) (o : Option Uuid) (u : Uuid)
    → (if n && a && b && c && d then o else none) ≡ some u
    → (n ≡ true) × (a ≡ true) × (b ≡ true) × (c ≡ true) × (d ≡ true) × (o ≡ some u)
read_lem n a b c d o u e = ground (arith, e)

parse_uuid-IsRead : (s : Bytes) (u : Uuid) → parse_uuid s ≡ some u → IsRead s u
unfolding parse_uuid
parse_uuid-IsRead s u e =
    let (n, a, b, c, d, o) =
      read_lem (length s == 36) (dash_at 8 s) (dash_at 13 s) (dash_at 18 s) (dash_at 23 s)
        (raw_uuid (Hex.decode (compact s))) u e in
    record {
      measured = ground (arith, n);
      first = a;
      second = b;
      third = c;
      fourth = d;
      digits = o;
    }

-- What parseUUID reads as a UUID is the text that FormatUUID writes for it, up to the case of its digits.
pub parse_uuid-small : (s : Bytes) (u : Uuid) → parse_uuid s ≡ some u → map small s ≡ format_uuid u
parse_uuid-small s u e =
    let r = parse_uuid-IsRead s u e in
    let decoded = raw_uuid_sound (Hex.decode (compact s)) u r.digits in
    sym (dashes-compact s r.measured r.first r.second r.third r.fourth)
    ∙ ap dashes (sym (encode-decode (compact s) (bytes u) decoded))
    ∙ sym (format_uuid_lem u)
