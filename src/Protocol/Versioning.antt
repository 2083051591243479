-- ===== src/Protocol/Versioning.antt =====
-- protocol/versioning/version.go: the protocol version and its compatibility.
pub mod Laws
mod Tests
use on_code.Prelude.{
  ℕ, zero, suc, Bool, true, false, not, ◌&&◌, ◌||◌, Option, none, some, List, [], ◌∷◌, ◌++◌, Bytes,
  codes, Result, ok, err, ◌>>=◌, ◌>>◌, ensure, ◌==◌, ltb, if◌then◌else◌, has_prefix, split, length,
  drop,
}
use on_code.Prelude.Space.{trim_space}
use on_code.Prelude.Decimal.{ℤ, pos, negsuc, atoi, decimal}

abbrev pub name : Bytes
name = codes "oncode-tool"

abbrev pub major : ℤ
major = pos 1

abbrev pub minor : ℤ
minor = pos 0

abbrev pub current : Bytes
current = codes "oncode-tool/1.0"

pub record Version : Type 0 where
  pub major_number : ℤ
  pub minor_number : ℤ

pub data VersionError : Type 0 where
  unsupported incompatible invalid_minor : VersionError

-- `%d`
pub signed_decimal : ℤ → Bytes
signed_decimal (pos n) = decimal n
signed_decimal (negsuc n) = b'-' ∷ decimal (suc n)

-- the method `String`
pub to_string : Version → Bytes
unfolding signed_decimal
to_string v = name ++ b'/' ∷ (signed_decimal v.major_number ++ b'.' ∷ signed_decimal v.minor_number)

abbrev pub lt_one : ℤ → Bool
lt_one (pos n) = n == 0
lt_one (negsuc n) = true

abbrev pub is_negative : ℤ → Bool
is_negative (pos n) = false
is_negative (negsuc n) = true

abbrev pub number : Option ℤ → Result VersionError ℤ
number none = err unsupported
number (some n) = ok n

abbrev pub two_parts : List Bytes → Result VersionError (Bytes × Bytes)
two_parts (p ∷ q ∷ []) = ok (p, q)
two_parts _ = err unsupported

-- the rest of `Parse` behind the prefix
pub parse_rest : Bytes → Result VersionError Version
parse_rest rest = do
  parts ← two_parts (split b'.' rest)
  maj ← number (atoi parts.0)
  min ← number (atoi parts.1)
  ensure (not (lt_one maj || is_negative min)) unsupported
  ok (record { major_number = maj; minor_number = min })

pub parse : Bytes → Result VersionError Version
unfolding parse_rest
parse text = do
  let s = trim_space text
  let prefix = name ++ b'/' ∷ []
  ensure (has_prefix s prefix) unsupported
  parse_rest (drop (length prefix) s)

-- `v == w` of two ints
abbrev pub eq_ℤ : ℤ → ℤ → Bool
eq_ℤ (pos m) (pos n) = m == n
eq_ℤ (negsuc m) (negsuc n) = m == n
eq_ℤ _ _ = false

pub compatible : Version → Result VersionError (Unit {0})
compatible peer = do
  ensure (eq_ℤ peer.major_number major) incompatible
  ensure (not (eq_ℤ peer.major_number major && is_negative peer.minor_number)) invalid_minor

pub parse_compatible : Bytes → Result VersionError Version
parse_compatible s = do v ← parse s; compatible v; ok v
