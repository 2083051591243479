-- ===== src/Protocol/Ids/Stamp.antt =====
-- `NewV7` of protocol/ids/ids.go stamps the version, the variant and the clock.
use on_code.Prelude.{
  ℕ, zero, suc, ◌+◌, ◌*◌, ◌%◌, ◌^◌, ◌≤◌, ◌<◌, ltb, leb, ◌≡◌, refl, Bool, true, false, ◌&&◌,
  if◌then◌else◌, arith,
}
use Prim.Native.Nat.{bit_and, bit_or}
use on_code.Protocol.Ids.Uuids.{Uuid, IsUuid, version, variant, new_v7}

-- A test of every byte, by evaluation.
passes : (ℕ → Bool) → ℕ → Bool
passes test zero = true
passes test (suc c) = if test c then passes test c else false

passed : (test : ℕ → Bool) (bound c : ℕ) → c < bound → passes test bound ≡ true → test c ≡ true
unfolding passes
passed test zero c small all = absurd (omega arith)
passed test (suc d) c small all = ground (arith, passed test d c)

abbrev stamp_version : ℕ → ℕ
stamp_version x = bit_or (bit_and x 0x0f) 0x70

abbrev stamp_variant : ℕ → ℕ
stamp_variant x = bit_or (bit_and x 0x3f) 0x80

abbrev is_version : ℕ → Bool
is_version x = leb 112 (stamp_version x) && ltb (stamp_version x) 128

abbrev is_variant : ℕ → Bool
is_variant x = leb 128 (stamp_variant x) && ltb (stamp_variant x) 192

version_passes : passes is_version 256 ≡ true
unfolding passes
version_passes = refl

variant_passes : passes is_variant 256 ≡ true
unfolding passes
variant_passes = refl

stamp_version_range : (x : ℕ) → x < 256 → (112 ≤ stamp_version x) × (stamp_version x < 128)
stamp_version_range x small = let t = passed is_version 256 x small version_passes in ground arith

stamp_variant_range : (x : ℕ) → x < 256 → (128 ≤ stamp_variant x) × (stamp_variant x < 192)
stamp_variant_range x small = let t = passed is_variant 256 x small variant_passes in ground arith

-- What `NewV7` promises: bytes, of version 7 and of the RFC 4122 variant, that begin with the low 48
-- bits of the clock.
pub record IsV7 (u : Uuid) (ms : ℕ) : Type 0 where
  pub in_bytes : IsUuid u
  pub of_version : version u ≡ 7
  pub of_variant : variant u ≡ 2
  pub time :
      u.b0 * 2 ^ 40 + u.b1 * 2 ^ 32 + u.b2 * 2 ^ 24 + u.b3 * 2 ^ 16 + u.b4 * 2 ^ 8 + u.b5
      ≡ ms % 2 ^ 48

-- A UUID that `NewV7` makes of sixteen random bytes and any clock is of version 7 and of the RFC 4122
-- variant, and begins with the low 48 bits of the clock.
pub new_v7-IsV7 : (u : Uuid) (ms : ℕ) → IsUuid u → IsV7 (new_v7 u ms) ms
unfolding new_v7 version variant
new_v7-IsV7 u ms h =
    let p = stamp_version_range u.b6 (omega arith) in
    let q = stamp_variant_range u.b8 (omega arith) in
    record {
      in_bytes = omega arith;
      of_version = omega arith;
      of_variant = omega arith;
      time = omega arith;
    }
