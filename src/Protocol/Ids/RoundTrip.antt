-- ===== src/Protocol/Ids/RoundTrip.antt =====
-- Identifiers that `New` makes are read back by `Parse` (protocol/ids/ids.go).
use on_code.Prelude.{
  ℕ, suc, ◌+◌, ◌%◌, ◌<◌, ◌≡◌, ap, sym, refl, inl, inr, true, some, List, [], ◌∷◌, ◌++◌, Bytes, ok,
  err, arith, if◌then◌else◌, bytes_eq, bytes_eq→eq, index_byte, length, take, drop, All, Lacks,
  Bool-cases, append_assoc,
}
use on_code.Prelude.Space.{IsGraphic, trim_space-graphic}
use on_code.Protocol.Ids.{wrong_kind, prefixes, among, known, new, parts_at, split, parse, validate}
use on_code.Protocol.Ids.Stamp.{new_v7-IsV7}
use on_code.Protocol.Ids.Kinds.{Kind}
use on_code.Protocol.Ids.Hex
use on_code.Protocol.Ids.Hex.{hex_digit}
use on_code.Protocol.Ids.Uuids.{
  Uuid, IsUuid, format_uuid, version, variant, new_v7, parse_uuid-format_uuid,
}

index_byte-append : (b : ℕ) (k r : Bytes) → Lacks b k → index_byte b (k ++ b ∷ r) ≡ some (length k)
unfolding index_byte
index_byte-append b [] r h = ground arith
index_byte-append b (c ∷ k) r h = ground (arith, index_byte-append b k r)

take-append : (k r : Bytes) → take (length k) (k ++ r) ≡ k
take-append [] r = refl
take-append (c ∷ k) r = ap (λ t. c ∷ t) (take-append k r)

drop-append : (b : ℕ) (k r : Bytes) → drop (suc (length k)) (k ++ b ∷ r) ≡ r
drop-append b [] r = refl
drop-append b (c ∷ k) r = drop-append b k r

length-append_cons : (b : ℕ) (k r : Bytes) → length (k ++ b ∷ r) ≡ suc (length k + length r)
length-append_cons b [] r = omega arith
length-append_cons b (c ∷ k) r = omega (arith, length-append_cons b k r)

-- A kind's text begins with a printable byte and holds no dash.
record IsName (k : Kind) : Type 0 where
  first : ℕ
  rest : Bytes
  spelled : k ≡ first ∷ rest
  graphic : IsGraphic first
  no_dash : Lacks b'-' k

IsName-at : (c : ℕ) (s : Bytes) → IsGraphic c → Lacks b'-' (c ∷ s) → IsName (c ∷ s)
IsName-at c s g l = record { first = c; rest = s; spelled = refl; graphic = g; no_dash = l }

prefixes-IsName : All IsName prefixes
prefixes-IsName = (
  IsName-at _ _ (omega arith) (omega arith),
  (
    IsName-at _ _ (omega arith) (omega arith),
    (
      IsName-at _ _ (omega arith) (omega arith),
      (
        IsName-at _ _ (omega arith) (omega arith),
        (
          IsName-at _ _ (omega arith) (omega arith),
          (
            IsName-at _ _ (omega arith) (omega arith),
            (
              IsName-at _ _ (omega arith) (omega arith),
              (
                IsName-at _ _ (omega arith) (omega arith),
                (
                  IsName-at _ _ (omega arith) (omega arith),
                  (
                    IsName-at _ _ (omega arith) (omega arith),
                    (IsName-at _ _ (omega arith) (omega arith), tt),
                  ),
                ),
              ),
            ),
          ),
        ),
      ),
    ),
  ),
)

All-among : (ps : List Kind) (k : Kind) → All IsName ps → among k ps ≡ true → IsName k
unfolding among
All-among [] k h e = absurd (cc e)
All-among (p ∷ ps) k h e = elim (Bool-cases (bytes_eq k p)) [
  | inl same ↦ rw (bytes_eq→eq k p same) h.0
  | inr other ↦ All-among ps k h.1 (rw other at e)
]

known-IsName : (k : Kind) → known k ≡ true → IsName k
unfolding known
known-IsName k e = All-among prefixes k prefixes-IsName e

-- A dash between a name and a text that ends in a printable byte splits there.
parts_at-append :
    (c : ℕ) (s r : Bytes)
    → 0 < length r
    → parts_at (some (length (c ∷ s))) ((c ∷ s) ++ b'-' ∷ r) ≡ ok (c ∷ s, r)
parts_at-append c s r h =
    rw (take-append (c ∷ s) (b'-' ∷ r), drop-append b'-' (c ∷ s) r)
      (ground (arith, length-append_cons b'-' s r))

length-concat : (t : Bytes) (d : ℕ) → 0 < length (t ++ d ∷ [])
length-concat t d = omega (arith, length-append_cons d t [])

-- A name, a dash and a text that ends in a printable byte are split there.
split-append :
    (k r t : Bytes) (d : ℕ)
    → IsName k
    → IsGraphic d
    → r ≡ t ++ d ∷ []
    → split (k ++ b'-' ∷ r) ≡ ok (k, r)
unfolding split
split-append [] r t d n g e = cc n.spelled
split-append (c ∷ s) r t d n g e =
    let whole : (c ∷ s) ++ b'-' ∷ r ≡ ((c ∷ s) ++ b'-' ∷ t) ++ d ∷ [] =
      rw e (sym (append_assoc (c ∷ s) (b'-' ∷ t) (d ∷ []))) in
    let front : IsGraphic c = ground (arith, n.spelled, n.graphic) in
    rw (trim_space-graphic c d (s ++ b'-' ∷ r) ((c ∷ s) ++ b'-' ∷ t) front g whole) (
      rw (index_byte-append b'-' (c ∷ s) r n.no_dash)
        (parts_at-append c s r (rw e (length-concat t d))))

format_front : Uuid → Bytes
format_front u = take 35 (format_uuid u)

format_uuid-concat : (u : Uuid) → format_uuid u ≡ format_front u ++ hex_digit (u.b15 % 16) ∷ []
unfolding format_uuid format_front
format_uuid-concat u = refl

last-IsGraphic : (u : Uuid) → IsUuid u → IsGraphic (hex_digit (u.b15 % 16))
last-IsGraphic u h = omega (arith, Hex.hex_digit_range (u.b15 % 16))

split-format_uuid :
    (k : Kind) (u : Uuid)
    → known k ≡ true
    → IsUuid u
    → split (k ++ b'-' ∷ format_uuid u) ≡ ok (k, format_uuid u)
split-format_uuid k u e h =
    split-append k (format_uuid u) (format_front u) (hex_digit (u.b15 % 16)) (known-IsName k e)
      (last-IsGraphic u h) (format_uuid-concat u)

parse-format_uuid :
    (k : Kind) (u : Uuid)
    → known k ≡ true
    → IsUuid u
    → version u ≡ 7
    → variant u ≡ 2
    → parse (k ++ b'-' ∷ format_uuid u) ≡ ok (k, u)
unfolding parse
parse-format_uuid k u e h v w = rw (split-format_uuid k u e h, e, parse_uuid-format_uuid u h, v, w)

-- A kind and a UUID of version 7 and variant 2 are read back from the identifier that `New` makes
-- of them.
pub parse-new :
    (k : Kind) (u : Uuid) (id : Bytes)
    → IsUuid u
    → version u ≡ 7
    → variant u ≡ 2
    → new k u ≡ ok id
    → parse id ≡ ok (k, u)
unfolding new
parse-new k u id h v w e = elim (Bool-cases (known k)) [
  | inl good ↦ cc (rw (good, new) at e, parse-format_uuid k u good h v w)
  | inr bad ↦ absurd (cc (rw (bad, new) at e))
]

-- The identifier that `New` makes from a stamped UUID is valid for its own kind and for no other,
-- whatever the random bytes and the clock are.
pub validate-new :
    (k j : Kind) (u : Uuid) (ms : ℕ) (id : Bytes)
    → IsUuid u
    → new k (new_v7 u ms) ≡ ok id
    → validate j id ≡ (if bytes_eq k j then ok tt else err wrong_kind)
unfolding validate
validate-new k j u ms id h e =
    let v = new_v7-IsV7 u ms h in
    rw (parse-new k (new_v7 u ms) id v.in_bytes v.of_version v.of_variant e) (ground arith)
