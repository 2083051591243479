-- ===== src/Protocol/Ids/Accepted.antt =====
-- What `Parse` of protocol/ids/ids.go accepts.
use on_code.Prelude.{
  ℕ, zero, suc, ◌/◌, ◌⊎◌, codes, map, ◌≡◌, ap, ◌∙◌, refl, inl, inr, true, Option, none, some, List,
  [], ◌∷◌, ◌++◌, Bytes, Result, ok, ◌>>=◌, ◌>>◌, ensure, >>=-eq-ok, arith, ◌==◌, bytes_eq,
  bytes_eq→eq, index_byte, take, drop, Bool-cases,
}
use mathlib.Core.Path.{subst}
use on_code.Prelude.Space.{trim_space}
use on_code.Protocol.Ids.{
  IdError, unknown_kind, wrong_version, wrong_variant, prefixes, among, known, parts_at, split,
  parse, checked_uuid,
}
use on_code.Protocol.Ids.Kinds.{Kind}
use on_code.Protocol.Ids.Texts.{small, parse_uuid-small}
use on_code.Protocol.Ids.Uuids.{
  Uuid, IsUuid, format_uuid, parse_uuid, version, variant, parse_uuid-HoldsUuid, HoldsUuid,
}

-- the texts of the kinds
abbrev kind_texts : List Bytes
kind_texts =
    codes "MSG"
    ∷ codes "CALL"
    ∷ codes "SES"
    ∷ codes "PRJ"
    ∷ codes "WS"
    ∷ codes "WI"
    ∷ codes "WF"
    ∷ codes "APR"
    ∷ codes "CHG"
    ∷ codes "TASK"
    ∷ codes "EXEC"
    ∷ []

abbrev pub OneOf : Bytes → List Bytes → Type 0
OneOf k [] = ⊥
OneOf k (p ∷ ps) = (k ≡ p) ⊎ OneOf k ps

among-OneOf : (k : Kind) (ps : List Kind) → among k ps ≡ true → OneOf k ps
unfolding among
among-OneOf k [] e = cc e
among-OneOf k (p ∷ ps) e = elim (Bool-cases (bytes_eq k p)) [
  | inl same ↦ inl (bytes_eq→eq k p same)
  | inr other ↦ inr (among-OneOf k ps (rw other at e))
]

known-OneOf : (k : Kind) → known k ≡ true → OneOf k kind_texts
unfolding known
known-OneOf k e = among-OneOf k prefixes e

-- What an accepted identifier is made of: one of the kinds, a dash, and the text of a UUID, up to the case
-- of its digits; its version and its variant are in the upper bits of two of its bytes.
pub record Accepts (id : Bytes) (k : Kind) (u : Uuid) : Type 0 where
  pub is_known : OneOf k kind_texts
  pub in_bytes : IsUuid u
  pub of_version : u.b6 / 16 ≡ 7
  pub of_variant : u.b8 / 64 ≡ 2
  pub tail : Bytes
  pub spelled : trim_space id ≡ k ++ b'-' ∷ tail
  pub read : map small tail ≡ format_uuid u

index_byte_sound :
    (b i : ℕ) (s : Bytes) → index_byte b s ≡ some i → s ≡ take i s ++ b ∷ drop (suc i) s
unfolding index_byte
index_byte_sound b i [] e = cc
index_byte_sound b zero (c ∷ s) e = ground arith
index_byte_sound b (suc i) (c ∷ s) e = ground (arith, index_byte_sound b i s)

parts_at_sound :
    (o : Option ℕ) (s k r : Bytes)
    → index_byte b'-' s ≡ o
    → parts_at o s ≡ ok (k, r)
    → s ≡ k ++ b'-' ∷ r
parts_at_sound none s k r p e = cc
parts_at_sound (some i) s k r p e = ground (arith, index_byte_sound b'-' i s p)

split_sound : (id k r : Bytes) → split id ≡ ok (k, r) → trim_space id ≡ k ++ b'-' ∷ r
unfolding split
split_sound id k r e = let s = trim_space id in parts_at_sound (index_byte b'-' s) s k r refl e

-- the tests of `Parse` behind the split
abbrev after_split : Kind × Bytes → Result IdError (Kind × Uuid)
after_split parts = do
  ensure (known parts.0) unknown_kind
  raw ← checked_uuid (parse_uuid parts.1)
  ensure (version raw == 7) wrong_version
  ensure (variant raw == 2) wrong_variant
  ok (parts.0, raw)

after_split_sound :
    (q k : Kind) (r : Bytes) (u : Uuid)
    → after_split (q, r) ≡ ok (k, u)
    → (q ≡ k) × (known k ≡ true) × (version u ≡ 7) × (variant u ≡ 2) × (parse_uuid r ≡ some u)
after_split_sound q k r u e = ground arith

-- Whatever `Parse` accepts is, up to white space around it, one of the eleven kinds, a dash and the text that
-- FormatUUID writes for the UUID that it returns, with its digits in either case; and that UUID has the
-- version 7 and the variant 2.
pub parse-Accepts : (id : Bytes) (k : Kind) (u : Uuid) → parse id ≡ ok (k, u) → Accepts id k u
unfolding parse
parse-Accepts id k u e =
    let ((q, r), at_dash, rest) = >>=-eq-ok (split id) after_split e in
    let (same, is_known, v, w, read) = after_split_sound q k r u rest in
    record {
      is_known = known-OneOf k is_known;
      in_bytes = subst HoldsUuid read (parse_uuid-HoldsUuid r);
      of_version = unfold version in v;
      of_variant = unfold variant in w;
      tail = r;
      spelled = split_sound id k r (at_dash ∙ ap (λ z. ok (z, r)) same);
      read = parse_uuid-small r u read;
    }
