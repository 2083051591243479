-- ===== src/Protocol/Versioning/Laws.antt =====
-- Printing and reading versions (protocol/versioning/version.go).
use on_code.Prelude.{
  ℕ, ◌<◌, ◌^◌, ◌≡◌, refl, sym, ap, false, Option, none, some, [], ◌∷◌, ◌++◌, Bytes, Result, ok, err,
  ◌>>◌, ensure, >>=-eq-ok, not, ◌||◌, arith, if◌then◌else◌, has_prefix, split, split_pair, All,
  Lacks, drop, append_assoc,
}
use on_code.Prelude.Space.{trim_space, trim_space-graphic}
use on_code.Prelude.Decimal.{
  ℤ, pos, atoi, decimal, IsDigit, decimal-IsDigit, decimal-concat, atoi-decimal,
}
use on_code.Protocol.Versioning.{
  current, Version, VersionError, unsupported, incompatible, name, major, to_string, lt_one,
  is_negative, two_parts, number, eq_ℤ, parse, parse_rest, compatible, parse_compatible,
}

abbrev pub version : ℕ → ℕ → Version
version maj min = record { major_number = pos maj; minor_number = pos min }

digits-Lacks : (b : ℕ) (s : Bytes) → b < 48 → All IsDigit s → Lacks b s
digits-Lacks b [] h d = tt
digits-Lacks b (c ∷ s) h d = (omega arith, digits-Lacks b s h d.1)

parse_rest-decimal :
    (maj min : ℕ)
    → 0 < maj
    → maj < 2 ^ 63
    → min < 2 ^ 63
    → parse_rest (decimal maj ++ b'.' ∷ decimal min) ≡ ok (version maj min)
unfolding parse_rest
parse_rest-decimal maj min h a b =
    rw
      (split_pair b'.' (decimal maj) (decimal min)
        (digits-Lacks b'.' (decimal maj) (omega arith) (decimal-IsDigit maj))
        (digits-Lacks b'.' (decimal min) (omega arith) (decimal-IsDigit min)))
      (rw (atoi-decimal maj a, atoi-decimal min b) (ground arith))

ends_in_digit :
    (p q t : Bytes) (d : ℕ) → q ≡ t ++ d ∷ [] → p ++ b'.' ∷ q ≡ (p ++ b'.' ∷ t) ++ d ∷ []
ends_in_digit p q t d e = rw e (sym (append_assoc p (b'.' ∷ t) (d ∷ [])))

trim_space-to_string :
    (maj min : ℕ) → trim_space (to_string (version maj min)) ≡ to_string (version maj min)
unfolding to_string
trim_space-to_string maj min =
    let (t, d, e, digit) = decimal-concat min in
    trim_space-graphic b'o' d (drop 1 name ++ b'/' ∷ (decimal maj ++ b'.' ∷ decimal min))
      (name ++ b'/' ∷ (decimal maj ++ b'.' ∷ t)) (omega arith) (omega arith)
      (ap (λ l. name ++ b'/' ∷ l) (ends_in_digit (decimal maj) (decimal min) t d e))

-- Every version that has a positive major and no negative minor number is read back from its text.
pub parse-to_string :
    (maj min : ℕ)
    → 0 < maj
    → maj < 2 ^ 63
    → min < 2 ^ 63
    → parse (to_string (version maj min)) ≡ ok (version maj min)
unfolding parse
parse-to_string maj min h a b =
    rw (trim_space-to_string maj min)
      (unfold has_prefix to_string in parse_rest-decimal maj min h a b)

number_sound : (o : Option ℤ) (n : ℤ) → number o ≡ ok n → o ≡ some n
number_sound none n e = cc
number_sound (some m) n e = cc

abbrev pub IsProper : Version → Type 0
IsProper v = (lt_one v.major_number ≡ false) × (is_negative v.minor_number ≡ false)

abbrev after_numbers : ℤ → ℤ → Result VersionError Version
after_numbers maj min = do
  ensure (not (lt_one maj || is_negative min)) unsupported
  ok (record { major_number = maj; minor_number = min })

after_numbers-IsProper : (maj min : ℤ) (v : Version) → after_numbers maj min ≡ ok v → IsProper v
after_numbers-IsProper maj min v e = ground arith

parse_rest-IsProper : (s : Bytes) (v : Version) → parse_rest s ≡ ok v → IsProper v
unfolding parse_rest
parse_rest-IsProper s v e =
    let (parts, _, e2) = >>=-eq-ok (two_parts (split b'.' s)) _ e in
    let (maj, _, e3) = >>=-eq-ok (number (atoi parts.0)) _ e2 in
    let (min, _, e4) = >>=-eq-ok (number (atoi parts.1)) _ e3 in after_numbers-IsProper maj min v e4

-- What is read has a positive major number and no negative minor number.
pub parse-IsProper : (s : Bytes) (v : Version) → parse s ≡ ok v → IsProper v
unfolding parse
parse-IsProper s v e =
    let (_, _, rest) =
      >>=-eq-ok (ensure (has_prefix (trim_space s) (name ++ b'/' ∷ [])) unsupported) _ e in
    parse_rest-IsProper (drop 12 (trim_space s)) v rest

compatible_lem :
    (v : Version)
    → IsProper v
    → compatible v ≡ (if eq_ℤ v.major_number major then ok tt else err incompatible)
unfolding compatible
compatible_lem v h = ground arith

-- A text that `Parse` accepts passes the compatibility test exactly if its major number is 1: the
-- other refusal is never reached.
pub parse_compatible-eq-parse :
    (s : Bytes) (v : Version)
    → parse s ≡ ok v
    → parse_compatible s ≡ (if eq_ℤ v.major_number major then ok v else err incompatible)
unfolding parse_compatible
parse_compatible-eq-parse s v e = rw (e, compatible_lem v (parse-IsProper s v e)) (ground arith)

-- The version that every message carries is accepted.
pub parse_compatible-current : parse_compatible current ≡ ok (version 1 0)
unfolding parse_compatible parse compatible trim_space has_prefix split atoi
parse_compatible-current = refl
