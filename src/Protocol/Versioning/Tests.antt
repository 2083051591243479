-- ===== src/Protocol/Versioning/Tests.antt =====
-- Examples of versions (protocol/versioning/version.go).
use on_code.Prelude.{◌≡◌, refl, codes, ok, err, arith, has_prefix, split}
use on_code.Prelude.Space.{trim_space}
use on_code.Prelude.Decimal.{atoi, negate}
use on_code.Protocol.Versioning.{unsupported, to_string, parse_rest, parse}
use on_code.Protocol.Versioning.Laws.{version, parse-to_string}

parse-to_string_example : parse (to_string (version 12 305)) ≡ ok (version 12 305)
parse-to_string_example = parse-to_string 12 305 (omega arith) (omega arith) (omega arith)

parse_test :
    (parse (codes "oncode/1.0") ≡ err unsupported)
    × (parse (codes "oncode-tool/1.-1") ≡ err unsupported)
unfolding parse parse_rest trim_space has_prefix split atoi negate
parse_test = (refl, refl)
