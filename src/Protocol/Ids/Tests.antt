-- ===== src/Protocol/Ids/Tests.antt =====
-- Examples of identifiers (protocol/ids/ids.go).
use on_code.Prelude.{◌≡◌, refl, some, Bytes, codes, err, arith, bytes_eq, index_byte}
use on_code.Prelude.Space.{trim_space}
use on_code.Protocol.Ids.{
  invalid_id, unknown_kind, invalid_uuid, wrong_version, wrong_kind, among, known, new, split,
  parse, validate,
}
use on_code.Protocol.Ids.Hex
use on_code.Protocol.Ids.Kinds
use on_code.Protocol.Ids.RoundTrip.{validate-new}
use on_code.Protocol.Ids.Accepted.{Accepts, parse-Accepts}
use on_code.Protocol.Ids.Uuids.{
  Uuid, format_uuid, parse_uuid, version, variant, new_v7, parse_uuid-format_uuid,
}

-- what the random source gave
abbrev drawn : Uuid
drawn = record {
  b0 = 1;
  b1 = 2;
  b2 = 3;
  b3 = 4;
  b4 = 5;
  b5 = 6;
  b6 = 7;
  b7 = 8;
  b8 = 9;
  b9 = 10;
  b10 = 11;
  b11 = 12;
  b12 = 13;
  b13 = 14;
  b14 = 15;
  b15 = 255;
}

-- the same, stamped at 1700000000000 ms
abbrev stamped : Uuid
stamped = record drawn {
  b0 = 0x01;
  b1 = 0x8b;
  b2 = 0xcf;
  b3 = 0xe5;
  b4 = 0x68;
  b5 = 0x00;
  b6 = 0x77;
  b8 = 0x89;
}

abbrev text : Bytes
text = codes "MSG-018bcfe5-6800-7708-890a-0b0c0d0e0fff"

parse_uuid-format_uuid_example : parse_uuid (format_uuid drawn) ≡ some drawn
parse_uuid-format_uuid_example = parse_uuid-format_uuid drawn (omega arith)

validate-new_example : validate Kinds.call text ≡ err wrong_kind
unfolding new known among bytes_eq format_uuid Hex.encode Hex.hex_digit new_v7
validate-new_example =
    validate-new Kinds.message Kinds.call drawn 1700000000000 text (omega arith) refl

parse-Accepts_example :
    Accepts (codes " MSG-018bcfe5-6800-7708-890a-0b0c0d0e0fff\n") Kinds.message stamped
unfolding parse split trim_space index_byte known among bytes_eq parse_uuid Hex.decode version
    variant
parse-Accepts_example = parse-Accepts _ Kinds.message stamped refl

-- a text with no dash, with no kind, of an unknown kind, and of version 4
parse_test :
    (parse (codes "MSG") ≡ err invalid_id)
    × (parse (codes "-018bcfe5-6800-7708-890a-0b0c0d0e0fff") ≡ err invalid_id)
    × (parse (codes "XYZ-018bcfe5-6800-7708-890a-0b0c0d0e0fff") ≡ err unknown_kind)
    × (parse (codes "MSG-018bcfe5-6800-7708-890a-0b0c0d0e0ff") ≡ err invalid_uuid)
    × (parse (codes "MSG-018bcfe5-6800-4708-890a-0b0c0d0e0fff") ≡ err wrong_version)
unfolding parse split trim_space index_byte known among bytes_eq parse_uuid Hex.decode version
    variant
parse_test = (refl, refl, refl, refl, refl)
