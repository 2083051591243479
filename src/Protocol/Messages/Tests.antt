-- ===== src/Protocol/Messages/Tests.antt =====
-- Examples of messages (protocol/messages/messages.go).
use on_code.Prelude.{◌≡◌, refl, List, [], ◌∷◌, Bytes, codes, ok, err, arith, bytes_eq, index_byte}
use on_code.Prelude.Space.{trim_space}
use on_code.Protocol.Ids
use on_code.Protocol.Ids.Hex
use on_code.Protocol.Ids.Uuids
use on_code.Protocol.Ids.Uuids.{Uuid, format_uuid, new_v7}
use on_code.Protocol.Messages.{
  event, garbled, fresh_envelope, new_envelope, validate_envelope, bad_id, no_reason, no_changes,
  no_diff_hash, no_agent_id, Approval, reject, validate_approval, FileChange, modify,
  validate_change_set, validate_diff, validate_heartbeat, check_id, check_optional,
}
use on_code.Protocol.Messages.Laws.{new_envelope-valid}

abbrev drawn : Uuid
drawn = record {
  b0 = 1;
  b1 = 2;
  b2 = 3;
  b3 = 4;
  b4 = 5;
  b5 = 6;
  b6 = 7;
  b7 = 8;
  b8 = 9;
  b9 = 10;
  b10 = 11;
  b11 = 12;
  b12 = 13;
  b13 = 14;
  b14 = 15;
  b15 = 255;
}

abbrev mid : Bytes
mid = codes "MSG-018bcfe5-6800-7708-890a-0b0c0d0e0fff"

abbrev now : Bytes
now = codes "2023-11-14T22:13:20Z"

new_envelope-valid_example : validate_envelope (fresh_envelope mid now event (garbled [])) ≡ ok tt
unfolding new_envelope Ids.new Ids.known Ids.among bytes_eq format_uuid Hex.encode Hex.hex_digit
    new_v7
new_envelope-valid_example =
    new_envelope-valid drawn 1700000000000 now event (garbled [])
      (fresh_envelope mid now event (garbled [])) (omega arith) refl refl refl

abbrev change : Bytes → FileChange
change hash = record {
  path = codes "pom.xml";
  operation = modify;
  base_hash = hash;
  content = [];
  target_path = [];
}

abbrev changes : List FileChange
changes = change (codes "sha256:00") ∷ change [] ∷ []

abbrev approval : Bytes → Approval
approval reason = record {
  approval_id = codes "APR-018bcfe5-6800-7708-890a-0b0c0d0e0fff";
  approval_type = codes "CHANGE";
  decision = reject;
  reason = reason;
  approved_hash = [];
  resource_id = [];
}

-- a rejection needs a reason, and an approval its identifier
validate_approval_test :
    (validate_approval (approval []) ≡ err no_reason)
    × (validate_approval (approval (codes "risk")) ≡ ok tt)
    × (validate_approval (record (approval []) { approval_id = [] }) ≡ err (bad_id Ids.invalid_id))
unfolding validate_approval check_id Ids.validate Ids.parse Ids.split trim_space index_byte
    Ids.known Ids.among bytes_eq Uuids.parse_uuid Hex.decode Uuids.version Uuids.variant
validate_approval_test = (refl, refl, refl)

validate_change_set_test :
    validate_change_set (record {
      change_set_id = codes "CHG-018bcfe5-6800-7708-890a-0b0c0d0e0fff";
      in_workspace = [];
      base_revision = [];
      changes = [];
    })
    ≡ err no_changes
unfolding validate_change_set check_id check_optional Ids.validate Ids.parse Ids.split trim_space
    index_byte Ids.known Ids.among bytes_eq Uuids.parse_uuid Hex.decode Uuids.version Uuids.variant
validate_change_set_test = refl

validate_diff_test :
    validate_diff (record {
      diff_of = codes "CHG-018bcfe5-6800-7708-890a-0b0c0d0e0fff";
      diff = [];
      diff_hash = [];
      diff_workspace = [];
    })
    ≡ err no_diff_hash
unfolding validate_diff check_id Ids.validate Ids.parse Ids.split trim_space index_byte Ids.known
    Ids.among bytes_eq Uuids.parse_uuid Hex.decode Uuids.version Uuids.variant
validate_diff_test = refl

validate_heartbeat_test :
    validate_heartbeat (record { agent_id = []; protocol_version_text = []; sent_at = [] })
    ≡ err no_agent_id
unfolding validate_heartbeat
validate_heartbeat_test = refl
