-- ===== src/Protocol/Messages/Laws.antt =====
-- Envelopes that `NewEnvelope` makes are valid (protocol/messages/messages.go).
use on_code.Prelude.{is_empty, ℕ, ◌≡◌, ◌∙◌, true, false, Bytes, ok, >>=-eq-ok, bytes_eq_refl}
use on_code.Protocol.Ids
use on_code.Protocol.Ids.Kinds
use on_code.Protocol.Ids.RoundTrip.{validate-new}
use on_code.Protocol.Ids.Uuids.{Uuid, IsUuid, new_v7}
use on_code.Protocol.Versioning.Laws.{parse_compatible-current}
use on_code.Protocol.Messages.{
  MessageType, Payload, Envelope, known_type, fresh_envelope, new_envelope, validate_envelope,
  check_id, check_optional,
}

pub validate-message :
    (u : Uuid) (ms : ℕ) (id : Bytes)
    → IsUuid u
    → Ids.new Kinds.message (new_v7 u ms) ≡ ok id
    → Ids.validate Kinds.message id ≡ ok tt
validate-message u ms id h e =
    validate-new Kinds.message Kinds.message u ms id h e ∙ rw (bytes_eq_refl Kinds.message)

fresh_envelope-valid :
    (mid now : Bytes) (kind : MessageType) (payload : Payload)
    → Ids.validate Kinds.message mid ≡ ok tt
    → is_empty now ≡ false
    → known_type kind ≡ true
    → validate_envelope (fresh_envelope mid now kind payload) ≡ ok tt
unfolding validate_envelope check_id check_optional
fresh_envelope-valid mid now kind payload h t k = rw (parse_compatible-current, k, h, t)

-- An envelope of a known type with a time is valid as it is made, whatever its payload is.
pub new_envelope-valid :
    (u : Uuid) (ms : ℕ) (now : Bytes) (kind : MessageType) (payload : Payload) (e : Envelope)
    → IsUuid u
    → is_empty now ≡ false
    → known_type kind ≡ true
    → new_envelope (new_v7 u ms) now kind payload ≡ ok e
    → validate_envelope e ≡ ok tt
unfolding new_envelope
new_envelope-valid u ms now kind payload e h t k made =
    let (mid, named, rest) = >>=-eq-ok (Ids.new Kinds.message (new_v7 u ms)) _ made in
    let same : fresh_envelope mid now kind payload ≡ e = cc rest in
    rw same at (fresh_envelope-valid mid now kind payload (validate-message u ms mid h named) t k)
