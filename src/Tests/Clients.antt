-- ===== src/Tests/Clients.antt =====
-- A chunk that is sent to a gateway that acknowledges it.
use csboard_extension.Prelude.{
  ℕ, ◌≡◌, refl, Bool, true, false, Option, none, some, zero, suc, [], ◌∷◌,
}
use csboard_extension.Prelude.Int.{pos, ◌-ℤ◌, ◌+ℤ◌, is_safe_integer}
use csboard_extension.Prelude.Text.{Text, codes, ◌===◌, includes, is_run_of}
use csboard_extension.Prelude.Pattern.{test, word}
use csboard_extension.Shared.Result.{ok}
use csboard_extension.Gateway.Payload.{
  bool, num, int, str, arr, obj, cons, nil, Fields, field, end, assert_safe_gateway_payload, visit,
  visit_fields, is_forbidden_key, is_forbidden_string, forbidden_key_names,
  forbidden_string_patterns, normalize_key_name, visit_number, visit_string, visit_entry,
}
use csboard_extension.Gateway.Payload.Size.{
  json_bytes, items_bytes, fields_bytes, string_bytes, number_bytes,
}
use csboard_extension.Gateway.Message.{
  EncryptedEnvelope, hpke_suite, signature_algorithm, device_pair, portfolio_sync, device_unpair,
  operation_binding, envelope_js, protected_js, proof_js,
}
use csboard_extension.Gateway.Envelope.{assert_gateway_encrypted_envelope, is_sync_position}
use csboard_extension.Portfolio.Order.{compare_text, insert, sort}
use csboard_extension.Client.Body.{
  object_keys, lookup, same_texts, has_exact_keys, is_text, is_optional_text, is_integer,
  is_optional_integer,
}
use csboard_extension.Client.Delivery.{
  Response, bounded_object, is_sync_ack, is_successful_envelope_ack, accepted_answer, answer_of,
  send_envelope,
}
use csboard_extension.Client.Delivery.Answers.{IsAnswer, send_envelope-IsAnswer}
use csboard_extension.Client.Config.{
  ParsedUrl, allowed_origins, validate_gateway_origin, IsOrigin, validate_gateway_origin-IsOrigin,
}
use csboard_extension.Client.Discovery.{
  DiscoveryKey, active, DiscoveryDocument, validate_recipient_jwk, validate_key, validate_keys,
  safe_integer_of, are_distinct, validate_discovery_document,
}
use csboard_extension.Client.Discovery.Sound.{IsUsable, validate_discovery_document-IsUsable}
use csboard_extension.Tests.Samples.{pairing, pairing_protected, chunk, chunk_protected}

abbrev any_date : Text → Bool
any_date s = true

abbrev acknowledgement : Fields
acknowledgement = field (codes "accepted") (bool true) (
    field (codes "assembled") (bool false) (
      field (codes "cached") (bool false) (
        field (codes "chunkCount") (num (int (pos 5))) (
          field (codes "chunkIndex") (num (int (pos 2))) (
            field (codes "eventCount") (num (int (pos 12))) (
              field (codes "queuedAt") (str (codes "2026-01-02T03:04:05Z")) (
                field (codes "requestId") (str (codes "request-00000002"))
                  (field (codes "syncRunId") (str (codes "run-1")) end))))))))

abbrev reply : Response
reply = record {
  status = 202;
  ok_status = true;
  content_length = none;
  body_bytes = 180;
  body = some (obj acknowledgement);
  retry_after = int (pos 0);
}

-- A network that counts the requests.
abbrev network : EncryptedEnvelope → ℕ → Option Response × ℕ
network envelope requests = (some reply, suc requests)

sent_chunk : send_envelope any_date network chunk 0 ≡ (ok (accepted_answer true), 1)
unfolding send_envelope answer_of bounded_object is_successful_envelope_ack is_sync_ack object_keys
    lookup same_texts has_exact_keys is_text is_optional_text is_integer is_optional_integer
    compare_text insert sort envelope_js protected_js proof_js pairing pairing_protected chunk
    chunk_protected assert_gateway_encrypted_envelope assert_safe_gateway_payload is_forbidden_key
    is_forbidden_string forbidden_key_names forbidden_string_patterns normalize_key_name
    visit_number visit_string visit_entry word hpke_suite signature_algorithm operation_binding
    device_pair device_unpair portfolio_sync visit visit_fields ◌===◌ includes is_run_of test
    json_bytes items_bytes fields_bytes string_bytes number_bytes is_safe_integer ◌-ℤ◌
    is_sync_position
sent_chunk = refl

send_envelope-IsAnswer_example :
    (response : Option Response) × (network chunk 0 ≡ (response, 1))
    × IsAnswer any_date chunk response (accepted_answer true)
send_envelope-IsAnswer_example =
    send_envelope-IsAnswer any_date chunk network 0 1 (accepted_answer true) sent_chunk

-- A discovery document with one key.
abbrev repeat : ℕ → ℕ → Text
repeat zero c = []
repeat (suc n) c = c ∷ repeat n c

abbrev gateway_key : DiscoveryKey
gateway_key = record { key_id = codes "gw.1"; status = active; x = repeat 43 b'x' }

abbrev discovery : Fields
discovery = field (codes "version") (num (int (pos 1))) (
    field (codes "suite") (str (codes "DHKEM-X25519-HKDF-SHA256/HKDF-SHA256/AES-256-GCM")) (
      field (codes "issuedAt") (num (int (pos 1000))) (
        field (codes "expiresAt") (num (int (pos 5000))) (
          field (codes "keys")
            (arr (
              cons
                (obj (
                  field (codes "keyId") (str (codes "gw.1")) (
                    field (codes "status") (str (codes "active")) (
                      field (codes "publicJwk")
                        (obj (
                          field (codes "kty") (str (codes "OKP")) (
                            field (codes "crv") (str (codes "X25519"))
                              (field (codes "x") (str (repeat 43 b'x')) end))))
                        end))))
                nil))
            end))))

abbrev document : DiscoveryDocument
document = record { issued_at = pos 1000; expires_at = pos 5000; keys = gateway_key ∷ [] }

discovered : validate_discovery_document discovery (pos 2000) ≡ some (document, gateway_key)
unfolding validate_discovery_document validate_keys validate_key validate_recipient_jwk
    safe_integer_of are_distinct object_keys lookup same_texts has_exact_keys is_text is_integer
    compare_text insert sort hpke_suite ◌===◌ includes is_run_of is_safe_integer ◌-ℤ◌ ◌+ℤ◌
discovered = refl

validate_discovery_document-IsUsable_example : IsUsable (pos 2000) document gateway_key
validate_discovery_document-IsUsable_example =
    validate_discovery_document-IsUsable discovery (pos 2000) document gateway_key discovered

-- A parser to which every text is the origin of an https URL.
abbrev any_url : Text → Option ParsedUrl
any_url text = some (record { protocol = codes "https:"; origin = text })

abbrev gateway : Text
gateway = codes "https://gateway.csboard.com"

gateway_valid :
    validate_gateway_origin any_url gateway (codes "https://csboard.com" ∷ gateway ∷ [])
    ≡ ok gateway
unfolding validate_gateway_origin allowed_origins includes ◌===◌
gateway_valid = refl

validate_gateway_origin-IsOrigin_example :
    IsOrigin any_url gateway (codes "https://csboard.com" ∷ gateway ∷ []) gateway
validate_gateway_origin-IsOrigin_example =
    validate_gateway_origin-IsOrigin any_url gateway (codes "https://csboard.com" ∷ gateway ∷ [])
      gateway gateway_valid
