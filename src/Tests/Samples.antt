-- ===== src/Tests/Samples.antt =====
-- The envelopes and records on which background/gateway-crypto.ts and background/sync-outbox.ts are
-- tested.
use csboard_extension.Prelude.{ℕ, zero, suc, ◌≡◌, refl, none, some, List, [], ◌∷◌}
use csboard_extension.Prelude.Int.{pos, ◌-ℤ◌, is_safe_integer}
use csboard_extension.Prelude.Text.{Text, codes, ◌===◌, includes, is_run_of}
use csboard_extension.Prelude.Pattern.{test, word}
use csboard_extension.Shared.Millis.{whole_ms}
use csboard_extension.Gateway.Payload.{
  assert_safe_gateway_payload, visit, visit_fields, is_forbidden_key, is_forbidden_string,
  forbidden_key_names, forbidden_string_patterns, normalize_key_name, visit_number, visit_string,
  visit_entry,
}
use csboard_extension.Gateway.Payload.Size.{
  json_bytes, items_bytes, fields_bytes, string_bytes, number_bytes,
}
use csboard_extension.Shared.Result.{ok}
use csboard_extension.Gateway.Message.{
  ProtectedMetadata, EncryptedEnvelope, hpke_suite, signature_algorithm, device_pair,
  portfolio_sync, device_unpair, operation_binding,
}
use csboard_extension.Gateway.Envelope.{assert_gateway_encrypted_envelope, is_sync_position}
use csboard_extension.Outbox.Records.{OutboxRecord}

abbrev repeat : ℕ → ℕ → Text
repeat zero c = []
repeat (suc n) c = c ∷ repeat n c

abbrev pub hash_43 : Text
hash_43 = repeat 43 b'q'

-- A pairing that is issued at 1000 s and lives for five minutes.
unfoldable pub pairing_protected : ProtectedMetadata
unfolding hpke_suite device_pair
pairing_protected = record {
  version = pos 1;
  suite = hpke_suite;
  operation = device_pair;
  http_method = codes "POST";
  http_path = codes "/api/extension/v2/pair/confirm";
  extension_id = repeat 32 b'a';
  extension_version = codes "1.20.3";
  payload_schema = codes "device.pair.v1";
  recipient_key_id = codes "gw.1";
  device_key_id = repeat 43 b'd';
  device_id_hash = none;
  sync_run_id = none;
  chunk_index = none;
  chunk_count = none;
  request_id = codes "request-00000001";
  idempotency_key = codes "attempt-00000001";
  nonce = codes "nonce-0000000001";
  issued_at = pos 1000;
  expires_at = pos 1300;
  plaintext_bytes = pos 120;
  payload_sha256 = hash_43;
}

abbrev pub envelope_of : ProtectedMetadata → EncryptedEnvelope
envelope_of p = record {
  version = pos 1;
  protected = p;
  encapsulated_key = hash_43;
  ciphertext = repeat 60 b'c';
  proof = record {
    algorithm = signature_algorithm;
    device_key_id = p.device_key_id;
    signature = repeat 86 b's';
  };
}

-- The third of five chunks of a portfolio.
unfoldable pub chunk_protected : ProtectedMetadata
unfolding pairing_protected portfolio_sync
chunk_protected = record pairing_protected {
  operation = portfolio_sync;
  http_path = codes "/api/extension/v2/portfolio/sync";
  payload_schema = codes "portfolio.sync.chunk.v1";
  device_id_hash = some hash_43;
  sync_run_id = some (codes "run-1");
  chunk_index = some (pos 2);
  chunk_count = some (pos 5);
  request_id = codes "request-00000002";
  idempotency_key = codes "attempt-00000002";
}

unfoldable pub pairing : EncryptedEnvelope
pairing = envelope_of pairing_protected

unfoldable pub chunk : EncryptedEnvelope
chunk = envelope_of chunk_protected

pub samples_pass :
    (assert_gateway_encrypted_envelope pairing ≡ ok tt)
    × (assert_gateway_encrypted_envelope chunk ≡ ok tt)
unfolding pairing pairing_protected chunk chunk_protected assert_gateway_encrypted_envelope
    assert_safe_gateway_payload is_forbidden_key is_forbidden_string forbidden_key_names
    forbidden_string_patterns normalize_key_name visit_number visit_string visit_entry word
    hpke_suite signature_algorithm operation_binding device_pair device_unpair portfolio_sync visit
    visit_fields ◌===◌ includes is_run_of test json_bytes items_bytes fields_bytes string_bytes
    number_bytes is_safe_integer ◌-ℤ◌ is_sync_position
samples_pass = (refl, refl)

-- A record of an envelope that was tried once, and is due after a minute.
abbrev pub record_of : EncryptedEnvelope → ℕ → ℕ → OutboxRecord
record_of e attempts due = record {
  request_id = e.protected.request_id;
  idempotency_key = e.protected.idempotency_key;
  envelope = e;
  created_at = pos 1000000;
  attempts = attempts;
  next_attempt_at = whole_ms (pos due);
  last_failure_code = none;
}

abbrev pub queue : List OutboxRecord
queue = record_of pairing 1 1060000 ∷ record_of chunk 0 1000000 ∷ []
