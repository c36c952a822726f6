-- ===== src/Gateway/Envelope.antt =====
-- background/gateway-crypto.ts: the structural check that an envelope passes before it is stored or
-- sent. The check of the key sets has nothing left to find in the records, and numbers are integers,
-- as every field of the check must be.
pub mod Facts
use Prim.Native.String.{String}
use csboard_extension.Prelude.{
  ℕ, ◌+◌, ◌*◌, ◌/◌, Bool, true, false, not, ◌&&◌, ◌||◌, Option, none, some, List, [], ◌∷◌, leb, ltb,
  ◌==◌, length, all, if◌then◌else◌,
}
use csboard_extension.Prelude.Int.{ℤ, pos, ltb_ℤ, leb_ℤ, ◌-ℤ◌, is_safe_integer}
use csboard_extension.Prelude.Text.{
  Text, codes, ◌===◌, includes, is_digit, is_upper, is_lower, is_base64url, is_run_of,
}
use csboard_extension.Prelude.Pattern.{
  Regex, empty, start, finish, unit, seq, alt, star, test, literal,
}
use csboard_extension.Shared.Result.{ok, err, ◌>>◌, throw_if, in_order}
use csboard_extension.Gateway.Error.{Checked, invalid, invalid_at_path, too_large, require}
use csboard_extension.Gateway.Payload.{
  Js, num, str, obj, Fields, end, field, int, assert_safe_gateway_payload,
}
use csboard_extension.Gateway.Payload.Size.{json_bytes}
use csboard_extension.Gateway.Message.{
  DeviceProof, EncryptedEnvelope, OperationBinding, ProtectedMetadata, device_pair, device_unpair,
  envelope_js, hpke_suite, max_base64url_ciphertext_length, max_gateway_chunks_per_run,
  max_gateway_plaintext_bytes, max_gateway_serialized_body_bytes, max_gateway_ttl_seconds,
  operation_binding, portfolio_sync, proof_js, protected_js, protocol_version, signature_algorithm,
}

abbrev is_token_unit : ℕ → Bool
is_token_unit c = is_base64url c || c == b'.'

pub assert_token : Text → ℕ → ℕ → Checked (Unit {0})
assert_token value lo hi =
    throw_if (ltb (length value) lo || ltb hi (length value) || not (all is_token_unit value))
      invalid_at_path

-- (?:0|[1-9]\d*), one component of a version.
abbrev version_part : Regex
version_part =
    alt (unit (λ c. c == b'0')) (seq (unit (λ c. leb b'1' c && leb c b'9')) (star (unit is_digit)))

abbrev dot_part : Regex
dot_part = seq (unit (λ c. c == b'.')) version_part

abbrev version_pattern : Regex
version_pattern =
    seq start (seq version_part (seq dot_part (seq dot_part (seq (alt dot_part empty) finish))))

abbrev is_extension_unit : ℕ → Bool
is_extension_unit c = leb b'a' c && leb c b'p'

pub assert_extension_identity : Text → Text → Checked (Unit {0})
assert_extension_identity extension_id extension_version = do
  require (is_run_of is_extension_unit 32 32 extension_id) invalid_at_path
  require (test version_pattern extension_version) invalid_at_path

abbrev pub is_hash : Text → Bool
is_hash = is_run_of is_base64url 43 43

abbrev pub is_absent {ℓ} : {A : Type ℓ} → Option A → Bool
is_absent none = true
is_absent (some a) = false

-- `!value` on an optional text: absent, or empty.
abbrev pub is_falsy : Option Text → Bool
is_falsy none = true
is_falsy (some []) = true
is_falsy (some (c ∷ s)) = false

assert_header : EncryptedEnvelope → Checked (Unit {0})
assert_header e =
    require
      (is_version e.version
        && is_version e.protected.version
        && e.protected.suite === hpke_suite
        && e.proof.algorithm === signature_algorithm
        && e.proof.device_key_id === e.protected.device_key_id)
      (invalid "invalid-envelope-header")
  where
    is_version : ℤ → Bool
    is_version v = leb_ℤ v protocol_version && leb_ℤ protocol_version v

pub assert_binding : ProtectedMetadata → Checked (Unit {0})
assert_binding p = elim (operation_binding p.operation) [
  | none ↦ err (invalid "invalid-operation")
  | some b ↦
      require
        (p.http_method === b.http_method
          && p.http_path === b.http_path
          && p.payload_schema === b.payload_schema)
        (invalid "invalid-http-binding")
]

pub assert_limits : ProtectedMetadata → Checked (Unit {0})
assert_limits p =
    throw_if
      (not (is_safe_integer p.issued_at)
        || not (is_safe_integer p.expires_at)
        || not (is_safe_integer p.plaintext_bytes)
        || leb_ℤ p.expires_at p.issued_at
        || ltb_ℤ (pos max_gateway_ttl_seconds) (p.expires_at -ℤ p.issued_at)
        || ltb_ℤ p.plaintext_bytes (pos 0)
        || ltb_ℤ (pos max_gateway_plaintext_bytes) p.plaintext_bytes
        || not (is_hash p.payload_sha256))
      (invalid "invalid-protected-metadata")

pub assert_device_binding : ProtectedMetadata → Checked (Unit {0})
assert_device_binding p =
    if p.operation === device_pair
    then throw_if
        (not (is_absent p.device_id_hash)
          || not (is_absent p.sync_run_id)
          || not (is_absent p.chunk_index)
          || not (is_absent p.chunk_count))
        (invalid "invalid-pair-binding")
    else throw_if (is_falsy p.device_id_hash || not (hash_of p.device_id_hash))
        (invalid "missing-device-id-hash")
  where
    hash_of : Option Text → Bool
    hash_of none = false
    hash_of (some s) = is_hash s

-- The chunk's index lies below the count, and the count within the limit of a run.
unfoldable pub is_sync_position : Option ℤ → Option ℤ → Bool
is_sync_position (some index) (some count) =
    is_safe_integer index
    && is_safe_integer count
    && not (ltb_ℤ index (pos 0))
    && not (ltb_ℤ count (pos 1))
    && not (ltb_ℤ (pos max_gateway_chunks_per_run) count)
    && not (leb_ℤ count index)
is_sync_position _ _ = false

pub assert_sync_binding : ProtectedMetadata → Checked (Unit {0})
unfolding is_sync_position
assert_sync_binding p =
    if p.operation === portfolio_sync
    then throw_if (is_falsy p.sync_run_id || not (is_sync_position p.chunk_index p.chunk_count))
        (invalid "invalid-sync-binding")
    else throw_if
        (not (is_absent p.sync_run_id)
          || not (is_absent p.chunk_index)
          || not (is_absent p.chunk_count))
        (invalid "unexpected-sync-binding")

pub envelope_checks : EncryptedEnvelope → List (Checked (Unit {0}))
envelope_checks e =
    assert_safe_gateway_payload (protected_js e.protected)
    ∷ assert_safe_gateway_payload (proof_js e.proof)
    ∷ assert_header e
    ∷ assert_binding e.protected
    ∷ assert_extension_identity e.protected.extension_id e.protected.extension_version
    ∷ require (is_hash e.encapsulated_key) (invalid "invalid-encapsulated-key")
    ∷ throw_if
        (not (all is_base64url e.ciphertext)
          || ltb (length e.ciphertext) 1
          || ltb max_base64url_ciphertext_length (length e.ciphertext))
        (invalid "invalid-ciphertext")
    ∷ require (is_run_of is_base64url 80 100 e.proof.signature) (invalid "invalid-device-proof")
    ∷ assert_limits e.protected
    ∷ assert_token e.protected.request_id 16 128
    ∷ assert_token e.protected.idempotency_key 16 128
    ∷ assert_token e.protected.nonce 16 128
    ∷ assert_token e.protected.device_key_id 22 86
    ∷ assert_token e.protected.recipient_key_id 1 128
    ∷ assert_device_binding e.protected
    ∷ assert_sync_binding e.protected
    ∷ throw_if (ltb max_gateway_serialized_body_bytes (json_bytes (envelope_js e)))
        (too_large "encrypted-body-too-large")
    ∷ []

unfoldable pub assert_gateway_encrypted_envelope : EncryptedEnvelope → Checked (Unit {0})
unfolding envelope_checks assert_header assert_binding assert_extension_identity assert_limits
    assert_token assert_device_binding assert_sync_binding protected_js proof_js envelope_js
assert_gateway_encrypted_envelope e = in_order (envelope_checks e)
