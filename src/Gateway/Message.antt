-- ===== src/Gateway/Message.antt =====
-- shared/gateway-dto.ts: the envelope of an encrypted request, its limits and the operations, and the
-- envelope as the JavaScript value that the scan and the encoder read. An envelope has exactly the
-- keys of the interface; an optional key that is absent is `none`. The limit on the ciphertext is
-- that of background/gateway-crypto.ts.
use Prim.Native.String.{String}
use csboard_extension.Prelude.{ℕ, ◌+◌, ◌*◌, ◌/◌, Option, none, some, if◌then◌else◌}
use csboard_extension.Prelude.Int.{ℤ, pos}
use csboard_extension.Prelude.Text.{Text, codes, ◌===◌}
use csboard_extension.Gateway.Payload.{Js, num, str, obj, Fields, end, field, int}

pub record ProtectedMetadata : Type 0 where
  pub version : ℤ
  pub suite : Text
  pub operation : Text
  pub http_method : Text
  pub http_path : Text
  pub extension_id : Text
  pub extension_version : Text
  pub payload_schema : Text
  pub recipient_key_id : Text
  pub device_key_id : Text
  pub device_id_hash : Option Text
  pub sync_run_id : Option Text
  pub chunk_index : Option ℤ
  pub chunk_count : Option ℤ
  pub request_id : Text
  pub idempotency_key : Text
  pub nonce : Text
  pub issued_at : ℤ
  pub expires_at : ℤ
  pub plaintext_bytes : ℤ
  pub payload_sha256 : Text

pub record DeviceProof : Type 0 where
  pub algorithm : Text
  pub device_key_id : Text
  pub signature : Text

pub record EncryptedEnvelope : Type 0 where
  pub version : ℤ
  pub protected : ProtectedMetadata
  pub encapsulated_key : Text
  pub ciphertext : Text
  pub proof : DeviceProof

abbrev pub protocol_version : ℤ
protocol_version = pos 1

abbrev pub max_gateway_plaintext_bytes : ℕ
max_gateway_plaintext_bytes = 192 * 1024

abbrev pub max_gateway_serialized_body_bytes : ℕ
max_gateway_serialized_body_bytes = 320 * 1024

abbrev pub max_gateway_chunks_per_run : ℕ
max_gateway_chunks_per_run = 64

abbrev pub max_gateway_ttl_seconds : ℕ
max_gateway_ttl_seconds = 300

abbrev pub max_base64url_ciphertext_length : ℕ
max_base64url_ciphertext_length = (max_gateway_plaintext_bytes + 16 + 2) / 3 * 4

unfoldable pub hpke_suite : Text
hpke_suite = codes "DHKEM-X25519-HKDF-SHA256/HKDF-SHA256/AES-256-GCM"

unfoldable pub signature_algorithm : Text
signature_algorithm = codes "ES256"

unfoldable pub device_pair : Text
device_pair = codes "device.pair"

unfoldable pub device_unpair : Text
device_unpair = codes "device.unpair"

unfoldable pub portfolio_sync : Text
portfolio_sync = codes "portfolio.sync"

pub record OperationBinding : Type 0 where
  pub http_method : Text
  pub http_path : Text
  pub payload_schema : Text

-- GATEWAY_OPERATION_BINDINGS
unfoldable pub operation_binding : Text → Option OperationBinding
unfolding device_pair device_unpair portfolio_sync
operation_binding operation =
    if operation === device_pair
    then post "/api/extension/v2/pair/confirm" "device.pair.v1"
    else (if operation === device_unpair
        then post "/api/extension/v2/pair/revoke" "device.unpair.v1"
        else (if operation === portfolio_sync
            then post "/api/extension/v2/portfolio/sync" "portfolio.sync.chunk.v1"
            else none))
  where
    post : String → String → Option OperationBinding
    post path schema = some (record {
      http_method = codes "POST";
      http_path = codes path;
      payload_schema = codes schema;
    })

abbrev pub optional_text : String → Option Text → Fields → Fields
optional_text key none rest = rest
optional_text key (some s) rest = field (codes key) (str s) rest

abbrev pub optional_int : String → Option ℤ → Fields → Fields
optional_int key none rest = rest
optional_int key (some n) rest = field (codes key) (num (int n)) rest

abbrev pub text_field : String → Text → Fields → Fields
text_field key s rest = field (codes key) (str s) rest

abbrev pub int_field : String → ℤ → Fields → Fields
int_field key n rest = field (codes key) (num (int n)) rest

-- The records as the values that the scan and the encoder read.
unfoldable pub protected_js : ProtectedMetadata → Js
protected_js p = obj (
    int_field "version" p.version (
      text_field "suite" p.suite (
        text_field "operation" p.operation (
          text_field "httpMethod" p.http_method (
            text_field "httpPath" p.http_path (
              text_field "extensionId" p.extension_id (
                text_field "extensionVersion" p.extension_version (
                  text_field "payloadSchema" p.payload_schema (
                    text_field "recipientKeyId" p.recipient_key_id (
                      text_field "deviceKeyId" p.device_key_id (
                        optional_text "deviceIdHash" p.device_id_hash (
                          optional_text "syncRunId" p.sync_run_id (
                            optional_int "chunkIndex" p.chunk_index
                              (optional_int "chunkCount" p.chunk_count (tail p)))))))))))))))
  where
    tail : ProtectedMetadata → Fields
    tail p = text_field "requestId" p.request_id (
        text_field "idempotencyKey" p.idempotency_key (
          text_field "nonce" p.nonce (
            int_field "issuedAt" p.issued_at (
              int_field "expiresAt" p.expires_at (
                int_field "plaintextBytes" p.plaintext_bytes
                  (text_field "payloadSha256" p.payload_sha256 end))))))

unfoldable pub proof_js : DeviceProof → Js
proof_js p = obj (
    text_field "algorithm" p.algorithm
      (text_field "deviceKeyId" p.device_key_id (text_field "signature" p.signature end)))

unfoldable pub envelope_js : EncryptedEnvelope → Js
unfolding protected_js proof_js
envelope_js e = obj (
    int_field "version" e.version (
      field (codes "protected") (protected_js e.protected) (
        text_field "encapsulatedKey" e.encapsulated_key
          (text_field "ciphertext" e.ciphertext (field (codes "proof") (proof_js e.proof) end)))))
