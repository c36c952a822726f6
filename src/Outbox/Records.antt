-- ===== src/Outbox/Records.antt =====
-- background/sync-outbox.ts: the records, and how they are read back from storage and written.
pub mod RoundTrip
pub mod Unique
use csboard_extension.Prelude.{
  ℕ, ◌*◌, Bool, not, ◌||◌, Option, none, some, List, [], ◌∷◌, map, ltb, length,
}
use csboard_extension.Prelude.Int.{ℤ, pos, pos_part, ltb_ℤ, is_safe_integer}
use csboard_extension.Prelude.Text.{Text, ◌===◌}
use csboard_extension.Shared.Millis.{Millis, whole_ms, number_of}
use csboard_extension.Shared.Result.{ok, err, ◌>>=◌, ◌>>◌, throw_if, map_result}
use csboard_extension.Gateway.Error.{Checked, invalid}
use csboard_extension.Gateway.Payload.{Number, int}
use csboard_extension.Gateway.Message.{EncryptedEnvelope}
use csboard_extension.Gateway.Envelope.{assert_gateway_encrypted_envelope}

abbrev pub max_outbox_entries : ℕ
max_outbox_entries = 100

abbrev pub max_attempts : ℕ
max_attempts = 8

pub data DeliveryFailureCode : Type 0 where
  network_unavailable gateway_rate_limited gateway_temporary_error gateway_rejected device_revoked :
      DeliveryFailureCode
  retry_limit : DeliveryFailureCode

pub record OutboxRecord : Type 0 where
  pub request_id : Text
  pub idempotency_key : Text
  pub envelope : EncryptedEnvelope
  pub created_at : ℤ
  pub attempts : ℕ
  pub next_attempt_at : Millis
  pub last_failure_code : Option DeliveryFailureCode

-- An entry as it is read back: a field of another type than the interface's is `none`, and so is an
-- envelope that is missing.
pub record RawFields : Type 0 where
  pub request_id : Option Text
  pub idempotency_key : Option Text
  pub envelope : Option EncryptedEnvelope
  pub created_at : Option Number
  pub attempts : Option Number
  pub next_attempt_at : Option Number
  pub last_failure_code : Option DeliveryFailureCode

pub data RawRecord : Type 0 where
  other : RawRecord
  object : RawFields → RawRecord

pub data Stored : Type 0 where
  missing not_array : Stored
  array : List RawRecord → Stored

abbrev pub present : {A : Type 0} → Option A → Checked A
present none = err (invalid "invalid-outbox-record")
present (some a) = ok a

abbrev pub integer : Number → Checked ℤ
integer (int n) = throw_if (not (is_safe_integer n)) (invalid "invalid-outbox-record") >> ok n
integer n = err (invalid "invalid-outbox-record")

unfoldable pub parse_fields : RawFields → Checked OutboxRecord
parse_fields raw = do
  request_id ← present raw.request_id
  idempotency_key ← present raw.idempotency_key
  created_at' ← present raw.created_at
  attempts' ← present raw.attempts
  next_attempt_at' ← present raw.next_attempt_at
  envelope ← present raw.envelope
  assert_gateway_encrypted_envelope envelope
  throw_if
      (not (request_id === envelope.protected.request_id)
        || not (idempotency_key === envelope.protected.idempotency_key))
      (invalid "invalid-outbox-record")
  created_at ← integer created_at'
  attempts ← integer attempts'
  throw_if (ltb_ℤ attempts (pos 0) || ltb_ℤ (pos max_attempts) attempts)
      (invalid "invalid-outbox-record")
  next_attempt_at ← integer next_attempt_at'
  ok (record {
    request_id = request_id;
    idempotency_key = idempotency_key;
    envelope = envelope;
    created_at = created_at;
    attempts = pos_part attempts;
    next_attempt_at = whole_ms next_attempt_at;
    last_failure_code = raw.last_failure_code;
  })

unfoldable pub parse_record : RawRecord → Checked OutboxRecord
unfolding parse_fields
parse_record other = err (invalid "invalid-outbox-record")
parse_record (object raw) = parse_fields raw

unfoldable pub parse_records : List RawRecord → Checked (List OutboxRecord)
unfolding map_result
parse_records [] = ok []
parse_records (raw ∷ rest) = do
  first ← parse_record raw
  map_result (parse_records rest) (λ records. first ∷ records)

unfoldable pub read_records : Stored → Checked (List OutboxRecord)
unfolding parse_record parse_records
read_records missing = ok []
read_records not_array = err (invalid "invalid-outbox")
read_records (array raw) = do
  throw_if (ltb max_outbox_entries (length raw)) (invalid "invalid-outbox")
  parse_records raw

abbrev pub to_raw : OutboxRecord → RawRecord
to_raw r = object (record {
  request_id = some r.request_id;
  idempotency_key = some r.idempotency_key;
  envelope = some r.envelope;
  created_at = some (int r.created_at);
  attempts = some (int (pos r.attempts));
  next_attempt_at = some (number_of r.next_attempt_at);
  last_failure_code = r.last_failure_code;
})

-- `storage.write(records)`.
abbrev pub write : List OutboxRecord → Stored
write records = array (map to_raw records)
