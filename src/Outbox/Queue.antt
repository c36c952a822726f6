-- ===== src/Outbox/Queue.antt =====
-- background/sync-outbox.ts: adding an envelope, the status, and clearing the queue.
pub mod Laws
use csboard_extension.Prelude.{
  ℕ, Bool, true, false, ◌||◌, none, List, [], ◌∷◌, ◌++◌, leb, ltb, length, any, keep, if◌then◌else◌,
}
use csboard_extension.Prelude.Int.{pos}
use csboard_extension.Prelude.Text.{◌===◌}
use csboard_extension.Shared.Millis.{whole_ms}
use csboard_extension.Shared.Result.{ok, err, ◌>>=◌, ◌>>◌}
use csboard_extension.Gateway.Error.{Checked, invalid}
use csboard_extension.Gateway.Message.{EncryptedEnvelope}
use csboard_extension.Gateway.Envelope.{assert_gateway_encrypted_envelope}
use csboard_extension.Outbox.Records.{max_outbox_entries, OutboxRecord, Stored, read_records, write}

pub record Receipt : Type 0 where
  pub queued : Bool
  pub size : ℕ

abbrev pub is_duplicate : EncryptedEnvelope → OutboxRecord → Bool
is_duplicate e r =
    r.request_id === e.protected.request_id || r.idempotency_key === e.protected.idempotency_key

abbrev pub fresh_record : EncryptedEnvelope → ℕ → OutboxRecord
fresh_record e now = record {
  request_id = e.protected.request_id;
  idempotency_key = e.protected.idempotency_key;
  envelope = e;
  created_at = pos now;
  attempts = 0;
  next_attempt_at = whole_ms (pos now);
  last_failure_code = none;
}

-- What follows the reading of the records.
unfoldable pub enqueue_into :
    EncryptedEnvelope → ℕ → Stored → List OutboxRecord → Checked (Receipt × Stored)
enqueue_into e now stored records =
    if any (is_duplicate e) records
    then ok (record { queued = false; size = length records }, stored)
    else (if leb max_outbox_entries (length records)
        then err (invalid "outbox-full")
        else (let records' = records ++ fresh_record e now ∷ [] in
            ok (record { queued = true; size = length records' }, write records')))

unfoldable pub enqueue_gateway_envelope :
    EncryptedEnvelope → ℕ → Stored → Checked (Receipt × Stored)
enqueue_gateway_envelope e now stored = do
  assert_gateway_encrypted_envelope e
  records ← read_records stored
  enqueue_into e now stored records

pub record OutboxStatus : Type 0 where
  pub pending : ℕ
  pub retrying : ℕ

unfoldable pub get_gateway_outbox_status : Stored → Checked OutboxStatus
get_gateway_outbox_status stored = do
  records ← read_records stored
  ok (record { pending = length records; retrying = length (keep (λ r. ltb 0 r.attempts) records) })

unfoldable pub clear_gateway_outbox : Stored → Stored
clear_gateway_outbox stored = write []
