-- ===== src/Outbox/Records/RoundTrip.antt =====
-- background/sync-outbox.ts: what the queue writes, it can read back.
use csboard_extension.Prelude.{
  ℕ, ◌≤◌, ◌≡◌, refl, true, false, List, [], ◌∷◌, map, arith, ◌+◌, ◌||◌, ltb, length, length-map,
  All,
}
use csboard_extension.Prelude.Int.{pos, is_safe_integer}
use csboard_extension.Prelude.Text.{Text, ◌===◌, ===_refl}
use csboard_extension.Shared.Millis.{IsIntegral}
use csboard_extension.Shared.Result.{ok}
use csboard_extension.Gateway.Envelope.{assert_gateway_encrypted_envelope}
use csboard_extension.Outbox.Records.{
  max_attempts, max_outbox_entries, OutboxRecord, to_raw, write, parse_record, parse_records,
  read_records,
}

-- A record that passes the checks of `parseRecord`.
pub record IsStorable (r : OutboxRecord) : Type 0 where
  pub intact : assert_gateway_encrypted_envelope r.envelope ≡ ok tt
  pub same_request : r.request_id ≡ r.envelope.protected.request_id
  pub same_key : r.idempotency_key ≡ r.envelope.protected.idempotency_key
  pub created : is_safe_integer r.created_at ≡ true
  pub tries : r.attempts ≤ max_attempts
  pub due : is_safe_integer r.next_attempt_at.whole ≡ true
  pub exact : IsIntegral r.next_attempt_at

===_of_eq : {s t : Text} → s ≡ t → (s === t) ≡ true
===_of_eq {t} e = rw e (===_refl t)

few_is_safe : (n : ℕ) → n ≤ max_attempts → is_safe_integer (pos n) ≡ true
unfolding is_safe_integer
few_is_safe n h = ground arith

few_in_range : (n : ℕ) → n ≤ max_attempts → (ltb n 0 || ltb max_attempts n) ≡ false
few_in_range n h = ground arith

parse_record-to_raw : (r : OutboxRecord) → IsStorable r → parse_record (to_raw r) ≡ ok r
unfolding parse_record
parse_record-to_raw r s = rw (
  s.exact,
  s.intact,
  ===_of_eq s.same_request,
  ===_of_eq s.same_key,
  s.created,
  few_is_safe r.attempts s.tries,
  few_in_range (r.attempts + 0) (omega (arith, s.tries)),
  s.due,
)

pub parse_records-to_raw :
    (rs : List OutboxRecord) → All IsStorable rs → parse_records (map to_raw rs) ≡ ok rs
unfolding parse_records
parse_records-to_raw [] h = refl
parse_records-to_raw (r ∷ rs) (s, h) = rw (parse_record-to_raw r s, parse_records-to_raw rs h) refl

-- A queue of at most 100 records that pass the checks is read back from storage as it was written.
pub read_records-write :
    (rs : List OutboxRecord)
    → All IsStorable rs
    → length rs ≤ max_outbox_entries
    → read_records (write rs) ≡ ok rs
unfolding read_records
read_records-write rs h fits = rw (room) (parse_records-to_raw rs h)
  where
    room : ltb max_outbox_entries (length (map to_raw rs)) ≡ false
    room = ground (arith, length-map to_raw rs)
