-- ===== src/Client/Delivery.antt =====
-- background/gateway-client.ts: `sendEnvelope`. The network is a parameter with a state of its own.
pub mod Answers
use csboard_extension.Prelude.{
  ℕ, zero, suc, ◌*◌, Bool, true, false, not, ◌&&◌, ◌||◌, Option, none, some, List, [], ◌∷◌, leb,
  ltb, ◌==◌, if◌then◌else◌,
}
use csboard_extension.Prelude.Int.{pos, negsuc, leb_ℤ}
use csboard_extension.Prelude.Text.{Text, codes, ◌===◌}
use csboard_extension.Prelude.Pattern.{Regex, start, finish, unit, seq, test, to_lower}
use csboard_extension.Prelude.{length}
use csboard_extension.Shared.Millis.{Millis, whole_ms, decimal_ms}
use csboard_extension.Shared.Result.{Result, ok, err, ◌>>◌, throw_if}
use csboard_extension.Gateway.Error.{Checked, too_large}
use csboard_extension.Gateway.Payload.{Js, str, obj, Fields, Number, int, fraction, non_finite}
use csboard_extension.Gateway.Payload.Size.{json_bytes}
use csboard_extension.Gateway.Message.{
  EncryptedEnvelope, envelope_js, portfolio_sync, device_unpair, max_gateway_serialized_body_bytes,
}
use csboard_extension.Gateway.Envelope.{assert_gateway_encrypted_envelope}
use csboard_extension.Outbox.Records.{
  DeliveryFailureCode, network_unavailable, gateway_rate_limited, gateway_temporary_error,
  gateway_rejected, device_revoked,
}
use csboard_extension.Outbox.Drain.{SenderResult}
use csboard_extension.Client.Body.{
  lookup, has_exact_keys, is_true, is_boolean, is_text, is_optional_text, is_optional_integer,
  is_count,
}

abbrev pub max_response_body_bytes : ℕ
max_response_body_bytes = 32 * 1024

-- A response: `body` is the parsed text, if it could be read and is JSON; `content_length` is the
-- header as a number, where it is a whole one, and `retry_after` is what `Number` gives of the header.
pub record Response : Type 0 where
  pub status : ℕ
  pub ok_status : Bool
  pub content_length : Option ℕ
  pub body_bytes : ℕ
  pub body : Option Js
  pub retry_after : Number

unfoldable pub failure_code_for_status : ℕ → DeliveryFailureCode
failure_code_for_status status =
    if status == 401 || status == 403
    then device_revoked
    else if status == 429
    then gateway_rate_limited
    else if leb 500 status
    then gateway_temporary_error
    else gateway_rejected

-- `readBoundedText` and `parseJsonObject`: the object, unless something is thrown.
abbrev pub exceeds : ℕ → Option ℕ → Bool
exceeds limit none = false
exceeds limit (some n) = ltb limit n

abbrev pub object_of : Option Js → Option Fields
object_of (some (obj fields)) = some fields
object_of _ = none

unfoldable pub bounded_object : ℕ → Response → Option Fields
bounded_object limit response =
    if exceeds limit response.content_length
    then none
    else if ltb limit response.body_bytes
    then none
    else object_of response.body

abbrev is_between : ℕ → ℕ → ℕ → Bool
is_between lo hi c = leb lo (to_lower c) && leb (to_lower c) hi

abbrev hex_unit : Regex
hex_unit = unit (λ c. is_between b'0' b'9' c || is_between b'a' b'f' c)

abbrev hex_run : ℕ → Regex → Regex
hex_run zero rest = rest
hex_run (suc n) rest = seq hex_unit (hex_run n rest)

abbrev dash : Regex
dash = unit (λ c. c == b'-')

-- /^[0-9a-f]{8}-[0-9a-f]{4}-[1-8][0-9a-f]{3}-[89ab][0-9a-f]{3}-[0-9a-f]{12}$/i
unfoldable pub device_id_pattern : Regex
device_id_pattern = seq start (
    hex_run 8 (
      seq dash (
        hex_run 4 (
          seq dash (
            seq (unit (λ c. leb b'1' c && leb c b'8')) (
              hex_run 3 (
                seq dash (
                  seq (unit (λ c. c == b'8' || c == b'9' || is_between b'a' b'b' c))
                    (hex_run 3 (seq dash (hex_run 12 finish)))))))))))

abbrev pub sync_ack_keys : List Text
sync_ack_keys =
    codes "accepted"
    ∷ codes "cached"
    ∷ codes "requestId"
    ∷ codes "syncRunId"
    ∷ codes "chunkIndex"
    ∷ codes "chunkCount"
    ∷ codes "assembled"
    ∷ codes "eventCount"
    ∷ codes "queuedAt"
    ∷ []

abbrev pub unpair_ack_keys : List Text
unpair_ack_keys = codes "revoked" ∷ codes "cached" ∷ codes "deviceId" ∷ []

abbrev is_device_id : Js → Bool
is_device_id (str s) = test device_id_pattern s
is_device_id _ = false

unfoldable pub is_unpair_ack : Fields → Bool
is_unpair_ack body =
    has_exact_keys body unpair_ack_keys
    && is_true (lookup (codes "revoked") body)
    && is_boolean (lookup (codes "cached") body)
    && is_device_id (lookup (codes "deviceId") body)

abbrev pub accepted_answer : Bool → SenderResult
accepted_answer true = record {
  accepted = true;
  retryable = false;
  failure_code = none;
  retry_after_ms = none;
}
accepted_answer false = record {
  accepted = false;
  retryable = false;
  failure_code = some gateway_rejected;
  retry_after_ms = none;
}

-- `Math.min(m, 30 * 60 * 1_000)`
abbrev pub at_most_half_an_hour : Millis → Millis
at_most_half_an_hour m =
    if leb_ℤ (pos (30 * 60 * 1000)) m.whole then whole_ms (pos (30 * 60 * 1000)) else m

abbrev pub retry_after_ms_of : Number → Option Millis
retry_after_ms_of (int (pos zero)) = none
retry_after_ms_of (int (pos (suc n))) = some (at_most_half_an_hour (whole_ms (pos (suc n * 1000))))
retry_after_ms_of (int (negsuc n)) = none
retry_after_ms_of (fraction (pos zero) places) = none
retry_after_ms_of (fraction (pos (suc n)) places) =
    some (at_most_half_an_hour (decimal_ms (suc n * 1000) places))
retry_after_ms_of (fraction (negsuc n) places) = none
retry_after_ms_of non_finite = none

abbrev pub refused_answer : Response → SenderResult
refused_answer response = record {
  accepted = false;
  retryable = response.status == 429 || leb 500 response.status;
  failure_code = some (failure_code_for_status response.status);
  retry_after_ms = retry_after_ms_of response.retry_after;
}

abbrev pub checks_before_send : EncryptedEnvelope → Checked (Unit {0})
checks_before_send envelope =
    assert_gateway_encrypted_envelope envelope
    >> throw_if (ltb max_gateway_serialized_body_bytes (json_bytes (envelope_js envelope)))
        (too_large "encrypted-body-too-large")

-- Whether Date.parse gives a finite time is the browser's.
module _ (is_date : Text → Bool) where
  abbrev is_queued_at : Js → Bool
  is_queued_at (str s) = leb (length s) 64 && is_date s
  is_queued_at _ = false

  unfoldable pub is_sync_ack : EncryptedEnvelope → Fields → Bool
  is_sync_ack envelope body =
      has_exact_keys body sync_ack_keys
      && is_true (lookup (codes "accepted") body)
      && is_boolean (lookup (codes "cached") body)
      && is_text envelope.protected.request_id (lookup (codes "requestId") body)
      && is_optional_text envelope.protected.sync_run_id (lookup (codes "syncRunId") body)
      && is_optional_integer envelope.protected.chunk_index (lookup (codes "chunkIndex") body)
      && is_optional_integer envelope.protected.chunk_count (lookup (codes "chunkCount") body)
      && is_boolean (lookup (codes "assembled") body)
      && is_count (lookup (codes "eventCount") body)
      && is_queued_at (lookup (codes "queuedAt") body)

  unfoldable pub is_successful_envelope_ack : EncryptedEnvelope → Fields → Bool
  is_successful_envelope_ack envelope body =
      if envelope.protected.operation === portfolio_sync
      then is_sync_ack envelope body
      else if envelope.protected.operation === device_unpair
      then is_unpair_ack body
      else false

  abbrev pub acknowledges : EncryptedEnvelope → Option Fields → Bool
  acknowledges envelope none = false
  acknowledges envelope (some body) = is_successful_envelope_ack envelope body

  unfoldable pub answer_of : EncryptedEnvelope → Option Response → SenderResult
  answer_of envelope none = record {
    accepted = false;
    retryable = true;
    failure_code = some network_unavailable;
    retry_after_ms = none;
  }
  answer_of envelope (some response) =
      if response.ok_status
      then accepted_answer (acknowledges envelope (bounded_object max_response_body_bytes response))
      else refused_answer response

  -- `fetch` gives a response, or throws.
  module _ {W : Type 0} (fetch : EncryptedEnvelope → W → Option Response × W) where
    abbrev pub send_checked : EncryptedEnvelope → Checked (Unit {0}) → W → Checked SenderResult × W
    send_checked envelope (err error) w = (err error, w)
    send_checked envelope (ok passed) w =
        let (response, w') = fetch envelope w in (ok (answer_of envelope response), w')

    unfoldable pub send_envelope : EncryptedEnvelope → W → Checked SenderResult × W
    send_envelope envelope w = send_checked envelope (checks_before_send envelope) w
