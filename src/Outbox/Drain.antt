-- ===== src/Outbox/Drain.antt =====
-- background/sync-outbox.ts: one pass over the queue that sends what is due (`drainGatewayOutbox`).
pub mod Accounting
pub mod Totals
pub mod Sends
pub mod WholeTimes
pub mod Upkeep
use csboard_extension.Prelude.{
  ℕ, ◌+◌, ◌-◌, ◌*◌, ◌^◌, min, max, Bool, true, false, not, ◌||◌, Option, none, some, List, [], ◌∷◌,
  ◌++◌, leb, length, if◌then◌else◌,
}
use csboard_extension.Prelude.Int.{ℤ, pos, pos_part, ltb_ℤ, leb_ℤ, scale}
use csboard_extension.Shared.Millis.{Millis, whole_ms, plus_ms, is_after, clamp}
use csboard_extension.Shared.Result.{ok, ◌>>=◌}
use csboard_extension.Gateway.Error.{Checked}
use csboard_extension.Gateway.Message.{EncryptedEnvelope}
use csboard_extension.Outbox.Records.{
  max_attempts, DeliveryFailureCode, network_unavailable, gateway_temporary_error, retry_limit,
  OutboxRecord, Stored, read_records, write,
}

abbrev pub base_retry_delay_ms : ℕ
base_retry_delay_ms = 5000

abbrev pub max_retry_delay_ms : ℕ
max_retry_delay_ms = 30 * 60 * 1000

unfoldable pub retry_delay : ℕ → ℕ
retry_delay attempts = min max_retry_delay_ms (base_retry_delay_ms * 2 ^ (attempts - 1))

pub record SenderResult : Type 0 where
  pub accepted : Bool
  pub retryable : Bool
  pub failure_code : Option DeliveryFailureCode
  pub retry_after_ms : Option Millis

-- What a call of `send` comes to: it throws, or it answers.
pub data SendOutcome : Type 0 where
  thrown : SendOutcome
  answered : SenderResult → SendOutcome

pub record Tally : Type 0 where
  pub remaining : List OutboxRecord
  pub delivered : ℕ
  pub deferred : ℕ
  pub failed : ℕ
  pub terminal_failure_codes : List DeliveryFailureCode

abbrev pub empty_tally : Tally
empty_tally = record {
  remaining = [];
  delivered = 0;
  deferred = 0;
  failed = 0;
  terminal_failure_codes = [];
}

abbrev pub expires_at_ms : OutboxRecord → ℤ
expires_at_ms r = scale 1000 r.envelope.protected.expires_at

abbrev or_else : Option DeliveryFailureCode → DeliveryFailureCode → DeliveryFailureCode
or_else none d = d
or_else (some c) d = c

abbrev pub fail : DeliveryFailureCode → Tally → Tally
fail code t = record t {
  failed = t.failed + 1;
  terminal_failure_codes = t.terminal_failure_codes ++ code ∷ [];
}

abbrev pub defer : OutboxRecord → Tally → Tally
defer r t = record t { remaining = t.remaining ++ r ∷ []; deferred = t.deferred + 1 }

abbrev pub result_of : SendOutcome → SenderResult
result_of (answered result) = result
result_of thrown = record {
  accepted = false;
  retryable = true;
  failure_code = some network_unavailable;
  retry_after_ms = none;
}

abbrev pub requested_delay : Option Millis → ℕ → Millis
unfolding retry_delay
requested_delay none attempts = whole_ms (pos (retry_delay attempts))
requested_delay (some ms) attempts = ms

unfoldable pub safe_delay : SenderResult → ℕ → Millis
unfolding retry_delay clamp
safe_delay result attempts =
    clamp base_retry_delay_ms max_retry_delay_ms (requested_delay result.retry_after_ms attempts)

abbrev pub retried : OutboxRecord → ℕ → SenderResult → Millis → OutboxRecord
retried r now result delay = record r {
  attempts = r.attempts + 1;
  next_attempt_at = plus_ms now delay;
  last_failure_code = some (or_else result.failure_code gateway_temporary_error);
}

-- The rest of the loop's body, behind the call of `send`.
unfoldable pub settle : ℕ → OutboxRecord → SenderResult → Tally → Tally
settle now r result t =
    let delay = safe_delay result (r.attempts + 1) in
    if result.accepted
    then record t { delivered = t.delivered + 1 }
    else (if not result.retryable || leb max_attempts (r.attempts + 1)
        then fail (or_else result.failure_code retry_limit) t
        else (if leb_ℤ (expires_at_ms r) (plus_ms now delay).whole
            then fail (or_else result.failure_code retry_limit) t
            else defer (retried r now result delay) t))

pub record DrainResult : Type 0 where
  pub delivered : ℕ
  pub deferred : ℕ
  pub failed : ℕ
  pub remaining : ℕ
  pub terminal_failure_codes : List DeliveryFailureCode

unfoldable pub is_expired : ℕ → OutboxRecord → Bool
is_expired now r = leb_ℤ (expires_at_ms r) (pos now)

unfoldable pub is_waiting : ℕ → OutboxRecord → Bool
is_waiting now r = is_after (pos now) r.next_attempt_at

abbrev pub summary : Tally → DrainResult
summary t = record {
  delivered = t.delivered;
  deferred = t.deferred;
  failed = t.failed;
  remaining = length t.remaining;
  terminal_failure_codes = t.terminal_failure_codes;
}

module _ {W : Type 0} (send : EncryptedEnvelope → W → SendOutcome × W) (now : ℕ) where
  -- One round of the loop.
  unfoldable pub drain_record : OutboxRecord → Tally × W → Tally × W
  unfolding settle
  drain_record r (t, w) =
      let answer = send r.envelope w in
      if is_expired now r
      then (fail (or_else r.last_failure_code retry_limit) t, w)
      else (if is_waiting now r
          then (defer r t, w)
          else (settle now r (result_of (answer.0)) t, answer.1))

  unfoldable pub drain_loop : List OutboxRecord → Tally × W → Tally × W
  drain_loop [] s = s
  drain_loop (r ∷ rest) s = drain_loop rest (drain_record r s)

  unfoldable pub drain_gateway_outbox : Stored → W → Checked (DrainResult × Stored × W)
  drain_gateway_outbox stored w = do
    records ← read_records stored
    let (t, w') = drain_loop records (empty_tally, w)
    ok (summary t, write t.remaining, w')
