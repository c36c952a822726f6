-- ===== src/Outbox/History.antt =====
-- background/sync-outbox.ts: histories of calls. A call that throws leaves storage as it was.
pub mod Soundness
use csboard_extension.Prelude.{ℕ, suc, List, [], ◌∷◌}
use csboard_extension.Shared.Result.{ok, err}
use csboard_extension.Gateway.Error.{Checked}
use csboard_extension.Gateway.Message.{EncryptedEnvelope}
use csboard_extension.Outbox.Records.{Stored}
use csboard_extension.Outbox.Queue.{Receipt, enqueue_gateway_envelope, clear_gateway_outbox}
use csboard_extension.Outbox.Drain.{SendOutcome, DrainResult, drain_gateway_outbox}
use csboard_extension.Outbox.Drain.Sends.{logged}

pub data Call : Type 0 where
  enqueues : EncryptedEnvelope → ℕ → Call
  drains : ℕ → Call
  clears : Call

abbrev pub time_of : Call → ℕ
time_of (enqueues e now) = now
time_of (drains now) = now
time_of clears = 0

abbrev pub enqueue_count : List Call → ℕ
enqueue_count [] = 0
enqueue_count (enqueues e now ∷ cs) = suc (enqueue_count cs)
enqueue_count (drains now ∷ cs) = enqueue_count cs
enqueue_count (clears ∷ cs) = enqueue_count cs

-- Storage, the sender's world, and the envelopes that it was given.
abbrev pub World : Type 0 → Type 0
World W = Stored × (W × List EncryptedEnvelope)

module _ {W : Type 0} where
  abbrev pub after_enqueue : World W → Checked (Receipt × Stored) → World W
  after_enqueue s (ok (receipt, stored)) = (stored, s.1)
  after_enqueue s (err error) = s

  abbrev pub after_drain :
      World W → Checked (DrainResult × Stored × (W × List EncryptedEnvelope)) → World W
  after_drain s (ok (result, stored, w)) = (stored, w)
  after_drain s (err error) = s

module _ {W : Type 0} (send : EncryptedEnvelope → W → SendOutcome × W) where
  unfoldable pub step : Call → World W → World W
  step (enqueues e now) s = after_enqueue s (enqueue_gateway_envelope e now s.0)
  step (drains now) s = after_drain s (drain_gateway_outbox (logged send) now s.0 s.1)
  step clears s = (clear_gateway_outbox s.0, s.1)

  unfoldable pub run : List Call → World W → World W
  run [] s = s
  run (c ∷ cs) s = run cs (step c s)
