-- ===== src/Tests/Outboxes.antt =====
-- background/sync-outbox.ts on a queue of two records, with a sender that accepts every second call.
use csboard_extension.Prelude.{
  ◌≡◌, refl, Bool, true, false, none, some, List, [], ◌∷◌, ◌++◌, All, arith,
}
use csboard_extension.Prelude.Int.{pos, ◌+ℤ◌, scale, is_safe_integer}
use csboard_extension.Prelude.Text.{◌===◌}
use csboard_extension.Shared.Millis.{clamp}
use csboard_extension.Shared.Result.{ok, err}
use csboard_extension.Gateway.Error.{invalid}
use csboard_extension.Gateway.Message.{EncryptedEnvelope}
use csboard_extension.Outbox.Records.{
  OutboxRecord, network_unavailable, write, read_records, parse_records, parse_record, parse_fields,
}
use csboard_extension.Outbox.Records.RoundTrip.{IsStorable, read_records-write}
use csboard_extension.Outbox.Records.Unique.{IsQueue}
use csboard_extension.Outbox.Queue.{is_duplicate}
use csboard_extension.Outbox.Drain.{
  SendOutcome, thrown, answered, DrainResult, drain_gateway_outbox, drain_loop, drain_record,
  settle, is_expired, is_waiting, safe_delay, retry_delay,
}
use csboard_extension.Outbox.Drain.Totals.{Pass, drain_gateway_outbox-Pass}
use csboard_extension.Outbox.Drain.Sends.{logged, due_envelopes, drain_gateway_outbox-log}
use csboard_extension.Outbox.Drain.WholeTimes.{AnswersWhole}
use csboard_extension.Outbox.History.{Call, enqueues, drains, run}
use csboard_extension.Outbox.History.Soundness.{Sound, run-Sound}
use csboard_extension.Tests.Samples.{
  pairing, chunk, pairing_protected, chunk_protected, samples_pass, record_of, queue,
}

-- Answers by turns: an exception, and an acceptance.
unfoldable send : EncryptedEnvelope → Bool → SendOutcome × Bool
send e false = (thrown, true)
send e true = (
  answered
      (record { accepted = true; retryable = false; failure_code = none; retry_after_ms = none }),
  false,
)

record_of-pairing-IsStorable : IsStorable (record_of pairing 1 1060000)
unfolding is_safe_integer
record_of-pairing-IsStorable = record {
  intact = samples_pass.0;
  same_request = refl;
  same_key = refl;
  created = refl;
  tries = omega arith;
  due = refl;
  exact = refl;
}

record_of-chunk-IsStorable : IsStorable (record_of chunk 0 1000000)
unfolding is_safe_integer
record_of-chunk-IsStorable = record {
  intact = samples_pass.1;
  same_request = refl;
  same_key = refl;
  created = refl;
  tries = omega arith;
  due = refl;
  exact = refl;
}

queue-IsStorable : All IsStorable queue
queue-IsStorable = (record_of-pairing-IsStorable, (record_of-chunk-IsStorable, tt))

read_records-write_example : read_records (write queue) ≡ ok queue
read_records-write_example = read_records-write queue queue-IsStorable (omega arith)

no_queue-IsQueue : IsQueue []
no_queue-IsQueue = record { storable = tt; fits = omega arith; unique = tt }

abbrev history : List Call
history = enqueues pairing 1000000 ∷ drains 1001000 ∷ enqueues chunk 1002000 ∷ drains 1007000 ∷ []

send-AnswersWhole : (e : EncryptedEnvelope) (b : Bool) → AnswersWhole (send e b).0
unfolding send
send-AnswersWhole e false ms h = cc
send-AnswersWhole e true ms h = cc

run-Sound_example : Sound (run send history (write [], (false, []))) 16
run-Sound_example =
    run-Sound send send-AnswersWhole history (write [], (false, [])) 0
      (omega arith, (omega arith, (omega arith, (omega arith, tt))))
      (record {
        records = [];
        stored = refl;
        queue = no_queue-IsQueue;
        fresh = tt;
        spent = omega arith;
      })

drain_gateway_outbox-Pass_example :
    (result : DrainResult) × (w' : Bool) × (pass : Pass 1061000 queue result)
    × (drain_gateway_outbox send 1061000 (write queue) false ≡ ok (result, write pass.kept, w'))
drain_gateway_outbox-Pass_example =
    drain_gateway_outbox-Pass send 1061000 (write queue) queue false
      (read_records-write queue queue-IsStorable (omega arith))

-- What the pass comes to: the first record is put off by ten seconds, the second is delivered.
abbrev after : List OutboxRecord
after = record (record_of pairing 2 1071000) { last_failure_code = some network_unavailable } ∷ []

abbrev outcome : DrainResult
outcome = record {
  delivered = 1;
  deferred = 1;
  failed = 0;
  remaining = 1;
  terminal_failure_codes = [];
}

pass_over_queue :
    drain_gateway_outbox (logged send) 1061000 (write queue) (false, [])
    ≡ ok (outcome, write after, (false, pairing ∷ chunk ∷ []))
unfolding drain_gateway_outbox drain_loop drain_record settle is_expired is_waiting safe_delay
    retry_delay clamp ◌+ℤ◌ scale send pairing pairing_protected chunk chunk_protected
pass_over_queue = rw (read_records-write queue queue-IsStorable (omega arith)) refl

drain_gateway_outbox-log_example : pairing ∷ chunk ∷ [] ≡ [] ++ due_envelopes 1061000 queue
drain_gateway_outbox-log_example =
    drain_gateway_outbox-log send 1061000 (write queue) queue false false [] (pairing ∷ chunk ∷ [])
      outcome (write after) (read_records-write queue queue-IsStorable (omega arith))
      pass_over_queue

other_requests : is_duplicate chunk (record_of pairing 1 1060000) ≡ false
unfolding pairing pairing_protected chunk chunk_protected ◌===◌
other_requests = refl

-- A time with a fraction, as a delay with a fraction makes it, is written but not read back.
abbrev put_off : OutboxRecord
put_off = record (record_of pairing 1 0) {
  next_attempt_at = record { whole = pos 1012345; beyond = 6; places = 1 };
}

fractional_delay_is_unreadable :
    read_records (write (put_off ∷ [])) ≡ err (invalid "invalid-outbox-record")
unfolding read_records parse_records parse_record parse_fields is_safe_integer ◌===◌ pairing
    pairing_protected
fractional_delay_is_unreadable = rw samples_pass.0 refl
