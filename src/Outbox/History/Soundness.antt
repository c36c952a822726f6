-- ===== src/Outbox/History/Soundness.antt =====
-- background/sync-outbox.ts: every history of calls keeps the queue sound and bounds the sends.
use mathlib.Core.Path.{subst}
use csboard_extension.Prelude.{
  ℕ, ◌+◌, ◌*◌, ◌≤◌, ◌≡◌, refl, ap, ◌∙◌, ◌⊎◌, inl, inr, true, false, Bool-cases, List, [], ◌∷◌, ◌++◌,
  arith, leb, keep, length, length-append, length-map, any, All, All-append,
}
use csboard_extension.Prelude.Int.{pos, is_safe_integer}
use csboard_extension.Shared.Result.{ok, err, Result-cases}
use csboard_extension.Gateway.Error.{GatewayPayloadError, Checked, invalid}
use csboard_extension.Gateway.Message.{EncryptedEnvelope}
use csboard_extension.Gateway.Envelope.{assert_gateway_encrypted_envelope}
use csboard_extension.Outbox.Records.{
  max_attempts, max_outbox_entries, OutboxRecord, Stored, read_records, write,
}
use csboard_extension.Outbox.Records.RoundTrip.{IsStorable, read_records-write}
use csboard_extension.Outbox.Records.Unique.{IsQueue}
use csboard_extension.Outbox.History.{
  Call, enqueues, drains, clears, time_of, enqueue_count, World, after_enqueue, after_drain, step,
  run,
}
use csboard_extension.Outbox.Queue.{
  Receipt, is_duplicate, fresh_record, enqueue_gateway_envelope, clear_gateway_outbox,
}
use csboard_extension.Outbox.Queue.Laws.{
  Offered, enqueue_gateway_envelope-Offered, enqueue_gateway_envelope-full,
}
use csboard_extension.Outbox.Drain.{
  SendOutcome, DrainResult, empty_tally, drain_loop, drain_gateway_outbox,
}
use csboard_extension.Outbox.Drain.Totals.{Pass, drain_gateway_outbox-kept}
use csboard_extension.Outbox.Drain.WholeTimes.{HasWholeTime, AnswersWhole, drain_loop-AllWhole}
use csboard_extension.Outbox.Drain.Sends.{is_due, due_envelopes, logged, drain_gateway_outbox-log}
use csboard_extension.Outbox.Drain.Upkeep.{
  max_date_ms, attempts_left, HasAttempts, Follows-IsQueue, Follows-attempts_left,
}

module _ {W : Type 0} where
  -- A state of storage that calls can reach, with the sends that its queue still allows.
  pub record Sound (s : World W) (budget : ℕ) : Type 0 where
    pub records : List OutboxRecord
    pub stored : s.0 ≡ write records
    pub queue : IsQueue records
    pub fresh : All HasAttempts records
    pub spent : attempts_left records + length s.1.1 ≤ budget

  Sound-le : {s : World W} {b b' : ℕ} → Sound s b → b ≤ b' → Sound s b'
  Sound-le v h = record {
    records = v.records;
    stored = v.stored;
    queue = v.queue;
    fresh = v.fresh;
    spent = omega (arith, v.spent);
  }

enqueue_count_cons :
    (c : Call) (cs : List Call) → enqueue_count (c ∷ cs) ≡ enqueue_count (c ∷ []) + enqueue_count cs
enqueue_count_cons (enqueues e now) cs = omega arith
enqueue_count_cons (drains now) cs = omega arith
enqueue_count_cons clears cs = omega arith

date_is_safe : (now : ℕ) → now ≤ max_date_ms → is_safe_integer (pos now) ≡ true
unfolding is_safe_integer
date_is_safe now h = ground arith

attempts_left-append :
    (rs ks : List OutboxRecord) → attempts_left (rs ++ ks) ≡ attempts_left rs + attempts_left ks
attempts_left-append [] ks = omega arith
attempts_left-append (r ∷ rs) ks = omega (arith, attempts_left-append rs ks)

module _ (e : EncryptedEnvelope) (now : ℕ) (date : now ≤ max_date_ms) (rs : List OutboxRecord)
    (queue : IsQueue rs) where
  abbrev Enqueues : Checked (Receipt × Stored) → Type 0
  Enqueues outcome =
      ((error : GatewayPayloadError) × (outcome ≡ err error))
      ⊎ ((receipt : Receipt) × (rs' : List OutboxRecord) × Offered e now rs rs' receipt
          × (outcome ≡ ok (receipt, write rs')))

  sealed-Enqueues :
      assert_gateway_encrypted_envelope e ≡ ok tt
      → Enqueues (enqueue_gateway_envelope e now (write rs))
  sealed-Enqueues sealed = elim (Bool-cases (any (is_duplicate e) rs)) [
    | inl old ↦ inr (enqueue_gateway_envelope-Offered e now rs queue sealed safe (inl old))
    | inr new ↦ elim (Bool-cases (leb max_outbox_entries (length rs))) [
      | inl full ↦ inl (
        invalid "outbox-full",
        enqueue_gateway_envelope-full e now rs sealed queue.storable new
            (ground (arith, queue.fits)),
      )
      | inr room ↦
          inr (enqueue_gateway_envelope-Offered e now rs queue sealed safe (inr (ground arith)))
    ]
  ]
    where
      safe : is_safe_integer (pos now) ≡ true
      safe = date_is_safe now date

  enqueue-Enqueues : Enqueues (enqueue_gateway_envelope e now (write rs))
  unfolding enqueue_gateway_envelope
  enqueue-Enqueues = elim (Result-cases (assert_gateway_encrypted_envelope e)) [
    | inl (_, sealed) ↦ sealed-Enqueues sealed
    | inr (error, refused) ↦ inl (error, rw refused)
  ]

Offered-attempts :
    {e : EncryptedEnvelope} {now : ℕ} {rs rs' : List OutboxRecord} {receipt : Receipt}
    → Offered e now rs rs' receipt
    → All HasAttempts rs
    → (attempts_left rs' ≤ max_attempts + attempts_left rs) × All HasAttempts rs'
Offered-attempts {e} {now} {rs} {rs'} {receipt} offered fresh = go (offered.change)
  where
    go :
        ((receipt.queued ≡ true) × (rs' ≡ rs ++ fresh_record e now ∷ []))
          ⊎ ((receipt.queued ≡ false) × (rs' ≡ rs))
        → (attempts_left rs' ≤ max_attempts + attempts_left rs) × All HasAttempts rs'
    go (inl (_, same)) = rw same (
      omega (arith, attempts_left-append rs (fresh_record e now ∷ [])),
      All-append HasAttempts rs (fresh_record e now ∷ []) fresh (omega arith, tt),
    )
    go (inr (_, same)) = rw same (omega arith, fresh)

whole_times : (rs : List OutboxRecord) → All IsStorable rs → All HasWholeTime rs
whole_times [] h = tt
whole_times (r ∷ rs) (s, h) = (s.exact, whole_times rs h)

module _ {W : Type 0} (send : EncryptedEnvelope → W → SendOutcome × W)
    (asks : (e : EncryptedEnvelope) (w : W) → AnswersWhole (send e w).0) where
  enqueue-Sound :
      (e : EncryptedEnvelope) (now : ℕ) (s : World W) (budget : ℕ)
      → now ≤ max_date_ms
      → Sound s budget
      → Sound (step send (enqueues e now) s) (max_attempts + budget)
  unfolding step
  enqueue-Sound e now s budget date v =
      rw v.stored (after (enqueue-Enqueues e now date v.records v.queue))
    where
      after :
          {outcome : Checked (Receipt × Stored)}
          → Enqueues e now date v.records v.queue outcome
          → Sound (after_enqueue (write v.records, s.1) outcome) (max_attempts + budget)
      after (inl (error, refused)) = rw refused (record {
        records = v.records;
        stored = refl;
        queue = v.queue;
        fresh = v.fresh;
        spent = omega (arith, v.spent);
      })
      after (inr (receipt, rs', offered, done)) = rw done (record {
        records = rs';
        stored = refl;
        queue = offered.queue;
        fresh = (Offered-attempts offered v.fresh).1;
        spent = omega (arith, v.spent, (Offered-attempts offered v.fresh).0);
      })

  drain-Sound :
      (now : ℕ) (s : World W) (budget : ℕ)
      → now ≤ max_date_ms
      → Sound s budget
      → Sound (step send (drains now) s) budget
  unfolding step
  drain-Sound now s budget date v = rw v.stored (
      passed (drain_gateway_outbox-kept (logged send) now (write v.records) v.records s.1 readable))
    where
      readable : read_records (write v.records) ≡ ok v.records
      readable = read_records-write v.records (v.queue.storable) (v.queue.fits)

      log_length :
          (result : DrainResult) (w' : W × List EncryptedEnvelope)
          (pass : Pass now v.records result)
          → drain_gateway_outbox (logged send) now (write v.records) s.1
            ≡ ok (result, write pass.kept, w')
          → length w'.1 ≡ length s.1.1 + length (keep (is_due now) v.records)
      log_length result w' pass done =
          ap length (
            drain_gateway_outbox-log send now (write v.records) v.records s.1.0 w'.0 s.1.1 w'.1
              result (write pass.kept) readable done)
          ∙ length-append s.1.1 (due_envelopes now v.records)
          ∙ ap (λ n. length s.1.1 + n) (length-map (λ r. r.envelope) (keep (is_due now) v.records))

      passed :
          (result : DrainResult) × (w' : W × List EncryptedEnvelope) × (pass : Pass now v.records
              result)
            × (drain_gateway_outbox (logged send) now (write v.records) s.1
                ≡ ok (result, write pass.kept, w'))
            × ((drain_loop (logged send) now v.records (empty_tally, s.1)).0.remaining ≡ pass.kept)
          → Sound
              (after_drain
                (write v.records, s.1)
                (drain_gateway_outbox (logged send) now (write v.records) s.1))
              budget
      passed (result, w', pass, done, left) = rw done (record {
        records = pass.kept;
        stored = refl;
        queue = Follows-IsQueue date (pass.follows) (v.queue) (
            subst (All HasWholeTime) left (
              drain_loop-AllWhole (logged send) (λ e w. asks e w.0) now v.records empty_tally s.1
                (whole_times v.records v.queue.storable) tt));
        fresh = (Follows-attempts_left (pass.follows) (v.fresh)).1;
        spent = omega (
          arith,
          v.spent,
          (Follows-attempts_left (pass.follows) (v.fresh)).0,
          log_length result w' pass done,
        );
      })

  step-Sound :
      (c : Call) (s : World W) (budget : ℕ)
      → time_of c ≤ max_date_ms
      → Sound s budget
      → Sound (step send c s) (max_attempts * enqueue_count (c ∷ []) + budget)
  unfolding step clear_gateway_outbox
  step-Sound (enqueues e now) s budget date v =
      Sound-le (enqueue-Sound e now s budget date v) (omega arith)
  step-Sound (drains now) s budget date v = Sound-le (drain-Sound now s budget date v) (omega arith)
  step-Sound clears s budget date v = record {
    records = [];
    stored = refl;
    queue = record { storable = tt; fits = omega arith; unique = tt };
    fresh = tt;
    spent = omega (arith, v.spent);
  }

  -- Where the sender asks for delays in whole milliseconds, after any history of calls from a sound
  -- state, at times that a clock can show, the queue is sound: it can be read back, holds at most 100 records, no two of one request, each tried fewer
  -- than eight times. And each envelope that is offered allows for at most eight sends.
  pub run-Sound :
      (cs : List Call) (s : World W) (budget : ℕ)
      → All (λ c. time_of c ≤ max_date_ms) cs
      → Sound s budget
      → Sound (run send cs s) (max_attempts * enqueue_count cs + budget)
  unfolding run
  run-Sound [] s budget dates v = Sound-le v (omega arith)
  run-Sound (c ∷ cs) s budget (date, dates) v =
      Sound-le
        (run-Sound cs (step send c s) (max_attempts * enqueue_count (c ∷ []) + budget) dates
          (step-Sound c s budget date v))
        (omega (arith, enqueue_count_cons c cs))
