-- ===== src/Outbox/Drain/Sends.antt =====
-- background/sync-outbox.ts: which envelopes a pass hands to the sender.
use mathlib.Core.List.{append-nil, append_assoc}
use csboard_extension.Prelude.{
  ℕ, ◌≡◌, refl, sym, ap, ◌⊎◌, inl, inr, Bool, true, false, not, ◌&&◌, Bool-cases, List, [], ◌∷◌,
  ◌++◌, map, keep, keep-pos, keep-neg,
}
use csboard_extension.Shared.Result.{ok, map_result}
use csboard_extension.Gateway.Message.{EncryptedEnvelope}
use csboard_extension.Outbox.Records.{OutboxRecord, Stored, read_records}
use csboard_extension.Outbox.Drain.{
  SendOutcome, Tally, empty_tally, DrainResult, is_expired, is_waiting, drain_record, drain_loop,
  drain_gateway_outbox,
}

-- A record whose envelope is still valid and whose time has come.
unfoldable pub is_due : ℕ → OutboxRecord → Bool
is_due now r = not (is_expired now r) && not (is_waiting now r)

abbrev pub due_envelopes : ℕ → List OutboxRecord → List EncryptedEnvelope
due_envelopes now rs = map (λ r. r.envelope) (keep (is_due now) rs)

module _ {W : Type 0} (send : EncryptedEnvelope → W → SendOutcome × W) where
  -- The sender, with a list of what it was given.
  abbrev pub logged :
      EncryptedEnvelope → W × List EncryptedEnvelope → SendOutcome × (W × List EncryptedEnvelope)
  logged e (w, log) = ((send e w).0, ((send e w).1, log ++ e ∷ []))

  module _ (now : ℕ) where
    due-pos :
        (r : OutboxRecord) (rs : List OutboxRecord)
        → is_due now r ≡ true
        → due_envelopes now (r ∷ rs) ≡ r.envelope ∷ due_envelopes now rs
    due-pos r rs h = ap (map (λ r. r.envelope)) (keep-pos (is_due now) r rs h)

    due-neg :
        (r : OutboxRecord) (rs : List OutboxRecord)
        → is_due now r ≡ false
        → due_envelopes now (r ∷ rs) ≡ due_envelopes now rs
    due-neg r rs h = ap (map (λ r. r.envelope)) (keep-neg (is_due now) r rs h)

    -- A round sends the envelope of a due record, and nothing else.
    abbrev Logs : OutboxRecord → List EncryptedEnvelope → List EncryptedEnvelope → Type 0
    Logs r log log' =
        ((is_due now r ≡ true) × (log' ≡ log ++ r.envelope ∷ []))
        ⊎ ((is_due now r ≡ false) × (log' ≡ log))

    drain_record-Logs :
        (r : OutboxRecord) (t : Tally) (w : W) (log : List EncryptedEnvelope)
        → Logs r log (drain_record logged now r (t, (w, log))).1.1
    unfolding drain_record is_due
    drain_record-Logs r t w log = elim (Bool-cases (is_expired now r)) [
      | inl late ↦ rw late (inr (refl, refl))
      | inr alive ↦ elim (Bool-cases (is_waiting now r)) [
        | inl early ↦ rw (alive, early) (inr (refl, refl))
        | inr due ↦ rw (alive, due) (inl (refl, refl))
      ]
    ]

    -- The loop continues behind a round with what the round logged.
    drain_loop-log :
        (rs : List OutboxRecord) (t : Tally) (w : W) (log : List EncryptedEnvelope)
        → (drain_loop logged now rs (t, (w, log))).1.1 ≡ log ++ due_envelopes now rs
    unfolding drain_loop
    drain_loop-log [] t w log = sym (append-nil log)
    drain_loop-log (r ∷ rs) t w log =
        join (drain_record-Logs r t w log) (drain_loop-log rs s.0 s.1.0 s.1.1)
      where
        s : Tally × (W × List EncryptedEnvelope)
        s = drain_record logged now r (t, (w, log))

        join :
            {log' all : List EncryptedEnvelope}
            → Logs r log log'
            → all ≡ log' ++ due_envelopes now rs
            → all ≡ log ++ due_envelopes now (r ∷ rs)
        join (inl (due, e)) f =
            rw (due-pos r rs due, f, e) (append_assoc log (r.envelope ∷ []) (due_envelopes now rs))
        join (inr (other, e)) f = rw (due-neg r rs other, f, e)

    drain_gateway_outbox-sends :
        (stored : Stored) (records : List OutboxRecord) (w : W) (log : List EncryptedEnvelope)
        → read_records stored ≡ ok records
        → map_result (drain_gateway_outbox logged now stored (w, log)) (λ pass. pass.2.1)
          ≡ ok (log ++ due_envelopes now records)
    unfolding drain_gateway_outbox map_result
    drain_gateway_outbox-sends stored records w log e =
        rw e (ap ok (drain_loop-log records empty_tally w log))

    -- A pass over a queue that can be read sends the envelopes of the records that are due, each
    -- once and in the order of the queue, and no envelope that has expired or that waits for its
    -- next attempt.
    pub drain_gateway_outbox-log :
        (stored : Stored) (records : List OutboxRecord) (w w' : W)
        (log log' : List EncryptedEnvelope) (result : DrainResult) (stored' : Stored)
        → read_records stored ≡ ok records
        → drain_gateway_outbox logged now stored (w, log) ≡ ok (result, stored', (w', log'))
        → log' ≡ log ++ due_envelopes now records
    unfolding map_result
    drain_gateway_outbox-log stored records w w' log log' result stored' e done =
        let sends = drain_gateway_outbox-sends stored records w log e in
        let same : ok log' ≡ ok (log ++ due_envelopes now records) = rw done at sends in cc
