-- ===== src/Outbox/Drain/Accounting.antt =====
-- background/sync-outbox.ts: a pass accounts for every record, and keeps records in order.
use csboard_extension.Prelude.{
  ℕ, ◌+◌, ◌<◌, ◌≡◌, refl, ◌⊎◌, inl, inr, leb, true, false, not, ◌||◌, if-cases, [], ◌∷◌, ◌++◌,
  arith, length, length-append,
}
use csboard_extension.Prelude.Int.{pos, ◌<ℤ◌, ◌≤ℤ◌, leb_ℤ, +ℤ_parts}
use csboard_extension.Shared.Millis.{Millis, IsUpTo, IsPast, plus_ms, is_after-IsPast, clamp_bounds}
use csboard_extension.Gateway.Message.{EncryptedEnvelope}
use csboard_extension.Outbox.Records.{OutboxRecord, max_attempts, DeliveryFailureCode}
use csboard_extension.Outbox.Drain.{
  base_retry_delay_ms, max_retry_delay_ms, fail, defer, SenderResult, SendOutcome, Tally,
  expires_at_ms, requested_delay, safe_delay, retried, settle, is_expired, is_waiting, result_of,
  drain_record,
}

pub safe_delay_bounds :
    (result : SenderResult) (attempts : ℕ)
    → (pos base_retry_delay_ms ≤ℤ (safe_delay result attempts).whole)
      × IsUpTo (pos max_retry_delay_ms) (safe_delay result attempts)
unfolding safe_delay
safe_delay_bounds result attempts =
    clamp_bounds base_retry_delay_ms max_retry_delay_ms
      (requested_delay result.retry_after_ms attempts) (omega arith)

-- A delay of at least the base, later than `now`.
plus_ms_bounds :
    (now : ℕ) (delay : Millis)
    → pos base_retry_delay_ms ≤ℤ delay.whole
    → IsUpTo (pos max_retry_delay_ms) delay
    → (pos (now + base_retry_delay_ms) ≤ℤ (plus_ms now delay).whole)
      × IsUpTo (pos (now + max_retry_delay_ms)) (plus_ms now delay)
plus_ms_bounds now delay lo hi = ground (arith, +ℤ_parts (pos now) delay.whole)

-- A record that was sent without success and waits for another attempt.
pub record IsRetry (now : ℕ) (r k : OutboxRecord) : Type 0 where
  pub counted : k.attempts ≡ r.attempts + 1
  pub bounded : k.attempts < max_attempts
  pub spaced : pos (now + base_retry_delay_ms) ≤ℤ k.next_attempt_at.whole
  pub timely : IsUpTo (pos (now + max_retry_delay_ms)) k.next_attempt_at
  pub alive : k.next_attempt_at.whole <ℤ expires_at_ms k

-- How a record that stays in the queue comes from the one that was read.
pub record IsKept (now : ℕ) (r k : OutboxRecord) : Type 0 where
  pub same_envelope : k.envelope ≡ r.envelope
  pub same_request : k.request_id ≡ r.request_id
  pub same_key : k.idempotency_key ≡ r.idempotency_key
  pub same_time : k.created_at ≡ r.created_at
  pub later : IsPast (pos now) k.next_attempt_at
  pub attempt : ((k ≡ r) × (is_expired now r ≡ false) × (is_waiting now r ≡ true)) ⊎ IsRetry now r k

-- One round drops the record, or keeps it at the end.
pub record Drops (t t' : Tally) : Type 0 where
  pub remaining : t'.remaining ≡ t.remaining
  pub deferred : t'.deferred ≡ t.deferred
  pub settled : t'.delivered + t'.failed ≡ t.delivered + t.failed + 1
  pub codes :
      length t'.terminal_failure_codes + t.failed ≡ length t.terminal_failure_codes + t'.failed

pub record Keeps (now : ℕ) (r : OutboxRecord) (t t' : Tally) : Type 0 where
  pub kept : OutboxRecord
  pub is_kept : IsKept now r kept
  pub remaining : t'.remaining ≡ t.remaining ++ kept ∷ []
  pub deferred : t'.deferred ≡ t.deferred + 1
  pub settled : t'.delivered + t'.failed ≡ t.delivered + t.failed
  pub codes :
      length t'.terminal_failure_codes + t.failed ≡ length t.terminal_failure_codes + t'.failed

abbrev pub Round : ℕ → OutboxRecord → Tally → Tally → Type 0
Round now r t t' = Drops t t' ⊎ Keeps now r t t'

fail-Drops : (code : DeliveryFailureCode) (t : Tally) → Drops t (fail code t)
fail-Drops code t = record {
  remaining = refl;
  deferred = refl;
  settled = omega arith;
  codes = omega (arith, length-append t.terminal_failure_codes (code ∷ []));
}

deliver-Drops : (t : Tally) → Drops t (record t { delivered = t.delivered + 1 })
deliver-Drops t = record {
  remaining = refl;
  deferred = refl;
  settled = omega arith;
  codes = omega arith;
}

defer-Keeps :
    {now : ℕ} {r k : OutboxRecord} → IsKept now r k → (t : Tally) → Keeps now r t (defer k t)
defer-Keeps {k} h t = record {
  kept = k;
  is_kept = h;
  remaining = refl;
  deferred = refl;
  settled = refl;
  codes = omega arith;
}

module _ (now : ℕ) (r : OutboxRecord) where
  retried-IsKept :
      (result : SenderResult) (delay : Millis)
      → pos base_retry_delay_ms ≤ℤ delay.whole
      → IsUpTo (pos max_retry_delay_ms) delay
      → leb max_attempts (r.attempts + 1) ≡ false
      → leb_ℤ (expires_at_ms r) (plus_ms now delay).whole ≡ false
      → IsKept now r (retried r now result delay)
  retried-IsKept result delay lo hi few alive = record {
    same_envelope = refl;
    same_request = refl;
    same_key = refl;
    same_time = refl;
    later = inl (omega (arith, (plus_ms_bounds now delay lo hi).0));
    attempt = inr (record {
      counted = refl;
      bounded = ground arith;
      spaced = (plus_ms_bounds now delay lo hi).0;
      timely = (plus_ms_bounds now delay lo hi).1;
      alive = ground arith;
    });
  }

  pub settle-Round : (result : SenderResult) (t : Tally) → Round now r t (settle now r result t)
  unfolding settle
  settle-Round result t =
      if-cases P result.accepted (λ _. inl (deliver-Drops t))
        λ _.
          if-cases P (not result.retryable || leb max_attempts (r.attempts + 1))
            (λ _. inl (fail-Drops _ t))
            λ again.
              if-cases P (leb_ℤ (expires_at_ms r) (plus_ms now delay).whole)
                (λ _. inl (fail-Drops _ t))
                λ alive.
                  inr (defer-Keeps (retried-IsKept result delay lo hi (ground arith) alive) t)
    where
      P : Tally → Type 0
      P = Round now r t

      delay : Millis
      delay = safe_delay result (r.attempts + 1)

      lo : pos base_retry_delay_ms ≤ℤ delay.whole
      lo = (safe_delay_bounds result (r.attempts + 1)).0

      hi : IsUpTo (pos max_retry_delay_ms) delay
      hi = (safe_delay_bounds result (r.attempts + 1)).1

  waiting-IsKept : is_expired now r ≡ false → is_waiting now r ≡ true → IsKept now r r
  unfolding is_waiting
  waiting-IsKept alive waiting = record {
    same_envelope = refl;
    same_request = refl;
    same_key = refl;
    same_time = refl;
    later = is_after-IsPast (pos now) r.next_attempt_at waiting;
    attempt = inl (refl, alive, waiting);
  }

module _ {W : Type 0} (send : EncryptedEnvelope → W → SendOutcome × W) (now : ℕ) where
  pub drain_record-Round :
      (r : OutboxRecord) (t : Tally) (w : W) → Round now r t (drain_record send now r (t, w)).0
  unfolding drain_record
  drain_record-Round r t w =
      if-cases (λ (s : Tally × W). Round now r t s.0) (is_expired now r) (λ _. inl (fail-Drops _ t))
        λ alive.
          if-cases (λ (s : Tally × W). Round now r t s.0) (is_waiting now r)
            (λ waiting. inr (defer-Keeps (waiting-IsKept now r alive waiting) t))
            λ _. settle-Round now r (result_of ((send r.envelope w).0)) t
