-- ===== src/Outbox/Drain/WholeTimes.antt =====
-- background/sync-outbox.ts: when every delay that the sender asks for is a whole number of
-- milliseconds, the times in the queue stay whole.
use csboard_extension.Prelude.{
  ℕ, ◌+◌, ◌≡◌, refl, ap, Option, none, some, not, ◌||◌, leb, if-cases, List, [], ◌∷◌, All,
  All-append,
}
use csboard_extension.Prelude.Int.{leb_ℤ}
use csboard_extension.Shared.Millis.{Millis, IsIntegral, plus_ms, clamp-IsIntegral}
use csboard_extension.Gateway.Message.{EncryptedEnvelope}
use csboard_extension.Outbox.Records.{OutboxRecord, max_attempts}
use csboard_extension.Outbox.Drain.{
  base_retry_delay_ms, max_retry_delay_ms, SenderResult, SendOutcome, result_of, Tally,
  expires_at_ms, requested_delay, safe_delay, settle, is_expired, is_waiting, drain_record,
  drain_loop,
}

abbrev pub HasWholeTime : OutboxRecord → Type 0
HasWholeTime r = IsIntegral r.next_attempt_at

abbrev pub AsksWhole : SenderResult → Type 0
AsksWhole result = (ms : Millis) → result.retry_after_ms ≡ some ms → IsIntegral ms

abbrev pub AnswersWhole : SendOutcome → Type 0
AnswersWhole outcome = AsksWhole (result_of outcome)

safe_delay-IsIntegral :
    (result : SenderResult) (attempts : ℕ)
    → AsksWhole result
    → IsIntegral (safe_delay result attempts)
unfolding safe_delay
safe_delay-IsIntegral result attempts asks =
    clamp-IsIntegral base_retry_delay_ms max_retry_delay_ms
      (requested_delay result.retry_after_ms attempts) (requested result.retry_after_ms asks)
  where
    requested :
        (o : Option Millis)
        → ((ms : Millis) → o ≡ some ms → IsIntegral ms)
        → IsIntegral (requested_delay o attempts)
    requested none h = refl
    requested (some ms) h = h ms refl

plus_ms-IsIntegral : (now : ℕ) (delay : Millis) → IsIntegral delay → IsIntegral (plus_ms now delay)
plus_ms-IsIntegral now delay h = ap (plus_ms now) h

abbrev AllWhole : Tally → Type 0
AllWhole t = All HasWholeTime t.remaining

module _ (now : ℕ) (r : OutboxRecord) where
  settle-AllWhole :
      (result : SenderResult) (t : Tally)
      → AsksWhole result
      → AllWhole t
      → AllWhole (settle now r result t)
  unfolding settle
  settle-AllWhole result t asks h =
      if-cases AllWhole result.accepted (λ _. h)
        λ _.
          if-cases AllWhole (not result.retryable || leb max_attempts (r.attempts + 1)) (λ _. h)
            λ _.
              if-cases AllWhole
                (leb_ℤ (expires_at_ms r) (plus_ms now (safe_delay result (r.attempts + 1))).whole)
                (λ _. h)
                λ _. All-append HasWholeTime t.remaining _ h (
                  plus_ms-IsIntegral now (safe_delay result (r.attempts + 1))
                      (safe_delay-IsIntegral result (r.attempts + 1) asks),
                  tt,
                )

module _ {W : Type 0} (send : EncryptedEnvelope → W → SendOutcome × W)
    (asks : (e : EncryptedEnvelope) (w : W) → AnswersWhole (send e w).0) (now : ℕ) where
  drain_record-AllWhole :
      (r : OutboxRecord) (t : Tally) (w : W)
      → HasWholeTime r
      → AllWhole t
      → AllWhole (drain_record send now r (t, w)).0
  unfolding drain_record
  drain_record-AllWhole r t w exact h =
      if-cases (λ (s : Tally × W). AllWhole s.0) (is_expired now r) (λ _. h)
        λ _.
          if-cases (λ (s : Tally × W). AllWhole s.0) (is_waiting now r)
            (λ _. All-append HasWholeTime t.remaining (r ∷ []) h (exact, tt))
            λ _. settle-AllWhole now r (result_of ((send r.envelope w).0)) t (asks r.envelope w) h

  pub drain_loop-AllWhole :
      (rs : List OutboxRecord) (t : Tally) (w : W)
      → All HasWholeTime rs
      → All HasWholeTime t.remaining
      → All HasWholeTime (drain_loop send now rs (t, w)).0.remaining
  unfolding drain_loop
  drain_loop-AllWhole [] t w exact h = h
  drain_loop-AllWhole (r ∷ rs) t w (e, es) h =
      drain_loop-AllWhole rs (drain_record send now r (t, w)).0 (drain_record send now r (t, w)).1
        es (drain_record-AllWhole r t w e h)
