-- ===== src/Outbox/Drain/Upkeep.antt =====
-- background/sync-outbox.ts: a pass keeps the queue sound, and uses up attempts.
use csboard_extension.Prelude.{
  ℕ, suc, ◌+◌, ◌-◌, ◌≤◌, ◌<◌, ◌≡◌, ap, ◌∙◌, sym, ◌⊎◌, inl, inr, true, false, List, [], ◌∷◌, arith,
  keep, keep-neg, length, All,
}
use csboard_extension.Prelude.Int.{pos, ◌≤ℤ◌, is_safe_integer}
use csboard_extension.Shared.Millis.{Millis, IsUpTo, IsIntegral}
use csboard_extension.Outbox.Records.{max_attempts, OutboxRecord}
use csboard_extension.Outbox.Records.RoundTrip.{IsStorable}
use csboard_extension.Outbox.Records.Unique.{NoClash, IsUnique, IsQueue}
use csboard_extension.Outbox.Drain.{base_retry_delay_ms, max_retry_delay_ms, is_expired, is_waiting}
use csboard_extension.Outbox.Drain.WholeTimes.{HasWholeTime}
use csboard_extension.Outbox.Drain.Accounting.{IsRetry, IsKept}
use csboard_extension.Outbox.Drain.Totals.{Follows, done, drops, keeps}
use csboard_extension.Outbox.Drain.Sends.{is_due}

-- The last millisecond that a JavaScript Date can tell.
abbrev pub max_date_ms : ℕ
max_date_ms = 8_640_000_000_000_000

-- A kept record is the old one, or a retry of it.
IsKept-cases {ℓ} :
    {now : ℕ} {r k : OutboxRecord} (P : OutboxRecord → Type ℓ)
    → IsKept now r k
    → (is_waiting now r ≡ true → P r)
    → (IsRetry now r k → P k)
    → P k
IsKept-cases {now} {r} {k} P h same retry = go (h.attempt)
  where
    go : ((k ≡ r) × (is_expired now r ≡ false) × (is_waiting now r ≡ true)) ⊎ IsRetry now r k → P k
    go (inl (e, _, waiting)) = rw e (same waiting)
    go (inr again) = retry again

module _ {now : ℕ} (date : now ≤ max_date_ms) where
  retry_time_is_safe :
      (at : Millis)
      → pos (now + base_retry_delay_ms) ≤ℤ at.whole
      → IsUpTo (pos (now + max_retry_delay_ms)) at
      → is_safe_integer at.whole ≡ true
  unfolding is_safe_integer
  retry_time_is_safe at lo hi = ground arith

  IsKept-IsStorable :
      {r k : OutboxRecord}
      → IsKept now r k
      → IsStorable r
      → IsIntegral k.next_attempt_at
      → IsStorable k
  IsKept-IsStorable {r} {k} h s exact = record {
    intact = rw (h.same_envelope) (s.intact);
    same_request =
        h.same_request ∙ s.same_request ∙ sym (ap (λ e. e.protected.request_id) h.same_envelope);
    same_key =
        h.same_key ∙ s.same_key ∙ sym (ap (λ e. e.protected.idempotency_key) h.same_envelope);
    created = rw (h.same_time) (s.created);
    tries =
        IsKept-cases (λ x. x.attempts ≤ max_attempts) h (λ _. s.tries)
          (λ again. omega (arith, again.bounded));
    exact = exact;
    due =
        IsKept-cases (λ x. is_safe_integer x.next_attempt_at.whole ≡ true) h (λ _. s.due)
          (λ again. retry_time_is_safe k.next_attempt_at (again.spaced) (again.timely));
  }

  Follows-IsStorable :
      {rs ks : List OutboxRecord}
      → Follows now rs ks
      → All IsStorable rs
      → All HasWholeTime ks
      → All IsStorable ks
  Follows-IsStorable done h e = tt
  Follows-IsStorable (drops f) h e = Follows-IsStorable f h.1 e
  Follows-IsStorable (keeps k f) h e = (IsKept-IsStorable k h.0 e.0, Follows-IsStorable f h.1 e.1)

module _ {now : ℕ} where
  Follows-length : {rs ks : List OutboxRecord} → Follows now rs ks → length ks ≤ length rs
  Follows-length done = omega arith
  Follows-length (drops f) = omega (arith, Follows-length f)
  Follows-length (keeps k f) = omega (arith, Follows-length f)

  NoClash-IsKept :
      {r k r' k' : OutboxRecord} → IsKept now r k → IsKept now r' k' → NoClash r r' → NoClash k k'
  NoClash-IsKept h h' n = record {
    requests = λ e. n.requests (sym (h.same_request) ∙ e ∙ h'.same_request);
    keys = λ e. n.keys (sym (h.same_key) ∙ e ∙ h'.same_key);
  }

  Follows-apart :
      {r k : OutboxRecord} {rs ks : List OutboxRecord}
      → IsKept now r k
      → Follows now rs ks
      → All (NoClash r) rs
      → All (NoClash k) ks
  Follows-apart h done n = tt
  Follows-apart h (drops f) n = Follows-apart h f n.1
  Follows-apart h (keeps h' f) n = (NoClash-IsKept h h' n.0, Follows-apart h f n.1)

  Follows-IsUnique : {rs ks : List OutboxRecord} → Follows now rs ks → IsUnique rs → IsUnique ks
  Follows-IsUnique done u = tt
  Follows-IsUnique (drops f) u = Follows-IsUnique f u.1
  Follows-IsUnique (keeps h f) u = (Follows-apart h f u.0, Follows-IsUnique f u.1)

-- What a pass writes back is, when its times are whole, again a queue that can be read, of at most 100 records and without two
-- of one request.
pub Follows-IsQueue :
    {now : ℕ} {rs ks : List OutboxRecord}
    → now ≤ max_date_ms
    → Follows now rs ks
    → IsQueue rs
    → All HasWholeTime ks
    → IsQueue ks
Follows-IsQueue date f q exact = record {
  storable = Follows-IsStorable date f (q.storable) exact;
  fits = omega (arith, Follows-length f, q.fits);
  unique = Follows-IsUnique f (q.unique);
}

-- The attempts that the records of a queue have left.
abbrev pub attempts_left : List OutboxRecord → ℕ
attempts_left [] = 0
attempts_left (r ∷ rs) = (max_attempts - r.attempts) + attempts_left rs

abbrev pub HasAttempts : OutboxRecord → Type 0
HasAttempts r = r.attempts < max_attempts

waiting-is_due : (now : ℕ) (r : OutboxRecord) → is_waiting now r ≡ true → is_due now r ≡ false
unfolding is_due
waiting-is_due now r h = ground arith

due_count_cons :
    (now : ℕ) (r : OutboxRecord) (rs : List OutboxRecord)
    → length (keep (is_due now) (r ∷ rs)) ≤ suc (length (keep (is_due now) rs))
due_count_cons now r rs = ground arith

module _ {now : ℕ} where
  -- The sends of a pass are paid for by the attempts that the records had left.
  pub Follows-attempts_left :
      {rs ks : List OutboxRecord}
      → Follows now rs ks
      → All HasAttempts rs
      → (attempts_left ks + length (keep (is_due now) rs) ≤ attempts_left rs) × All HasAttempts ks
  Follows-attempts_left done h = (omega arith, tt)
  Follows-attempts_left (drops {r} {rs} f) h =
      let (rest, fresh) = Follows-attempts_left f h.1 in
      (omega (arith, rest, h.0, due_count_cons now r rs), fresh)
  Follows-attempts_left (keeps {r} {k} {rs} {ks} kept f) h =
      let (rest, fresh) = Follows-attempts_left f h.1 in
      IsKept-cases
        (λ x.
          (attempts_left (x ∷ ks) + length (keep (is_due now) (r ∷ rs)) ≤ attempts_left (r ∷ rs))
          × All HasAttempts (x ∷ ks))
        kept
        (λ waiting. (
          rw (keep-neg (is_due now) r rs (waiting-is_due now r waiting)) (omega (arith, rest)),
          (h.0, fresh),
        ))
        (λ again. (
          omega (arith, rest, h.0, again.counted, due_count_cons now r rs),
          (again.bounded, fresh),
        ))
