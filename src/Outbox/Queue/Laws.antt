-- ===== src/Outbox/Queue/Laws.antt =====
-- background/sync-outbox.ts: adding an envelope keeps the queue sound, and does so once.
use csboard_extension.Prelude.{
  All-map, ℕ, ◌<◌, ◌≡◌, refl, ◌⊎◌, inl, inr, Bool, true, false, Bool-cases, List, [], ◌∷◌, ◌++◌,
  arith, leb, length, length-append, any, All, All-append,
}
use csboard_extension.Prelude.Int.{pos, is_safe_integer}
use csboard_extension.Prelude.Text.{===_iff}
use csboard_extension.Shared.Result.{ok, err}
use csboard_extension.Gateway.Error.{invalid}
use csboard_extension.Gateway.Message.{EncryptedEnvelope}
use csboard_extension.Gateway.Envelope.{assert_gateway_encrypted_envelope}
use csboard_extension.Outbox.Records.{max_outbox_entries, OutboxRecord, Stored, write}
use csboard_extension.Outbox.Records.RoundTrip.{IsStorable, read_records-write}
use csboard_extension.Outbox.Records.Unique.{NoClash, IsQueue, IsUnique-append, All-of_none}
use csboard_extension.Outbox.Queue.{
  Receipt, is_duplicate, fresh_record, enqueue_into, enqueue_gateway_envelope,
}

NoClash-of_test :
    (e : EncryptedEnvelope) (now : ℕ) (r : OutboxRecord)
    → is_duplicate e r ≡ false
    → NoClash r (fresh_record e now)
NoClash-of_test e now r h = record {
  requests = λ p. ground (arith, ===_iff r.request_id e.protected.request_id);
  keys = λ p. ground (arith, ===_iff r.idempotency_key e.protected.idempotency_key);
}

fresh_record-IsStorable :
    (e : EncryptedEnvelope) (now : ℕ)
    → assert_gateway_encrypted_envelope e ≡ ok tt
    → is_safe_integer (pos now) ≡ true
    → IsStorable (fresh_record e now)
fresh_record-IsStorable e now sealed safe = record {
  intact = sealed;
  same_request = refl;
  same_key = refl;
  created = safe;
  tries = omega arith;
  due = safe;
  exact = refl;
}

-- The queue after an envelope was offered to it.
pub record Offered (e : EncryptedEnvelope) (now : ℕ) (rs rs' : List OutboxRecord)
    (receipt : Receipt) : Type 0 where
  pub queue : IsQueue rs'
  pub holds : any (is_duplicate e) rs' ≡ true
  pub size : receipt.size ≡ length rs'
  pub change :
      ((receipt.queued ≡ true) × (rs' ≡ rs ++ fresh_record e now ∷ []))
      ⊎ ((receipt.queued ≡ false) × (rs' ≡ rs))

any-append_last {ℓ} :
    {A : Type ℓ} (test : A → Bool) (xs : List A) (x : A)
    → test x ≡ true
    → any test (xs ++ x ∷ []) ≡ true
any-append_last test [] x h = ground arith
any-append_last test (y ∷ ys) x h = ground (arith, any-append_last test ys x h)

fresh_record-is_duplicate :
    (e : EncryptedEnvelope) (now : ℕ) → is_duplicate e (fresh_record e now) ≡ true
fresh_record-is_duplicate e now =
    ground (arith, ===_iff e.protected.request_id e.protected.request_id)

module _ (e : EncryptedEnvelope) (now : ℕ) (rs : List OutboxRecord) (queue : IsQueue rs)
    (sealed : assert_gateway_encrypted_envelope e ≡ ok tt)
    (safe : is_safe_integer (pos now) ≡ true) where
  extended-IsQueue :
      any (is_duplicate e) rs ≡ false
      → leb max_outbox_entries (length rs) ≡ false
      → IsQueue (rs ++ fresh_record e now ∷ [])
  extended-IsQueue new room = record {
    storable =
        All-append IsStorable rs _ queue.storable (fresh_record-IsStorable e now sealed safe, tt);
    fits = ground (arith, length-append rs (fresh_record e now ∷ []));
    unique =
        IsUnique-append rs (fresh_record e now) queue.unique
          (All-map (NoClash-of_test e now) rs (All-of_none (is_duplicate e) rs new));
  }

  enqueue_into-Offered :
      (stored : Stored)
      → stored ≡ write rs
      → (any (is_duplicate e) rs ≡ true) ⊎ (length rs < max_outbox_entries)
      → (receipt : Receipt) × (rs' : List OutboxRecord) × Offered e now rs rs' receipt
        × (enqueue_into e now stored rs ≡ ok (receipt, write rs'))
  unfolding enqueue_into
  enqueue_into-Offered stored same fit = elim (Bool-cases (any (is_duplicate e) rs)) [
    | inl old ↦ (
      record { queued = false; size = length rs },
      rs,
      record { queue = queue; holds = old; size = refl; change = inr (refl, refl) },
      rw (old, same),
    )
    | inr new ↦
        let room : leb max_outbox_entries (length rs) ≡ false = ground arith in
        let rs' = rs ++ fresh_record e now ∷ [] in
        (
          record { queued = true; size = length rs' },
          rs',
          record {
            queue = extended-IsQueue new room;
            holds =
                any-append_last (is_duplicate e) rs (fresh_record e now)
                  (fresh_record-is_duplicate e now);
            size = refl;
            change = inl (refl, refl);
          },
          rw (new, room),
        )
  ]

  pub enqueue_gateway_envelope-Offered :
      (any (is_duplicate e) rs ≡ true) ⊎ (length rs < max_outbox_entries)
      → (receipt : Receipt) × (rs' : List OutboxRecord) × Offered e now rs rs' receipt
        × (enqueue_gateway_envelope e now (write rs) ≡ ok (receipt, write rs'))
  unfolding enqueue_gateway_envelope
  enqueue_gateway_envelope-Offered fit =
      rw (sealed, read_records-write rs queue.storable queue.fits)
        (enqueue_into-Offered (write rs) refl fit)

-- An envelope that passes the check, offered to a stored queue of 100 records none of which is of
-- the same request or key, is refused with the error of a full outbox.
pub enqueue_gateway_envelope-full :
    (e : EncryptedEnvelope) (now : ℕ) (rs : List OutboxRecord)
    → assert_gateway_encrypted_envelope e ≡ ok tt
    → All IsStorable rs
    → any (is_duplicate e) rs ≡ false
    → length rs ≡ max_outbox_entries
    → enqueue_gateway_envelope e now (write rs) ≡ err (invalid "outbox-full")
unfolding enqueue_gateway_envelope enqueue_into
enqueue_gateway_envelope-full e now rs sealed storable new full =
    rw (sealed, read_records-write rs storable (omega (arith, full)), new, full)
