-- ===== src/Outbox/Drain/Totals.antt =====
-- background/sync-outbox.ts: the whole pass (`drainGatewayOutbox`) accounts for every record.
use mathlib.Core.List.{append-nil, append_assoc}
use csboard_extension.Prelude.{
  ℕ, ◌+◌, ◌≡◌, refl, sym, ap, ◌∙◌, inl, inr, List, [], ◌∷◌, ◌++◌, arith, length,
}
use csboard_extension.Shared.Result.{ok}
use csboard_extension.Gateway.Message.{EncryptedEnvelope}
use csboard_extension.Outbox.Records.{OutboxRecord, Stored, read_records, write}
use csboard_extension.Outbox.Drain.{
  SendOutcome, Tally, empty_tally, DrainResult, summary, drain_record, drain_loop,
  drain_gateway_outbox,
}
use csboard_extension.Outbox.Drain.Accounting.{IsKept, Round, drain_record-Round}

-- The records that stay, in the order in which they were read.
pub data Follows (now : ℕ) : List OutboxRecord → List OutboxRecord → Type 0 where
  done : Follows now [] []
  drops :
      {r : OutboxRecord} {rs ks : List OutboxRecord} → Follows now rs ks → Follows now (r ∷ rs) ks
  keeps :
      {r k : OutboxRecord} {rs ks : List OutboxRecord}
      → IsKept now r k
      → Follows now rs ks
      → Follows now (r ∷ rs) (k ∷ ks)

pub record Totals (now : ℕ) (rs : List OutboxRecord) (t t' : Tally) : Type 0 where
  pub kept : List OutboxRecord
  pub follows : Follows now rs kept
  pub remaining : t'.remaining ≡ t.remaining ++ kept
  pub deferred : t'.deferred ≡ t.deferred + length kept
  pub settled : t'.delivered + t'.failed + length kept ≡ t.delivered + t.failed + length rs
  pub codes :
      length t'.terminal_failure_codes + t.failed ≡ length t.terminal_failure_codes + t'.failed

Totals-cons :
    {now : ℕ} (r : OutboxRecord) (rs : List OutboxRecord) {t u v : Tally}
    → Round now r t u
    → Totals now rs u v
    → Totals now (r ∷ rs) t v
Totals-cons r rs (inl d) rest = record {
  kept = rest.kept;
  follows = drops rest.follows;
  remaining = rest.remaining ∙ ap (λ l. l ++ rest.kept) d.remaining;
  deferred = omega (arith, rest.deferred, d.deferred);
  settled = omega (arith, rest.settled, d.settled);
  codes = omega (arith, rest.codes, d.codes);
}
Totals-cons r rs {t} (inr k) rest = record {
  kept = k.kept ∷ rest.kept;
  follows = keeps k.is_kept rest.follows;
  remaining =
      rest.remaining
      ∙ ap (λ l. l ++ rest.kept) k.remaining
      ∙ append_assoc t.remaining (k.kept ∷ []) rest.kept;
  deferred = omega (arith, rest.deferred, k.deferred);
  settled = omega (arith, rest.settled, k.settled);
  codes = omega (arith, rest.codes, k.codes);
}

-- What a pass over a readable queue gives.
pub record Pass (now : ℕ) (records : List OutboxRecord) (result : DrainResult) : Type 0 where
  pub kept : List OutboxRecord
  pub follows : Follows now records kept
  pub accounted : result.delivered + result.deferred + result.failed ≡ length records
  pub deferred : result.deferred ≡ length kept
  pub remaining : result.remaining ≡ length kept
  pub codes : length result.terminal_failure_codes ≡ result.failed

module _ {W : Type 0} (send : EncryptedEnvelope → W → SendOutcome × W) (now : ℕ) where
  pub drain_loop-Totals :
      (rs : List OutboxRecord) (t : Tally) (w : W)
      → Totals now rs t (drain_loop send now rs (t, w)).0
  unfolding drain_loop
  drain_loop-Totals [] t w = record {
    kept = [];
    follows = done;
    remaining = sym (append-nil t.remaining);
    deferred = omega arith;
    settled = omega arith;
    codes = refl;
  }
  drain_loop-Totals (r ∷ rs) t w =
      Totals-cons r rs (drain_record-Round send now r t w)
        (drain_loop-Totals rs (drain_record send now r (t, w)).0 (drain_record send now r (t, w)).1)

  -- The pass, with the records that its loop leaves.
  pub drain_gateway_outbox-kept :
      (stored : Stored) (records : List OutboxRecord) (w : W)
      → read_records stored ≡ ok records
      → (result : DrainResult) × (w' : W) × (pass : Pass now records result) × (drain_gateway_outbox
            send now stored w
          ≡ ok (result, write pass.kept, w'))
        × ((drain_loop send now records (empty_tally, w)).0.remaining ≡ pass.kept)
  unfolding drain_gateway_outbox
  drain_gateway_outbox-kept stored records w e = (
    summary t,
    s.1,
    pass,
    rw e (ap (λ l. ok (summary t, write l, s.1)) totals.remaining),
    totals.remaining,
  )
    where
      s : Tally × W
      s = drain_loop send now records (empty_tally, w)

      t : Tally
      t = s.0

      totals : Totals now records empty_tally t
      totals = drain_loop-Totals records empty_tally w

      pass : Pass now records (summary t)
      pass = record {
        kept = totals.kept;
        follows = totals.follows;
        accounted = omega (arith, totals.settled, totals.deferred);
        deferred = omega (arith, totals.deferred);
        remaining = ap length totals.remaining;
        codes = omega (arith, totals.codes);
      }

  -- A pass over a queue that can be read succeeds; each record is delivered, deferred or failed;
  -- what is written back are the deferred records, in their old order, each either untouched and
  -- not yet due or sent in vain for fewer than eight times and put off by five seconds to thirty
  -- minutes within its lifetime; each failure has its code.
  pub drain_gateway_outbox-Pass :
      (stored : Stored) (records : List OutboxRecord) (w : W)
      → read_records stored ≡ ok records
      → (result : DrainResult) × (w' : W) × (pass : Pass now records result) × (drain_gateway_outbox
            send now stored w
          ≡ ok (result, write pass.kept, w'))
  drain_gateway_outbox-Pass stored records w e =
      let (result, w', pass, passed, _) = drain_gateway_outbox-kept stored records w e in
      (result, w', pass, passed)
