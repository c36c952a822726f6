-- ===== src/Outbox/Records/Unique.antt =====
-- background/sync-outbox.ts: no two records of the queue are for the same request.
use csboard_extension.Prelude.{
  ◌≤◌, ◌≡◌, ◌≢◌, Bool, false, List, [], ◌∷◌, ◌++◌, arith, length, any, All,
}
use csboard_extension.Outbox.Records.{max_outbox_entries, OutboxRecord}
use csboard_extension.Outbox.Records.RoundTrip.{IsStorable}

pub record NoClash (r k : OutboxRecord) : Type 0 where
  pub requests : r.request_id ≢ k.request_id
  pub keys : r.idempotency_key ≢ k.idempotency_key

abbrev pub IsUnique : List OutboxRecord → Type 0
IsUnique [] = Unit
IsUnique (r ∷ rs) = All (NoClash r) rs × IsUnique rs

-- What the queue keeps invariant: its records can be read back, there are at most 100 of them, and
-- no two of them share a request or an idempotency key.
pub record IsQueue (rs : List OutboxRecord) : Type 0 where
  pub storable : All IsStorable rs
  pub fits : length rs ≤ max_outbox_entries
  pub unique : IsUnique rs

pub IsUnique-append :
    (rs : List OutboxRecord) (k : OutboxRecord)
    → IsUnique rs
    → All (λ r. NoClash r k) rs
    → IsUnique (rs ++ k ∷ [])
IsUnique-append [] k u n = (tt, tt)
IsUnique-append (r ∷ rs) k (apart, u) (n, ns) = (extended rs apart, IsUnique-append rs k u ns)
  where
    extended : (l : List OutboxRecord) → All (NoClash r) l → All (NoClash r) (l ++ k ∷ [])
    extended [] h = (n, tt)
    extended (x ∷ l) (hx, h) = (hx, extended l h)

pub All-of_none {ℓ} :
    {A : Type ℓ} (test : A → Bool) (xs : List A)
    → any test xs ≡ false
    → All (λ x. test x ≡ false) xs
All-of_none test [] h = tt
All-of_none test (x ∷ xs) h = (ground arith, All-of_none test xs (ground arith))
