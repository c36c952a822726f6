-- ===== src/Market/Batch/Counts.antt =====
-- shared/market-actions.ts: the counters of a batch count its events.
use csboard_extension.Prelude.{
  ℕ, ◌+◌, ◌≡◌, refl, Bool, true, false, Bool-cases, inl, inr, List, [], ◌∷◌, arith, any, keep,
  length, if◌then◌else◌,
}
use csboard_extension.Market.Batch.{
  ConfirmationStatus, listed_live, pending_mobile_confirmation, pending_email_confirmation,
  pending_confirmation, BatchState, BatchEvent, start, listed, failed, stop, finish,
  initial_batch_state, is_live, is_mobile, is_email, is_other, reduce_batch_sell_state, reduce_all,
}

abbrev pub is_start : BatchEvent → Bool
is_start (start total) = true
is_start _ = false

-- The events after the last start, and the start itself.
abbrev pub since_start : List BatchEvent → List BatchEvent
since_start [] = []
since_start (event ∷ events) = if any is_start events then since_start events else event ∷ events

-- Whether an event settles an item with a status that a test accepts.
abbrev pub is_listed : (ConfirmationStatus → Bool) → BatchEvent → Bool
is_listed test (listed status) = test status
is_listed test _ = false

abbrev pub is_failed : BatchEvent → Bool
is_failed failed = true
is_failed _ = false

abbrev pub is_settled : BatchEvent → Bool
is_settled (listed status) = true
is_settled failed = true
is_settled _ = false

abbrev pub count : (BatchEvent → Bool) → List BatchEvent → ℕ
count test events = length (keep test (since_start events))

since_start_all :
    (events : List BatchEvent) → any is_start events ≡ false → since_start events ≡ events
since_start_all [] h = refl
since_start_all (e ∷ es) h = ground arith

-- A counter that each start resets and that each event of a kind raises.
abbrev IsCounter : (BatchState → ℕ) → (BatchEvent → Bool) → Type 0
IsCounter get test =
    (s : BatchState) (e : BatchEvent)
    → get (reduce_batch_sell_state s e)
      ≡ (if is_start e then 0 else get s) + (if test e then 1 else 0)

module _ (get : BatchState → ℕ) (test : BatchEvent → Bool) (c : IsCounter get test) where
  counted :
      (events : List BatchEvent) (s : BatchState)
      → get (reduce_all s events) ≡ (if any is_start events then 0 else get s) + count test events
  unfolding reduce_all
  counted [] s = omega arith
  counted (e ∷ es) s = elim (Bool-cases (any is_start es)) [
    | inl again ↦ ground (arith, counted es (reduce_batch_sell_state s e))
    | inr last ↦
        ground (arith, counted es (reduce_batch_sell_state s e), c s e, since_start_all es last)
  ]

  counted_initial :
      (events : List BatchEvent)
      → get initial_batch_state ≡ 0
      → get (reduce_all initial_batch_state events) ≡ count test events
  counted_initial events h = ground (arith, counted events initial_batch_state)

processed-IsCounter : IsCounter (λ s. s.processed) (is_settled)
unfolding reduce_batch_sell_state
processed-IsCounter s (start total) = refl
processed-IsCounter s (listed status) = omega arith
processed-IsCounter s failed = omega arith
processed-IsCounter s (stop reason) = omega arith
processed-IsCounter s finish = omega arith

live-IsCounter : IsCounter (λ s. s.listed_live_count) (is_listed is_live)
unfolding reduce_batch_sell_state
live-IsCounter s (start total) = refl
live-IsCounter s (listed status) = omega arith
live-IsCounter s failed = omega arith
live-IsCounter s (stop reason) = omega arith
live-IsCounter s finish = omega arith

mobile-IsCounter : IsCounter (λ s. s.pending_mobile) (is_listed is_mobile)
unfolding reduce_batch_sell_state
mobile-IsCounter s (start total) = refl
mobile-IsCounter s (listed status) = omega arith
mobile-IsCounter s failed = omega arith
mobile-IsCounter s (stop reason) = omega arith
mobile-IsCounter s finish = omega arith

email-IsCounter : IsCounter (λ s. s.pending_email) (is_listed is_email)
unfolding reduce_batch_sell_state
email-IsCounter s (start total) = refl
email-IsCounter s (listed status) = omega arith
email-IsCounter s failed = omega arith
email-IsCounter s (stop reason) = omega arith
email-IsCounter s finish = omega arith

other-IsCounter : IsCounter (λ s. s.pending_other) (is_listed is_other)
unfolding reduce_batch_sell_state
other-IsCounter s (start total) = refl
other-IsCounter s (listed status) = omega arith
other-IsCounter s failed = omega arith
other-IsCounter s (stop reason) = omega arith
other-IsCounter s finish = omega arith

failed-IsCounter : IsCounter (λ s. s.failed_count) (is_failed)
unfolding reduce_batch_sell_state
failed-IsCounter s (start total) = refl
failed-IsCounter s (listed status) = omega arith
failed-IsCounter s failed = omega arith
failed-IsCounter s (stop reason) = omega arith
failed-IsCounter s finish = omega arith

abbrev IsBalanced : BatchState → Type 0
IsBalanced s =
    s.processed
    ≡ s.listed_live_count + s.pending_mobile + s.pending_email + s.pending_other + s.failed_count

reduce-IsBalanced :
    (s : BatchState) (e : BatchEvent) → IsBalanced s → IsBalanced (reduce_batch_sell_state s e)
unfolding reduce_batch_sell_state
reduce-IsBalanced s (start total) h = refl
reduce-IsBalanced s (listed listed_live) h = omega (arith, h)
reduce-IsBalanced s (listed pending_mobile_confirmation) h = omega (arith, h)
reduce-IsBalanced s (listed pending_email_confirmation) h = omega (arith, h)
reduce-IsBalanced s (listed pending_confirmation) h = omega (arith, h)
reduce-IsBalanced s failed h = omega (arith, h)
reduce-IsBalanced s (stop reason) h = h
reduce-IsBalanced s finish h = h

reduce_all-IsBalanced :
    (events : List BatchEvent) (s : BatchState) → IsBalanced s → IsBalanced (reduce_all s events)
unfolding reduce_all
reduce_all-IsBalanced [] s h = h
reduce_all-IsBalanced (e ∷ es) s h =
    reduce_all-IsBalanced es (reduce_batch_sell_state s e) (reduce-IsBalanced s e h)

-- What the state says of the events that led to it.
pub record Tallies (events : List BatchEvent) (s : BatchState) : Type 0 where
  pub processed : s.processed ≡ count is_settled events
  pub live : s.listed_live_count ≡ count (is_listed is_live) events
  pub mobile : s.pending_mobile ≡ count (is_listed is_mobile) events
  pub email : s.pending_email ≡ count (is_listed is_email) events
  pub other : s.pending_other ≡ count (is_listed is_other) events
  pub failures : s.failed_count ≡ count is_failed events
  pub balance :
      s.processed
      ≡ s.listed_live_count + s.pending_mobile + s.pending_email + s.pending_other + s.failed_count

-- After any events of a batch, from the initial state on, each counter is the number of the events
-- of its kind since the last start, and the number of processed items is the sum of the others.
pub reduce_all-Tallies :
    (events : List BatchEvent) → Tallies events (reduce_all initial_batch_state events)
reduce_all-Tallies events = record {
  processed = counted_initial (λ s. s.processed) is_settled processed-IsCounter events refl;
  live = counted_initial (λ s. s.listed_live_count) (is_listed is_live) live-IsCounter events refl;
  mobile =
      counted_initial (λ s. s.pending_mobile) (is_listed is_mobile) mobile-IsCounter events refl;
  email = counted_initial (λ s. s.pending_email) (is_listed is_email) email-IsCounter events refl;
  other = counted_initial (λ s. s.pending_other) (is_listed is_other) other-IsCounter events refl;
  failures = counted_initial (λ s. s.failed_count) is_failed failed-IsCounter events refl;
  balance = reduce_all-IsBalanced events initial_batch_state refl;
}
