-- ===== src/Listing/Confirm/History/Sound.antt =====
-- background/p2p-listing-client.ts: what ties the two maps to the log, and how each change keeps it.
use mathlib.Core.Path.{subst}
use csboard_extension.Prelude.{
  ℕ, ◌≡◌, ◌≢◌, ◌⊎◌, inl, inr, refl, arith, Bool, true, false, Option, none, some, Bool-cases,
}
use csboard_extension.Prelude.Int.{pos, ◌<ℤ◌}
use csboard_extension.Prelude.Text.{Text, ◌===◌, ===_iff}
use csboard_extension.Shared.Result.{ok, err}
use csboard_extension.Listing.Records.{Checked, StoredReview}
use csboard_extension.Listing.Confirm.{
  CommitResult, Stage, reading_base, sending, settled, started, committed, answered, State, put,
  note, delete_review, set_stage, review_stored, closed_if,
}
use csboard_extension.Listing.Confirm.History.{IsOpen, HasStarted, IsQuiet, IsOrderly}

-- Nothing of a confirmation is under way but its removal.
abbrev pub at_rest : Option Stage → Bool
at_rest none = true
at_rest (some (settled outcome)) = true
at_rest (some (reading_base stored)) = false
at_rest (some (sending stored)) = false

pub record IsSound (s : State) : Type 0 where
  pub opens : (k : Text) (stored : StoredReview) → s.reviews k ≡ some stored → IsOpen k stored s.log
  pub starts :
      (k : Text) (stored : StoredReview)
      → s.confirmations k ≡ some (reading_base stored)
      → HasStarted k stored s.log
  pub quiets :
      (k : Text) (stage : Option Stage)
      → s.confirmations k ≡ stage
      → at_rest stage ≡ true
      → IsQuiet k s.log
  pub orderly : IsOrderly s.log

put-cases :
    {A : Type 0} (key k : Text) (value found : Option A) (m : Text → Option A)
    → put key value m k ≡ found
    → ((key ≡ k) × (value ≡ found)) ⊎ ((key ≢ k) × (m k ≡ found))
put-cases key k value found m h = elim (Bool-cases (key === k)) [
  | inl same ↦ inl ((===_iff key k).0 same, ground arith)
  | inr other ↦ inr ((λ e. ground (arith, (===_iff key k).1 e)), ground arith)
]

pub review_stored-IsSound :
    (id : Text) (made : Checked StoredReview) (s : State)
    → IsSound s
    → IsSound (review_stored id made s)
unfolding review_stored
review_stored-IsSound id (err error) s i = i
review_stored-IsSound id (ok new) s i = record {
  opens = λ k stored h. elim (put-cases id k (some new) (some stored) s.reviews h) [
    | inl (same, e) ↦ inl (same, cc)
    | inr (_, old) ↦ inr (i.opens k stored old)
  ];
  starts = i.starts;
  quiets = i.quiets;
  orderly = i.orderly;
}

-- A review may be deleted while its confirmation does not wait for the base.
deleted-IsOpen :
    (id k : Text) (stored : StoredReview) (s : State)
    → IsSound s
    → put id none s.reviews k ≡ some stored
    → (id ≢ k) × IsOpen k stored s.log
deleted-IsOpen id k stored s i h = elim (put-cases id k none (some stored) s.reviews h) [
  | inl (_, e) ↦ cc
  | inr (other, old) ↦ (other, i.opens k stored old)
]

pub delete_review-IsSound :
    (id : Text) (s : State)
    → IsSound s
    → at_rest (s.confirmations id) ≡ true
    → IsSound (delete_review id s)
delete_review-IsSound id s i rest = record {
  opens = λ k stored h. deleted-IsOpen id k stored s i h;
  starts = λ k stored h. (
    (λ e. false_at_rest (subst (λ j. at_rest (s.confirmations j) ≡ true) e rest) k stored h),
    i.starts k stored h,
  );
  quiets = i.quiets;
  orderly = i.orderly;
}
  where
    false_at_rest :
        {o : Option Stage}
        → at_rest o ≡ true
        → (k : Text) (stored : StoredReview) → o ≡ some (reading_base stored)
        → ⊥
    false_at_rest r k stored h = ground arith

pub settled-IsSound :
    (id : Text) (stage : Option Stage) (s : State)
    → IsSound s
    → at_rest stage ≡ true
    → at_rest (s.confirmations id) ≡ true
    → IsSound (set_stage id stage s)
settled-IsSound id stage s i new old = record {
  opens = i.opens;
  starts = λ k stored h.
      elim (put-cases id k stage (some (reading_base stored)) s.confirmations h) [
        | inl (_, e) ↦ ground arith
        | inr (_, e) ↦ i.starts k stored e
      ];
  quiets = λ k now h r. elim (put-cases id k stage now s.confirmations h) [
    | inl (same, e) ↦ subst (λ j. IsQuiet j s.log) same (i.quiets id (s.confirmations id) refl old)
    | inr (_, e) ↦ i.quiets k now e r
  ];
  orderly = i.orderly;
}

pub begun-IsSound :
    (id : Text) (stored : StoredReview) (now : ℕ) (s : State)
    → IsSound s
    → s.confirmations id ≡ none
    → s.reviews id ≡ some stored
    → pos now <ℤ stored.review.expires_at
    → IsSound (set_stage id (some (reading_base stored)) (note (started id stored now) s))
begun-IsSound id stored now s i free kept early = record {
  opens = i.opens;
  starts = λ k r h.
      elim (put-cases id k (some (reading_base stored)) (some (reading_base r)) s.confirmations h) [
        | inl (same, e) ↦ inl (same, cc)
        | inr (other, e) ↦ inr (other, i.starts k r e)
      ];
  quiets = λ k stage h r.
      elim (put-cases id k (some (reading_base stored)) stage s.confirmations h) [
        | inl (_, e) ↦ absurd (ground arith)
        | inr (other, e) ↦ (other, i.quiets k stage e r)
      ];
  orderly = (early, i.opens id stored kept, i.quiets id none free refl, i.orderly);
}

pub sent-IsSound :
    (id : Text) (stored : StoredReview) (s : State)
    → IsSound s
    → s.confirmations id ≡ some (reading_base stored)
    → IsSound (set_stage id (some (sending stored)) (note (committed id stored) s))
sent-IsSound id stored s i at = record {
  opens = i.opens;
  starts = λ k r h.
      elim (put-cases id k (some (sending stored)) (some (reading_base r)) s.confirmations h) [
        | inl (_, e) ↦ cc
        | inr (other, e) ↦ (other, i.starts k r e)
      ];
  quiets = λ k stage h r. elim (put-cases id k (some (sending stored)) stage s.confirmations h) [
    | inl (_, e) ↦ absurd (ground arith)
    | inr (other, e) ↦ (other, i.quiets k stage e r)
  ];
  orderly = (i.starts id stored at, i.orderly);
}

-- The end of a confirmation, which may close its review.
module _ (id : Text) (outcome : Checked CommitResult) (s : State) (i : IsSound s) where
  abbrev ended_quiet :
      (k : Text) (stage : Option Stage)
      → put id (some (settled outcome)) s.confirmations k ≡ stage
      → at_rest stage ≡ true
      → (id ≡ k) ⊎ IsQuiet k s.log
  ended_quiet k stage h r = elim (put-cases id k (some (settled outcome)) stage s.confirmations h) [
    | inl (same, _) ↦ inl same
    | inr (_, e) ↦ inr (i.quiets k stage e r)
  ]

  ended_starts :
      (k : Text) (r : StoredReview)
      → put id (some (settled outcome)) s.confirmations k ≡ some (reading_base r)
      → (id ≢ k) × HasStarted k r s.log
  ended_starts k r h =
      elim (put-cases id k (some (settled outcome)) (some (reading_base r)) s.confirmations h) [
        | inl (_, e) ↦ cc
        | inr (other, e) ↦ (other, i.starts k r e)
      ]

  pub ended-IsSound :
      (closes : Bool)
      → IsSound (set_stage id (some (settled outcome)) (closed_if closes id (note (answered id) s)))
  ended-IsSound true = record {
    opens = λ k stored h. deleted-IsOpen id k stored s i h;
    starts = λ k r h. let (other, begun) = ended_starts k r h in (other, (other, begun));
    quiets = ended_quiet;
    orderly = i.orderly;
  }
  ended-IsSound false = record {
    opens = i.opens;
    starts = ended_starts;
    quiets = ended_quiet;
    orderly = i.orderly;
  }
