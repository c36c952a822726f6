-- ===== src/Listing/Confirm/History.antt =====
-- background/p2p-listing-client.ts: the runs of the controller. A step is a call, or what follows an
-- await; the answers are any, in any order.
pub mod Sound
pub mod Orderly
use csboard_extension.Prelude.{ℕ, Option, none, some, ◌≡◌, ◌≢◌, ◌⊎◌, List, [], ◌∷◌}
use csboard_extension.Prelude.Int.{ℤ, pos, ◌<ℤ◌}
use csboard_extension.Prelude.Text.{Text}
use csboard_extension.Gateway.Payload.{Js, Fields}
use csboard_extension.Listing.Records.{Checked, StoredReview}
use csboard_extension.Listing.Prepare.{prepare}
use csboard_extension.Listing.Confirm.{
  CommitResult, Stage, reading_base, sending, settled, Event, reviewed, started, committed,
  answered, closed, State, review_stored, cancel, confirm, base_read, commit_answered,
  confirmation_removed,
}

abbrev pub fresh : State
fresh = record { reviews = λ id. none; confirmations = λ id. none; log = [] }

module _ (parse_date : Text → Option ℤ) where
  pub data Step (s : State) : State → Type 0 where
    prepared :
        (raw : Fields) (eligible : Checked Js) (key : Text) (answer : Checked Js) (id : Text)
        (now : ℕ)
        → Step s (review_stored id (prepare parse_date raw eligible key answer id now) s)
    cancelled : (id : Text) → Step s (cancel id s).0
    confirm_called : (id : Text) (now : ℕ) → Step s (confirm id now s)
    base_arrived :
        (id : Text) (stored : StoredReview) (base : Checked Text)
        → s.confirmations id ≡ some (reading_base stored)
        → Step s (base_read id stored base s)
    answer_arrived :
        (id : Text) (stored : StoredReview) (answer : Checked Js)
        → s.confirmations id ≡ some (sending stored)
        → Step s (commit_answered id stored answer s)
    removed :
        (id : Text) (outcome : Checked CommitResult)
        → s.confirmations id ≡ some (settled outcome)
        → Step s (confirmation_removed id s)

  pub data Reaches : State → Type 0 where
    here : Reaches fresh
    then : {s t : State} → Reaches s → Step s t → Reaches t

-- What a log, its latest event first, says of one review. It is open: it was stored under the id,
-- and the id has not been closed since.
abbrev pub IsOpen : Text → StoredReview → List Event → Type 0
IsOpen id stored [] = ⊥
IsOpen id stored (reviewed j r ∷ log) = ((j ≡ id) × (r ≡ stored)) ⊎ IsOpen id stored log
IsOpen id stored (closed j ∷ log) = (j ≢ id) × IsOpen id stored log
IsOpen id stored (started j r now ∷ log) = IsOpen id stored log
IsOpen id stored (committed j r ∷ log) = IsOpen id stored log
IsOpen id stored (answered j ∷ log) = IsOpen id stored log

-- Its confirmation has started, and has neither sent its request nor ended since.
abbrev pub HasStarted : Text → StoredReview → List Event → Type 0
HasStarted id stored [] = ⊥
HasStarted id stored (started j r now ∷ log) =
    ((j ≡ id) × (r ≡ stored)) ⊎ ((j ≢ id) × HasStarted id stored log)
HasStarted id stored (committed j r ∷ log) = (j ≢ id) × HasStarted id stored log
HasStarted id stored (answered j ∷ log) = (j ≢ id) × HasStarted id stored log
HasStarted id stored (closed j ∷ log) = (j ≢ id) × HasStarted id stored log
HasStarted id stored (reviewed j r ∷ log) = HasStarted id stored log

-- Every confirmation of the id that started has ended.
abbrev pub IsQuiet : Text → List Event → Type 0
IsQuiet id [] = Unit
IsQuiet id (answered j ∷ log) = (j ≡ id) ⊎ IsQuiet id log
IsQuiet id (started j r now ∷ log) = (j ≢ id) × IsQuiet id log
IsQuiet id (committed j r ∷ log) = (j ≢ id) × IsQuiet id log
IsQuiet id (reviewed j r ∷ log) = IsQuiet id log
IsQuiet id (closed j ∷ log) = IsQuiet id log

abbrev pub IsOrderly : List Event → Type 0
IsOrderly [] = Unit
IsOrderly (started id stored now ∷ log) =
    (pos now <ℤ stored.review.expires_at) × IsOpen id stored log × IsQuiet id log × IsOrderly log
IsOrderly (committed id stored ∷ log) = HasStarted id stored log × IsOrderly log
IsOrderly (reviewed id stored ∷ log) = IsOrderly log
IsOrderly (answered id ∷ log) = IsOrderly log
IsOrderly (closed id ∷ log) = IsOrderly log
