-- ===== src/Listing/Confirm.antt =====
-- background/p2p-listing-client.ts: the two maps of P2PListingController, `cancel` and `confirm`. A
-- confirmation is cut at its awaits; `performConfirm` runs up to the first one before its promise is
-- put into the map. The log is of the model: it says what was stored, started, sent and ended.
pub mod History
use csboard_extension.Prelude.{
  ℕ, Bool, true, false, not, ◌&&◌, ◌||◌, Option, none, some, List, [], ◌∷◌, if◌then◌else◌,
}
use csboard_extension.Prelude.Int.{pos, leb_ℤ}
use csboard_extension.Prelude.Text.{Text, codes, ◌===◌}
use csboard_extension.Shared.Result.{Result, ok, err, ◌>>=◌, ◌>>◌, throw_if}
use csboard_extension.Gateway.Payload.{Js, undefined, null}
use csboard_extension.Client.Body.{lookup, coalesce}
use csboard_extension.Listing.Records.{
  ListingError, invalid_review_id, review_in_progress, review_not_found, review_expired,
  invalid_backend_response, Checked, Action, StoredReview, Intent, is_review_id, is_listing_id,
}
use csboard_extension.Listing.Parse.{required_string, record_of}
use csboard_extension.Listing.Request.{is_terminal_commit_error}

pub record CommitResult : Type 0 where
  pub action : Action
  pub listing_id : Text

-- Where a confirmation waits: for the API's base, for the answer, or for its own removal.
pub data Stage : Type 0 where
  reading_base : StoredReview → Stage
  sending : StoredReview → Stage
  settled : Checked CommitResult → Stage

pub data Event : Type 0 where
  reviewed : Text → StoredReview → Event
  started : Text → StoredReview → (now : ℕ) → Event
  committed : Text → StoredReview → Event
  answered : Text → Event
  closed : Text → Event

pub record State : Type 0 where
  pub reviews : Text → Option StoredReview
  pub confirmations : Text → Option Stage
  pub log : List Event

-- `Map.prototype.set` and `delete`.
abbrev pub put {ℓ} : {A : Type ℓ} → Text → Option A → (Text → Option A) → Text → Option A
put key value m k = if key === k then value else m k

abbrev pub note : Event → State → State
note event s = record s { log = event ∷ s.log }

abbrev pub delete_review : Text → State → State
delete_review id s = record s { reviews = put id none s.reviews; log = closed id ∷ s.log }

abbrev pub set_stage : Text → Option Stage → State → State
set_stage id stage s = record s { confirmations = put id stage s.confirmations }

-- The end of `prepare`.
unfoldable pub review_stored : Text → Checked StoredReview → State → State
review_stored id (err error) s = s
review_stored id (ok stored) s = record s {
  reviews = put id (some stored) s.reviews;
  log = reviewed id stored ∷ s.log;
}

abbrev pub has_stage : Option Stage → Bool
has_stage none = false
has_stage (some stage) = true

unfoldable pub cancel : Text → State → State × Checked (Unit {0})
cancel id s =
    if not (is_review_id id)
    then (s, err invalid_review_id)
    else if has_stage (s.confirmations id)
    then (s, err review_in_progress)
    else (delete_review id s, ok tt)

-- The start of `performConfirm`.
unfoldable pub start_confirm : Text → ℕ → Option StoredReview → State → State
start_confirm id now none s = set_stage id (some (settled (err review_not_found))) s
start_confirm id now (some stored) s =
    if leb_ℤ stored.review.expires_at (pos now)
    then set_stage id (some (settled (err review_expired))) (delete_review id s)
    else set_stage id (some (reading_base stored)) (note (started id stored now) s)

abbrev pub join_or_start : Text → ℕ → Option Stage → State → State
join_or_start id now (some stage) s = s
join_or_start id now none s = start_confirm id now (s.reviews id) s

-- A call of `confirm`; where one is under way it is joined, and nothing changes.
unfoldable pub confirm : Text → ℕ → State → State
unfolding start_confirm
confirm id now s = if not (is_review_id id) then s else join_or_start id now (s.confirmations id) s

abbrev pub closed_if : Bool → Text → State → State
closed_if true id s = delete_review id s
closed_if false id s = s

-- The end of the `try`: a success closes the review, and so does a terminal error.
unfoldable pub commit_settled : Text → Checked CommitResult → State → State
commit_settled id (ok result) s =
    set_stage id (some (settled (ok result))) (delete_review id (note (answered id) s))
commit_settled id (err error) s =
    set_stage id (some (settled (err error)))
      (closed_if (is_terminal_commit_error error) id (note (answered id) s))

-- The API's base has been read and checked: the request leaves, or the confirmation fails.
unfoldable pub base_read : Text → StoredReview → Checked Text → State → State
unfolding commit_settled
base_read id stored (ok base) s =
    set_stage id (some (sending stored)) (note (committed id stored) s)
base_read id stored (err error) s = commit_settled id (err error) s

-- A listing's id that may be missing or of another intent.
abbrev pub is_other_listing : Option Text → Text → Bool
is_other_listing none id = false
is_other_listing (some own) id = not (id === own)

abbrev pub committed_listing : Js → Checked Text
committed_listing value = required_string value is_listing_id invalid_backend_response

-- A missing id throws the same error as one that does not match.
unfoldable pub commit_result : Intent → Js → Checked CommitResult
unfolding required_string
commit_result intent value = do
  fields ← record_of value invalid_backend_response
  id ← committed_listing (coalesce (lookup (codes "listingId") fields) (lookup (codes "id") fields))
  throw_if (is_other_listing intent.listing_id id) invalid_backend_response
  ok (record { action = intent.action; listing_id = id })

unfoldable pub commit_answered : Text → StoredReview → Checked Js → State → State
unfolding commit_result commit_settled
commit_answered id stored answer s = commit_settled id (answer >>= commit_result stored.intent) s

-- `finally`
unfoldable pub confirmation_removed : Text → State → State
confirmation_removed id s = set_stage id none s
