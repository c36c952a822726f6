-- ===== src/Listing/Records.antt =====
-- background/p2p-listing-client.ts: its types, its errors and the patterns of its texts. The currency
-- is always USD and the version of the terms always the current one, so that records leave them out.
use csboard_extension.Prelude.{ℕ, Bool, not, ◌&&◌, ◌||◌, Option, List, leb, ◌==◌}
use csboard_extension.Prelude.Int.{ℤ}
use csboard_extension.Prelude.Uuid.{matches, uuid_classes}
use csboard_extension.Prelude.Text.{Text, is_digit, is_upper, is_lower, is_run_of}
use csboard_extension.Shared.Result.{Result}

-- The messages of the errors that are thrown. `foreign` is a failure of the reader of the API's base.
pub data ListingError : Type 0 where
  invalid_price invalid_eligibility_response invalid_review_response invalid_request
        api_origin_not_allowed auth_required listing_unavailable review_stale rate_limited
        request_rejected backend_unavailable invalid_backend_response asset_revision_changed
        asset_ineligible randomness_unavailable review_binding_mismatch review_expired
        invalid_review_id review_in_progress review_not_found foreign :
      ListingError

abbrev pub Checked : Type 0 → Type 0
Checked T = Result T ListingError

pub data Action : Type 0 where
  create unpublish : Action

pub record Reason : Type 0 where
  pub code : Text
  pub message : Text

pub record EligibleAsset : Type 0 where
  pub operational_asset_id : Text
  pub asset_revision : Text
  pub market_hash_name : Text
  pub context_id : Text
  pub eligibility : Bool
  pub reasons : List Reason
  pub listing_id : Option Text
  pub listing_state : Option Text
  pub snapshot_completed_at : Option Text

pub record Intent : Type 0 where
  pub intent_id : Text
  pub action : Action
  pub idempotency_key : Text
  pub operational_asset_id : Text
  pub listing_id : Option Text
  pub asset_revision : Text
  pub market_hash_name : Text
  pub price_minor : ℕ
  pub expires_at : Text

pub data PrepareRequest : Type 0 where
  create_listing : (operational_asset_id asset_revision : Text) (price_minor : ℕ) → PrepareRequest
  unpublish_listing : (operational_asset_id asset_revision listing_id : Text) → PrepareRequest

pub record Review : Type 0 where
  pub review_id : Text
  pub action : Action
  pub operational_asset_id : Text
  pub asset_revision : Text
  pub market_hash_name : Text
  pub listing_id : Option Text
  pub price_minor : ℕ
  pub expires_at : ℤ

pub record StoredReview : Type 0 where
  pub review : Review
  pub intent : Intent

-- /^[A-Za-z0-9_-]{lo,hi}$/, and with a colon, and with a colon and a point.
abbrev is_plain : ℕ → Bool
is_plain c = is_upper c || is_lower c || is_digit c || c == b'_' || c == b'-'

abbrev pub is_listing_state : Text → Bool
is_listing_state s = is_run_of is_plain 1 32 s

abbrev pub is_review_id : Text → Bool
is_review_id s = is_run_of is_plain 16 128 s

abbrev pub is_reason_code : Text → Bool
is_reason_code s = is_run_of (λ c. is_plain c || c == b':') 1 96 s

abbrev pub is_listing_id : Text → Bool
is_listing_id s = is_run_of (λ c. is_plain c || c == b':') 1 128 s

abbrev pub is_revision : Text → Bool
is_revision s = is_run_of (λ c. is_plain c || c == b':') 16 128 s

abbrev pub is_asset_id : Text → Bool
is_asset_id s = is_run_of (λ c. is_plain c || c == b':' || c == b'.') 1 256 s

-- /^[^\u0000-\u001f\u007f]{1,hi}$/
abbrev pub is_printed : ℕ → Text → Bool
is_printed hi s = is_run_of (λ c. not (leb c 0x1f || c == 0x7f)) 1 hi s

-- /^.{10,64}$/
abbrev pub is_timestamp_text : Text → Bool
is_timestamp_text s =
    is_run_of (λ c. not (c == 10 || c == 13 || c == 0x2028 || c == 0x2029)) 10 64 s

abbrev pub is_intent_id : Text → Bool
is_intent_id s = matches (uuid_classes (λ c. leb b'1' c && leb c b'5')) s

abbrev pub is_idempotency_key : Text → Bool
is_idempotency_key s = matches (uuid_classes (λ c. c == b'4')) s
