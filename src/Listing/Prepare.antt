-- ===== src/Listing/Prepare.antt =====
-- background/p2p-listing-client.ts: `prepare`, cut at its requests. The UUIDs are random, and
-- arguments.
pub mod Bound
use csboard_extension.Prelude.{
  ℕ, ◌+◌, ◌*◌, Bool, true, false, not, ◌&&◌, ◌||◌, Option, none, some, List, [], ◌∷◌, if◌then◌else◌,
  ◌==◌,
}
use csboard_extension.Prelude.Int.{ℤ, pos, leb_ℤ}
use csboard_extension.Prelude.Text.{Text, codes, ◌===◌}
use csboard_extension.Shared.Result.{Result, ok, err, ◌>>=◌, ◌>>◌, throw_if}
use csboard_extension.Gateway.Payload.{Js, Fields}
use csboard_extension.Listing.Parse.{
  validate_prepare_request, parse_eligibility_response, parse_intent_response,
}
use csboard_extension.Listing.Records.{
  ListingError, asset_revision_changed, asset_ineligible, listing_unavailable,
  randomness_unavailable, review_binding_mismatch, review_expired, Checked, Action, create,
  unpublish, EligibleAsset, Intent, PrepareRequest, create_listing, unpublish_listing, Review,
  StoredReview, is_review_id, is_idempotency_key,
}

abbrev pub max_review_age_ms : ℕ
max_review_age_ms = 2 * 60 * 1000

abbrev pub asset_id_of : PrepareRequest → Text
asset_id_of (create_listing asset_id revision price) = asset_id
asset_id_of (unpublish_listing asset_id revision listing_id) = asset_id

abbrev pub revision_of : PrepareRequest → Text
revision_of (create_listing asset_id revision price) = revision
revision_of (unpublish_listing asset_id revision listing_id) = revision

abbrev pub action_of : PrepareRequest → Action
action_of (create_listing asset_id revision price) = create
action_of (unpublish_listing asset_id revision listing_id) = unpublish

unfoldable pub find_asset : Text → List EligibleAsset → Option EligibleAsset
find_asset id [] = none
find_asset id (asset ∷ assets) =
    if asset.operational_asset_id === id then some asset else find_asset id assets

-- `value === text`, where the value may be null.
abbrev pub is_this : Option Text → Text → Bool
is_this none s = false
is_this (some t) s = t === s

abbrev pub can_do : PrepareRequest → EligibleAsset → Checked (Unit {0})
can_do (create_listing asset_id revision price) asset =
    throw_if (not asset.eligibility) asset_ineligible
can_do (unpublish_listing asset_id revision listing_id) asset =
    throw_if
      (not (is_this asset.listing_id listing_id && is_this asset.listing_state (codes "active")))
      listing_unavailable

abbrev pub of_revision : PrepareRequest → Option EligibleAsset → Checked EligibleAsset
of_revision request none = err asset_revision_changed
of_revision request (some asset) =
    throw_if (not (asset.asset_revision === revision_of request)) asset_revision_changed >> ok asset

-- The code between the two requests: it gives the asset, and sends the key that is given.
unfoldable pub choose_asset : PrepareRequest → List EligibleAsset → Text → Checked EligibleAsset
unfolding find_asset
choose_asset request assets idempotency_key = do
  asset ← of_revision request (find_asset (asset_id_of request) assets)
  can_do request asset
  throw_if (not (is_idempotency_key idempotency_key)) randomness_unavailable
  ok asset

abbrev pub same_action : Action → Action → Bool
same_action create create = true
same_action unpublish unpublish = true
same_action _ _ = false

abbrev pub is_absent : Option Text → Bool
is_absent none = true
is_absent (some s) = false

abbrev pub part_matches : PrepareRequest → Intent → Bool
part_matches (create_listing asset_id revision price) intent =
    is_absent intent.listing_id && intent.price_minor == price
part_matches (unpublish_listing asset_id revision listing_id) intent =
    is_this intent.listing_id listing_id

unfoldable pub binding_matches : PrepareRequest → EligibleAsset → Text → Intent → Bool
binding_matches request asset idempotency_key intent =
    same_action intent.action (action_of request)
    && intent.idempotency_key === idempotency_key
    && intent.operational_asset_id === asset_id_of request
    && intent.asset_revision === revision_of request
    && intent.market_hash_name === asset.market_hash_name
    && part_matches request intent

abbrev pub min_ℤ : ℤ → ℤ → ℤ
min_ℤ a b = if leb_ℤ a b then a else b

abbrev pub live_until : Option ℤ → ℕ → Checked ℤ
live_until none now = err review_expired
live_until (some expiry) now = throw_if (leb_ℤ expiry (pos now)) review_expired >> ok expiry

abbrev pub review_of : Intent → Text → ℤ → ℕ → Review
review_of intent review_id remote_expiry now = record {
  review_id = review_id;
  action = intent.action;
  operational_asset_id = intent.operational_asset_id;
  asset_revision = intent.asset_revision;
  market_hash_name = intent.market_hash_name;
  listing_id = intent.listing_id;
  price_minor = intent.price_minor;
  expires_at = min_ℤ remote_expiry (pos (now + max_review_age_ms));
}

module _ (parse_date : Text → Option ℤ) where
  -- The code behind the second request: it gives what is stored.
  unfoldable pub finish_prepare :
      PrepareRequest
      → EligibleAsset
      → (idempotency_key review_id : Text) (now : ℕ) → Intent
      → Checked StoredReview
  unfolding binding_matches
  finish_prepare request asset idempotency_key review_id now intent = do
    throw_if (not (binding_matches request asset idempotency_key intent)) review_binding_mismatch
    remote_expiry ← live_until (parse_date intent.expires_at) now
    throw_if (not (is_review_id review_id)) randomness_unavailable
    ok (record { review = review_of intent review_id remote_expiry now; intent = intent })

  -- The whole of it, over the two answers. An answer is read only if its request was made.
  unfoldable pub prepare :
      Fields
      → (eligible : Checked Js) (idempotency_key : Text) (answer : Checked Js) (review_id : Text)
        (now : ℕ)
      → Checked StoredReview
  prepare raw eligible idempotency_key answer review_id now = do
    request ← validate_prepare_request raw
    raw_assets ← eligible
    assets ← parse_eligibility_response parse_date raw_assets
    asset ← choose_asset request assets idempotency_key
    value ← answer
    intent ← parse_intent_response parse_date value
    finish_prepare request asset idempotency_key review_id now intent
