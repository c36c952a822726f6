-- ===== src/Tests/Listings.antt =====
-- background/p2p-listing-client.ts: one asset is put up for sale, with an answer that is lost.
use csboard_extension.Prelude.{
  ◌≡◌, ◌≤◌, refl, Option, some, none, true, List, [], ◌∷◌, map, length, All,
}
use csboard_extension.Prelude.Int.{ℤ, pos, is_safe_integer}
use csboard_extension.Prelude.Text.{Text, codes, ◌===◌, includes, is_run_of}
use csboard_extension.Prelude.Uuid.{matches}
use csboard_extension.Shared.Result.{ok, err, all_results}
use csboard_extension.Gateway.Payload.{
  Js, null, bool, num, int, str, arr, obj, nil, cons, Fields, end, field,
}
use csboard_extension.Client.Body.{lookup, is_text}
use csboard_extension.Portfolio.Checks.Sound.{IsDistinct}
use csboard_extension.Listing.Records.{
  Checked, create, EligibleAsset, Intent, PrepareRequest, StoredReview, backend_unavailable,
}
use csboard_extension.Listing.Parse.{
  terms_version, required_string, price_minor, parse_iso_timestamp, parse_eligible_asset,
  asset_listing, asset_texts, has_distinct_ids, parse_eligibility_response, parse_intent_response,
  validate_prepare_request,
}
use csboard_extension.Listing.Parse.Sound.{
  IsEligibleAsset, parse_eligibility_response-IsEligibleAsset,
}
use csboard_extension.Listing.Prepare.{
  find_asset, choose_asset, binding_matches, finish_prepare, prepare, review_of,
}
use csboard_extension.Listing.Prepare.Bound.{IsBound, prepare-IsBound}
use csboard_extension.Listing.Confirm.{
  State, review_stored, start_confirm, confirm, base_read, commit_settled, commit_answered,
  confirmation_removed,
}
use csboard_extension.Listing.Confirm.History.{
  fresh, prepared, confirm_called, base_arrived, answer_arrived, removed, Reaches, here, then,
  IsOrderly,
}
use csboard_extension.Listing.Confirm.History.Orderly.{Reaches-IsOrderly}

-- Every date is five minutes after the start.
abbrev noon : Text → Option ℤ
noon s = some (pos 300000)

abbrev revision : Text
revision = codes "revision-0000001"

abbrev key : Text
key = codes "0f8fad5b-d9cb-469f-a165-70867728950e"

abbrev review_id : Text
review_id = codes "review_000000001"

abbrev raw_asset : Fields
raw_asset = field (codes "reasons") (arr nil) (
    field (codes "contextId") (str (codes "2")) (
      field (codes "currency") (str (codes "USD")) (
        field (codes "eligibility") (bool true) (
          field (codes "snapshotCompletedAt") (str (codes "2026-01-02T03:04:05Z")) (
            field (codes "listingId") null (
              field (codes "listingState") null (
                field (codes "operationalAssetId") (str (codes "asset:1")) (
                  field (codes "assetRevision") (str revision)
                    (field (codes "marketHashName") (str (codes "AWP | Asiimov")) end)))))))))

abbrev raw_assets : Js
raw_assets = obj (field (codes "assets") (arr (cons (obj raw_asset) nil)) end)

abbrev asset : EligibleAsset
asset = record {
  operational_asset_id = codes "asset:1";
  asset_revision = revision;
  market_hash_name = codes "AWP | Asiimov";
  context_id = codes "2";
  eligibility = true;
  reasons = [];
  listing_id = none;
  listing_state = none;
  snapshot_completed_at = some (codes "2026-01-02T03:04:05Z");
}

abbrev eligible : Checked Js
eligible = ok raw_assets

assets_parsed : parse_eligibility_response noon raw_assets ≡ ok (asset ∷ [])
unfolding parse_eligibility_response parse_eligible_asset asset_listing asset_texts lookup is_text
    required_string ◌===◌ is_run_of all_results parse_iso_timestamp has_distinct_ids includes
assets_parsed = refl

parse_eligibility_response-IsEligibleAsset_example :
    (length (asset ∷ []) ≤ 5000)
    × IsDistinct (map (λ (a : EligibleAsset). a.operational_asset_id) (asset ∷ []))
    × All IsEligibleAsset (asset ∷ [])
parse_eligibility_response-IsEligibleAsset_example =
    parse_eligibility_response-IsEligibleAsset noon raw_assets (asset ∷ []) assets_parsed

abbrev raw_request : Fields
raw_request = field (codes "action") (str (codes "create")) (
    field (codes "operationalAssetId") (str (codes "asset:1")) (
      field (codes "assetRevision") (str revision)
        (field (codes "priceMinor") (num (int (pos 1250))) end)))

abbrev intent : Intent
intent = record {
  intent_id = codes "7c9e6679-7425-40de-944b-e07fc1f90ae7";
  action = create;
  idempotency_key = key;
  operational_asset_id = codes "asset:1";
  listing_id = none;
  asset_revision = revision;
  market_hash_name = codes "AWP | Asiimov";
  price_minor = 1250;
  expires_at = codes "2026-01-02T12:00:00Z";
}

abbrev raw_intent : Js
raw_intent = obj (
    field (codes "action") (str (codes "create")) (
      field (codes "currency") (str (codes "USD")) (
        field (codes "termsVersion") (str terms_version) (
          field (codes "intentId") (str intent.intent_id) (
            field (codes "idempotencyKey") (str key) (
              field (codes "operationalAssetId") (str (codes "asset:1")) (
                field (codes "listingId") null (
                  field (codes "assetRevision") (str revision) (
                    field (codes "marketHashName") (str (codes "AWP | Asiimov")) (
                      field (codes "priceMinor") (num (int (pos 1250)))
                        (field (codes "expiresAt") (str intent.expires_at) end)))))))))))

abbrev stored : StoredReview
stored = record { review = review_of intent review_id (pos 300000) 1000; intent = intent }

review_prepared : prepare noon raw_request eligible key (ok raw_intent) review_id 1000 ≡ ok stored
unfolding prepare validate_prepare_request parse_eligibility_response parse_eligible_asset
    asset_listing asset_texts lookup is_text required_string ◌===◌ is_run_of all_results
    parse_iso_timestamp has_distinct_ids includes choose_asset find_asset matches price_minor
    parse_intent_response finish_prepare binding_matches is_safe_integer
review_prepared = refl

prepare-IsBound_example :
    (request : PrepareRequest) × (value : Js) × (assets : List EligibleAsset)
    × (validate_prepare_request raw_request ≡ ok request)
    × (eligible ≡ ok value)
    × (parse_eligibility_response noon value ≡ ok assets)
    × IsBound request assets key 1000 stored
prepare-IsBound_example =
    prepare-IsBound noon raw_request eligible key (ok raw_intent) review_id 1000 stored
      review_prepared

abbrev with_review : State
with_review =
    review_stored review_id (prepare noon raw_request eligible key (ok raw_intent) review_id 1000)
      fresh

abbrev begun : State
begun = confirm review_id 2000 with_review

abbrev sent : State
sent = base_read review_id stored (ok (codes "https://csboard.com/api")) begun

abbrev lost : State
lost = commit_answered review_id stored (err backend_unavailable) sent

abbrev again : State
again = confirm review_id 3000 (confirmation_removed review_id lost)

lost_then_again : Reaches noon again
unfolding prepare validate_prepare_request parse_eligibility_response parse_eligible_asset
    asset_listing asset_texts lookup is_text required_string ◌===◌ is_run_of all_results
    parse_iso_timestamp has_distinct_ids includes choose_asset find_asset matches price_minor
    parse_intent_response finish_prepare binding_matches is_safe_integer review_stored confirm
    start_confirm base_read commit_answered commit_settled confirmation_removed
lost_then_again =
    then
      (then
        (then
          (then
            (then (then here (prepared raw_request eligible key (ok raw_intent) review_id 1000))
              (confirm_called review_id 2000))
            (base_arrived review_id stored (ok (codes "https://csboard.com/api")) refl))
          (answer_arrived review_id stored (err backend_unavailable) refl))
        (removed review_id (err backend_unavailable) refl))
      (confirm_called review_id 3000)

Reaches-IsOrderly_example : IsOrderly again.log
Reaches-IsOrderly_example = Reaches-IsOrderly noon again lost_then_again
