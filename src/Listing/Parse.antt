-- ===== src/Listing/Parse.antt =====
-- background/p2p-listing-client.ts: what is accepted of the parsed answers and of a request.
-- `Date.parse` is the browser's, and a parameter; it gives no value where it gives NaN.
pub mod Sound
use csboard_extension.Prelude.{
  ℕ, Bool, true, false, not, ◌&&◌, ◌||◌, Option, none, some, List, [], ◌∷◌, map, leb, length,
  if◌then◌else◌,
}
use csboard_extension.Prelude.Int.{ℤ, pos, is_safe_integer}
use csboard_extension.Prelude.Text.{Text, codes, ◌===◌, includes}
use csboard_extension.Shared.Result.{ok, err, ◌>>=◌, ◌>>◌, throw_if, all_results}
use csboard_extension.Gateway.Payload.{
  Js, null, num, str, bool, arr, obj, Items, nil, cons, Fields, int,
}
use csboard_extension.Client.Body.{lookup, is_text, elements}
use csboard_extension.Listing.Records.{
  ListingError, invalid_price, invalid_eligibility_response, invalid_review_response,
  invalid_request, Checked, Action, create, unpublish, Reason, EligibleAsset, Intent,
  PrepareRequest, create_listing, unpublish_listing, is_listing_state, is_reason_code,
  is_listing_id, is_revision, is_asset_id, is_printed, is_timestamp_text, is_intent_id,
  is_idempotency_key,
}

abbrev pub terms_version : Text
terms_version = codes "p2p-listing-v1"

unfoldable pub required_string : Js → (Text → Bool) → ListingError → Checked Text
required_string (str s) pattern code = throw_if (not (pattern s)) code >> ok s
required_string _ pattern code = err code

-- `value === null ? null : read(value)`
abbrev pub unless_null : (Js → Checked Text) → Js → Checked (Option Text)
unless_null read null = ok none
unless_null read value = read value >>= (λ s. ok (some s))

abbrev pub record_of : Js → ListingError → Checked Fields
record_of (obj fields) code = ok fields
record_of _ code = err code

abbrev pub array_of : Js → ListingError → Checked (List Js)
array_of (arr items) code = ok (elements items)
array_of _ code = err code

abbrev boolean_of : Js → ListingError → Checked Bool
boolean_of (bool b) code = ok b
boolean_of _ code = err code

-- A safe integer from 10 to 10,000,000.
unfoldable pub price_minor : Js → ListingError → Checked ℕ
unfolding is_safe_integer
price_minor (num (int (pos n))) code =
    throw_if (not (is_safe_integer (pos n) && leb 10 n && leb n 10_000_000)) code >> ok n
price_minor _ code = err code

abbrev pub is_none : {A : Type 0} → Option A → Bool
is_none none = true
is_none (some a) = false

abbrev pub is_empty_list : {A : Type 0} → List A → Bool
is_empty_list [] = true
is_empty_list (x ∷ xs) = false

unfoldable pub parse_eligibility_reason : Js → Checked Reason
unfolding required_string
parse_eligibility_reason value = do
  record_ ← record_of value invalid_eligibility_response
  code ← required_string (lookup (codes "code") record_) is_reason_code invalid_eligibility_response
  message ←
      required_string (lookup (codes "message") record_) (is_printed 240)
        invalid_eligibility_response
  ok (record { code = code; message = message })

-- An asset is eligible, with a snapshot and without reasons against it, or has reasons.
abbrev pub is_coherent : Bool → List Reason → Option Text → Bool
is_coherent true reasons completed = not (is_none completed) && is_empty_list reasons
is_coherent false reasons completed = not (is_empty_list reasons)

abbrev pub are_both : Option Text → Option Text → Bool
are_both none none = true
are_both (some a) (some b) = true
are_both _ _ = false

abbrev pub has_eligible_header : Fields → List Js → Bool
has_eligible_header value raw_reasons =
    leb (length raw_reasons) 32
    && (is_text (codes "2") (lookup (codes "contextId") value)
        || is_text (codes "16") (lookup (codes "contextId") value))
    && is_text (codes "USD") (lookup (codes "currency") value)

unfoldable pub has_distinct_ids : List Text → Bool
has_distinct_ids [] = true
has_distinct_ids (id ∷ ids) = not (includes ids id) && has_distinct_ids ids

abbrev pub action_of : Js → ListingError → Checked Action
action_of value code =
    if is_text (codes "create") value
    then ok create
    else if is_text (codes "unpublish") value
    then ok unpublish
    else err code

-- The rest of an asset, behind its reasons: the listing, and the texts.
unfoldable pub asset_texts :
    Fields
    → (context_id : Text) (eligibility : Bool) (reasons : List Reason)
      (completed listing_id listing_state : Option Text)
    → Checked EligibleAsset
unfolding required_string
asset_texts fields context_id eligibility reasons completed listing_id listing_state = do
  let code = invalid_eligibility_response
  asset_id ← required_string (lookup (codes "operationalAssetId") fields) is_asset_id code
  revision ← required_string (lookup (codes "assetRevision") fields) is_revision code
  name ← required_string (lookup (codes "marketHashName") fields) (is_printed 256) code
  ok (record {
    operational_asset_id = asset_id;
    asset_revision = revision;
    market_hash_name = name;
    context_id = context_id;
    eligibility = eligibility;
    reasons = reasons;
    listing_id = listing_id;
    listing_state = listing_state;
    snapshot_completed_at = completed;
  })

unfoldable pub asset_listing :
    Fields
    → (context_id : Text) (eligibility : Bool) (reasons : List Reason) (completed : Option Text)
    → Checked EligibleAsset
unfolding required_string asset_texts
asset_listing fields context_id eligibility reasons completed = do
  let code = invalid_eligibility_response
  listing_id ←
      unless_null (λ v. required_string v is_listing_id code) (lookup (codes "listingId") fields)
  listing_state ←
      unless_null (λ v. required_string v is_listing_state code)
        (lookup (codes "listingState") fields)
  throw_if (not (are_both listing_id listing_state)) code
  asset_texts fields context_id eligibility reasons completed listing_id listing_state

module _ (parse_date : Text → Option ℤ) where
  unfoldable pub parse_iso_timestamp : Js → ListingError → Checked Text
  unfolding required_string
  parse_iso_timestamp value code = do
    raw ← required_string value is_timestamp_text code
    throw_if (is_none (parse_date raw)) code
    ok raw

  unfoldable pub parse_eligible_asset : Js → Checked EligibleAsset
  unfolding required_string asset_listing
  parse_eligible_asset value = do
    let code = invalid_eligibility_response
    fields ← record_of value code
    raw_reasons ← array_of (lookup (codes "reasons") fields) code
    throw_if (not (has_eligible_header fields raw_reasons)) code
    context_id ← required_string (lookup (codes "contextId") fields) (λ _. true) code
    eligibility ← boolean_of (lookup (codes "eligibility") fields) code
    reasons ← all_results (map parse_eligibility_reason raw_reasons)
    completed ←
        unless_null (λ v. parse_iso_timestamp v code) (lookup (codes "snapshotCompletedAt") fields)
    throw_if (not (is_coherent eligibility reasons completed)) code
    asset_listing fields context_id eligibility reasons completed

  unfoldable pub parse_eligibility_response : Js → Checked (List EligibleAsset)
  parse_eligibility_response value = do
    fields ← record_of value invalid_eligibility_response
    raw_assets ← array_of (lookup (codes "assets") fields) invalid_eligibility_response
    throw_if (not (leb (length raw_assets) 5000)) invalid_eligibility_response
    assets ← all_results (map parse_eligible_asset raw_assets)
    throw_if (not (has_distinct_ids (map (λ (a : EligibleAsset). a.operational_asset_id) assets)))
        invalid_eligibility_response
    ok assets

  unfoldable pub parse_intent_response : Js → Checked Intent
  parse_intent_response value = do
    let code = invalid_review_response
    fields ← record_of value code
    action ← action_of (lookup (codes "action") fields) code
    throw_if (not (is_text (codes "USD") (lookup (codes "currency") fields))) code
    throw_if (not (is_text terms_version (lookup (codes "termsVersion") fields))) code
    intent_id ← required_string (lookup (codes "intentId") fields) is_intent_id code
    key ← required_string (lookup (codes "idempotencyKey") fields) is_idempotency_key code
    asset_id ← required_string (lookup (codes "operationalAssetId") fields) is_asset_id code
    listing_id ←
        unless_null (λ v. required_string v is_listing_id code) (lookup (codes "listingId") fields)
    revision ← required_string (lookup (codes "assetRevision") fields) is_revision code
    name ← required_string (lookup (codes "marketHashName") fields) (is_printed 256) code
    price ← price_minor (lookup (codes "priceMinor") fields) code
    expires_at ← parse_iso_timestamp (lookup (codes "expiresAt") fields) code
    ok (record {
      intent_id = intent_id;
      action = action;
      idempotency_key = key;
      operational_asset_id = asset_id;
      listing_id = listing_id;
      asset_revision = revision;
      market_hash_name = name;
      price_minor = price;
      expires_at = expires_at;
    })

-- What a request gives beside the asset and its revision depends on its action.
abbrev pub action_part : Fields → Text → Text → Checked PrepareRequest
action_part value asset_id revision =
    if is_text (codes "create") (lookup (codes "action") value)
    then (price_minor (lookup (codes "priceMinor") value) invalid_price
        >>= (λ price. ok (create_listing asset_id revision price)))
    else (if is_text (codes "unpublish") (lookup (codes "action") value)
        then (required_string (lookup (codes "listingId") value) is_listing_id invalid_request
            >>= (λ listing_id. ok (unpublish_listing asset_id revision listing_id)))
        else err invalid_request)

unfoldable pub validate_prepare_request : Fields → Checked PrepareRequest
validate_prepare_request value = do
  asset_id ← required_string (lookup (codes "operationalAssetId") value) is_asset_id invalid_request
  revision ← required_string (lookup (codes "assetRevision") value) is_revision invalid_request
  action_part value asset_id revision
