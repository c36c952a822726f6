-- ===== src/Listing/Parse/Sound.antt =====
-- background/p2p-listing-client.ts: what holds of the eligible assets that are accepted.
use mathlib.Core.Path.{subst}
use csboard_extension.Prelude.{
  ◌≤◌, ◌≡◌, ◌≢◌, ◌⊎◌, refl, arith, Bool, true, false, not, ◌||◌, Option, none, some, List, [], ◌∷◌,
  map, leb, length, All,
}
use csboard_extension.Prelude.Int.{ℤ}
use csboard_extension.Prelude.Text.{Text, codes, ===_iff}
use csboard_extension.Shared.Result.{
  ok, all_results-All, throw_if, throw_if-eq-ok, throw_unless-eq-ok, all_results, >>-eq-ok,
  >>=-eq-ok,
}
use csboard_extension.Gateway.Payload.{
  Js, undefined, null, instance_of, opaque, bool, num, str, arr, obj, Fields,
}
use csboard_extension.Client.Body.{lookup, is_text}
use csboard_extension.Portfolio.Checks.Sound.{IsDistinct}
use csboard_extension.Listing.Records.{
  ListingError, invalid_eligibility_response, Reason, EligibleAsset, is_listing_id,
  is_listing_state, is_asset_id, is_revision, is_printed,
}
use csboard_extension.Listing.Parse.{
  required_string, unless_null, record_of, array_of, boolean_of, is_coherent, are_both,
  has_eligible_header, has_distinct_ids, parse_eligibility_reason, parse_iso_timestamp, asset_texts,
  asset_listing, parse_eligible_asset, parse_eligibility_response,
}

abbrev pub Agree : Option Text → Option Text → Type 0
Agree none none = Unit
Agree (some a) (some b) = Unit
Agree _ _ = ⊥

pub record IsEligibleAsset (asset : EligibleAsset) : Type 0 where
  pub ready : asset.eligibility ≡ true → (asset.reasons ≡ []) × (asset.snapshot_completed_at ≢ none)
  pub blocked : asset.eligibility ≡ false → asset.reasons ≢ []
  pub context : (asset.context_id ≡ codes "2") ⊎ (asset.context_id ≡ codes "16")
  pub listing : Agree asset.listing_id asset.listing_state
  pub few_reasons : length asset.reasons ≤ 32

is_coherent-ready :
    (reasons : List Reason) (completed : Option Text)
    → is_coherent true reasons completed ≡ true
    → (reasons ≡ []) × (completed ≢ none)
is_coherent-ready reasons none h = cc
is_coherent-ready [] (some t) h = (refl, λ e. cc)
is_coherent-ready (r ∷ rs) (some t) h = cc

is_coherent-blocked :
    (reasons : List Reason) (completed : Option Text)
    → is_coherent false reasons completed ≡ true
    → reasons ≢ []
is_coherent-blocked [] completed h = cc
is_coherent-blocked (r ∷ rs) completed h = λ e. cc

are_both-Agree : (a b : Option Text) → are_both a b ≡ true → Agree a b
are_both-Agree none none h = tt
are_both-Agree none (some b) h = cc
are_both-Agree (some a) none h = cc
are_both-Agree (some a) (some b) h = tt

has_distinct_ids-IsDistinct : (ids : List Text) → has_distinct_ids ids ≡ true → IsDistinct ids
unfolding has_distinct_ids
has_distinct_ids-IsDistinct [] h = tt
has_distinct_ids-IsDistinct (id ∷ ids) h =
    (ground arith, has_distinct_ids-IsDistinct ids (ground arith))

required_string-of :
    (value : Js) (pattern : Text → Bool) (code : ListingError) (s : Text)
    → required_string value pattern code ≡ ok s
    → value ≡ str s
unfolding required_string
required_string-of (str t) pattern code s h =
    let (_, made) = >>-eq-ok (throw_if (not (pattern t)) code) _ h in cc
required_string-of undefined pattern code s h = cc
required_string-of null pattern code s h = cc
required_string-of instance_of pattern code s h = cc
required_string-of (opaque t) pattern code s h = cc
required_string-of (bool b) pattern code s h = cc
required_string-of (num n) pattern code s h = cc
required_string-of (arr items) pattern code s h = cc
required_string-of (obj fields) pattern code s h = cc

context_of :
    (value : Js) (s : Text)
    → value ≡ str s
    → (is_text (codes "2") value || is_text (codes "16") value) ≡ true
    → (s ≡ codes "2") ⊎ (s ≡ codes "16")
unfolding is_text
context_of value s e h = ground (arith, ===_iff s (codes "2"), ===_iff s (codes "16"))

context_of-header :
    (fields : Fields) (raw : List Js) (s : Text)
    → has_eligible_header fields raw ≡ true
    → lookup (codes "contextId") fields ≡ str s
    → (length raw ≤ 32) × ((s ≡ codes "2") ⊎ (s ≡ codes "16"))
context_of-header fields raw s h at =
    (ground arith, context_of (lookup (codes "contextId") fields) s at (ground arith))

module _ (fields : Fields) (context : Text) (eligible : Bool) (reasons : List Reason)
    (completed : Option Text) (coherent : is_coherent eligible reasons completed ≡ true)
    (of_context : (context ≡ codes "2") ⊎ (context ≡ codes "16")) (few : length reasons ≤ 32) where
  asset_texts-IsEligibleAsset :
      (listing_id state : Option Text) (asset : EligibleAsset)
      → are_both listing_id state ≡ true
      → asset_texts fields context eligible reasons completed listing_id state ≡ ok asset
      → IsEligibleAsset asset
  unfolding asset_texts
  asset_texts-IsEligibleAsset listing_id state asset both h =
      let code = invalid_eligibility_response in
      let (id, _, h_1) =
        >>=-eq-ok (required_string (lookup (codes "operationalAssetId") fields) is_asset_id code) _
          h in
      let (revision, _, h_2) =
        >>=-eq-ok (required_string (lookup (codes "assetRevision") fields) is_revision code) _
          h_1 in
      let (name, _, made) =
        >>=-eq-ok (required_string (lookup (codes "marketHashName") fields) (is_printed 256) code) _
          h_2 in
      let same : record {
        operational_asset_id = id;
        asset_revision = revision;
        market_hash_name = name;
        context_id = context;
        eligibility = eligible;
        reasons = reasons;
        listing_id = listing_id;
        listing_state = state;
        snapshot_completed_at = completed;
      }
          ≡ asset =
        cc in
      rw⁻¹ same (record {
        ready = λ e.
            is_coherent-ready reasons completed
              (subst (λ b. is_coherent b reasons completed ≡ true) e coherent);
        blocked = λ e.
            is_coherent-blocked reasons completed
              (subst (λ b. is_coherent b reasons completed ≡ true) e coherent);
        context = of_context;
        listing = are_both-Agree listing_id state both;
        few_reasons = few;
      })

  asset_listing-IsEligibleAsset :
      (asset : EligibleAsset)
      → asset_listing fields context eligible reasons completed ≡ ok asset
      → IsEligibleAsset asset
  unfolding asset_listing
  asset_listing-IsEligibleAsset asset h =
      let code = invalid_eligibility_response in
      let (listing_id, _, h_1) =
        >>=-eq-ok
          (unless_null (λ v. required_string v is_listing_id code)
            (lookup (codes "listingId") fields))
          _ h in
      let (state, _, h_2) =
        >>=-eq-ok
          (unless_null (λ v. required_string v is_listing_state code)
            (lookup (codes "listingState") fields))
          _ h_1 in
      let (both, made) = >>-eq-ok (throw_if (not (are_both listing_id state)) code) _ h_2 in
      asset_texts-IsEligibleAsset listing_id state asset
        (throw_unless-eq-ok (are_both listing_id state) code both) made

module _ (parse_date : Text → Option ℤ) where
  parse_eligible_asset-IsEligibleAsset :
      (value : Js) (asset : EligibleAsset)
      → parse_eligible_asset parse_date value ≡ ok asset
      → IsEligibleAsset asset
  unfolding parse_eligible_asset
  parse_eligible_asset-IsEligibleAsset value asset h =
      let code = invalid_eligibility_response in
      let (fields, _, h_1) = >>=-eq-ok (record_of value code) _ h in
      let (raw, _, h_2) = >>=-eq-ok (array_of (lookup (codes "reasons") fields) code) _ h_1 in
      let (header, h_3) = >>-eq-ok (throw_if (not (has_eligible_header fields raw)) code) _ h_2 in
      let (context, at, h_4) =
        >>=-eq-ok (required_string (lookup (codes "contextId") fields) (λ _. true) code) _ h_3 in
      let (eligible, _, h_5) =
        >>=-eq-ok (boolean_of (lookup (codes "eligibility") fields) code) _ h_4 in
      let (reasons, parsed, h_6) =
        >>=-eq-ok (all_results (map parse_eligibility_reason raw)) _ h_5 in
      let (completed, _, h_7) =
        >>=-eq-ok
          (unless_null (λ v. parse_iso_timestamp parse_date v code)
            (lookup (codes "snapshotCompletedAt") fields))
          _ h_6 in
      let (coherent, made) =
        >>-eq-ok (throw_if (not (is_coherent eligible reasons completed)) code)
          (asset_listing fields context eligible reasons completed) h_7 in
      let (few, of_context) =
        context_of-header fields raw context
          (throw_unless-eq-ok (has_eligible_header fields raw) code header)
          (required_string-of (lookup (codes "contextId") fields) (λ _. true) code context at) in
      let (_, count) =
        all_results-All (λ (_ : Reason). Unit {0}) parse_eligibility_reason (λ _ _ _. tt) raw
          reasons parsed in
      asset_listing-IsEligibleAsset fields context eligible reasons completed
        (throw_unless-eq-ok (is_coherent eligible reasons completed) code coherent) of_context
        (omega (arith, count)) asset made

  -- A list of assets that is accepted has at most 5,000 assets of different ids. Each is eligible,
  -- with a snapshot and without reasons, or has reasons; it is in the context 2 or 16, has an id of a
  -- listing exactly when it has a state of one, and has at most 32 reasons.
  pub parse_eligibility_response-IsEligibleAsset :
      (value : Js) (assets : List EligibleAsset)
      → parse_eligibility_response parse_date value ≡ ok assets
      → (length assets ≤ 5000)
        × IsDistinct (map (λ (a : EligibleAsset). a.operational_asset_id) assets)
        × All IsEligibleAsset assets
  unfolding parse_eligibility_response
  parse_eligibility_response-IsEligibleAsset value assets h =
      let code = invalid_eligibility_response in
      let (fields, _, h_1) = >>=-eq-ok (record_of value code) _ h in
      let (raw, _, h_2) = >>=-eq-ok (array_of (lookup (codes "assets") fields) code) _ h_1 in
      let (few, h_3) = >>-eq-ok (throw_if (not (leb (length raw) 5000)) code) _ h_2 in
      let (read, parsed, h_4) =
        >>=-eq-ok (all_results (map (parse_eligible_asset parse_date) raw)) _ h_3 in
      let (distinct, made) =
        >>-eq-ok
          (throw_if
            (not (has_distinct_ids (map (λ (a : EligibleAsset). a.operational_asset_id) read)))
            code)
          _ h_4 in
      let same : read ≡ assets = cc in
      let (fine, count) =
        all_results-All IsEligibleAsset (parse_eligible_asset parse_date)
          parse_eligible_asset-IsEligibleAsset raw read parsed in
      let short = throw_if-eq-ok (not (leb (length raw) 5000)) code few in
      rw⁻¹ same (
        ground (arith, count),
        has_distinct_ids-IsDistinct _ (throw_unless-eq-ok _ code distinct),
        fine,
      )
