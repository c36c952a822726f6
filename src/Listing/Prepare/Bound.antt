-- ===== src/Listing/Prepare/Bound.antt =====
-- background/p2p-listing-client.ts: what a review that `prepare` gives is bound to.
use csboard_extension.Prelude.{
  ℕ, ◌+◌, ◌≡◌, refl, ap, arith, true, not, ◌&&◌, Option, none, some, List,
}
use csboard_extension.Prelude.Int.{ℤ, pos, ◌≤ℤ◌, ◌<ℤ◌, leb_ℤ}
use csboard_extension.Prelude.Text.{Text, codes, ◌===◌, ===_iff}
use csboard_extension.Shared.Result.{ok, throw_if, throw_if-eq-ok, >>-eq-ok, >>=-eq-ok}
use csboard_extension.Gateway.Payload.{Js, Fields}
use csboard_extension.Listing.Records.{
  asset_ineligible, listing_unavailable, asset_revision_changed, review_binding_mismatch,
  review_expired, randomness_unavailable, Checked, Action, create, unpublish, EligibleAsset, Intent,
  PrepareRequest, create_listing, unpublish_listing, Review, StoredReview, is_idempotency_key,
  is_review_id,
}
use csboard_extension.Listing.Parse.{
  validate_prepare_request, parse_eligibility_response, parse_intent_response,
}
use csboard_extension.Listing.Prepare.{
  asset_id_of, revision_of, action_of, find_asset, is_this, can_do, of_revision, choose_asset,
  same_action, is_absent, part_matches, binding_matches, live_until, review_of, finish_prepare,
  prepare,
}

-- A new listing has the asked price, and the asset is eligible; a listing to take back is the active
-- one of the asset.
abbrev pub MeansSame : PrepareRequest → EligibleAsset → Intent → Type 0
MeansSame (create_listing asset_id revision price) asset intent =
    (intent.action ≡ create)
    × (intent.price_minor ≡ price)
    × (intent.listing_id ≡ none)
    × (asset.eligibility ≡ true)
MeansSame (unpublish_listing asset_id revision listing_id) asset intent =
    (intent.action ≡ unpublish)
    × (intent.listing_id ≡ some listing_id)
    × (asset.listing_id ≡ some listing_id)
    × (asset.listing_state ≡ some (codes "active"))

-- The review shows what the intent will commit.
pub record Shows (review : Review) (intent : Intent) : Type 0 where
  pub action : review.action ≡ intent.action
  pub asset : review.operational_asset_id ≡ intent.operational_asset_id
  pub revision : review.asset_revision ≡ intent.asset_revision
  pub name : review.market_hash_name ≡ intent.market_hash_name
  pub listing : review.listing_id ≡ intent.listing_id
  pub price : review.price_minor ≡ intent.price_minor

pub record IsBound (request : PrepareRequest) (assets : List EligibleAsset) (key : Text) (now : ℕ)
    (stored : StoredReview) : Type 0 where
  pub asset : EligibleAsset
  pub listed : find_asset (asset_id_of request) assets ≡ some asset
  pub revision : asset.asset_revision ≡ revision_of request
  pub same_asset : stored.intent.operational_asset_id ≡ asset_id_of request
  pub same_revision : stored.intent.asset_revision ≡ revision_of request
  pub same_name : stored.intent.market_hash_name ≡ asset.market_hash_name
  pub same_key : stored.intent.idempotency_key ≡ key
  pub means_same : MeansSame request asset stored.intent
  pub shows : Shows stored.review stored.intent
  pub alive : pos now <ℤ stored.review.expires_at
  pub brief : stored.review.expires_at ≤ℤ pos (now + 120000)

is_this-same : (o : Option Text) (s : Text) → is_this o s ≡ true → o ≡ some s
is_this-same none s h = cc
is_this-same (some t) s h = ap some ((===_iff t s).0 h)

is_absent-none : (o : Option Text) → is_absent o ≡ true → o ≡ none
is_absent-none none h = refl
is_absent-none (some s) h = cc

same_action_sound : (a b : Action) → same_action a b ≡ true → a ≡ b
same_action_sound create create h = refl
same_action_sound create unpublish h = cc
same_action_sound unpublish create h = cc
same_action_sound unpublish unpublish h = refl

of_revision-eq-ok :
    (request : PrepareRequest) (found : Option EligibleAsset) (asset : EligibleAsset)
    → of_revision request found ≡ ok asset
    → (found ≡ some asset) × (asset.asset_revision ≡ revision_of request)
of_revision-eq-ok request none asset h = cc
of_revision-eq-ok request (some a) asset h =
    let (passed, made) =
      >>-eq-ok (throw_if (not (a.asset_revision === revision_of request)) asset_revision_changed) _
        h in
    let fine = throw_if-eq-ok _ _ passed in
    let same : a ≡ asset = cc in
    rw⁻¹ same (refl, (===_iff a.asset_revision (revision_of request)).0 (ground arith))

choose_asset-eq-ok :
    (request : PrepareRequest) (assets : List EligibleAsset) (key : Text) (asset : EligibleAsset)
    → choose_asset request assets key ≡ ok asset
    → (find_asset (asset_id_of request) assets ≡ some asset)
      × (asset.asset_revision ≡ revision_of request)
      × (can_do request asset ≡ ok tt)
unfolding choose_asset
choose_asset-eq-ok request assets key asset h =
    let (a, found, h_1) =
      >>=-eq-ok (of_revision request (find_asset (asset_id_of request) assets)) _ h in
    let (able, h_2) = >>-eq-ok (can_do request a) _ h_1 in
    let (_, made) =
      >>-eq-ok (throw_if (not (is_idempotency_key key)) randomness_unavailable) _ h_2 in
    let (listed, revision) =
      of_revision-eq-ok request (find_asset (asset_id_of request) assets) a found in
    let same : a ≡ asset = cc in rw⁻¹ same (listed, revision, able)

MeansSame-of :
    (request : PrepareRequest) (asset : EligibleAsset) (intent : Intent)
    → can_do request asset ≡ ok tt
    → same_action intent.action (action_of request) ≡ true
    → part_matches request intent ≡ true
    → MeansSame request asset intent
MeansSame-of (create_listing asset_id revision price) asset intent able acts part = (
  same_action_sound intent.action create acts,
  ground arith,
  is_absent-none intent.listing_id (ground arith),
  ground (arith, throw_if-eq-ok (not asset.eligibility) asset_ineligible),
)
MeansSame-of (unpublish_listing asset_id revision listing_id) asset intent able acts part =
    let fine =
      throw_if-eq-ok
        (not (is_this asset.listing_id listing_id && is_this asset.listing_state (codes "active")))
        listing_unavailable able in
    (
      same_action_sound intent.action unpublish acts,
      is_this-same intent.listing_id listing_id part,
      is_this-same asset.listing_id listing_id (ground arith),
      is_this-same asset.listing_state (codes "active") (ground arith),
    )

live_until-eq-ok :
    (expiry : Option ℤ) (now : ℕ) (until : ℤ) → live_until expiry now ≡ ok until → pos now <ℤ until
live_until-eq-ok none now until h = cc
live_until-eq-ok (some e) now until h =
    let (passed, made) = >>-eq-ok (throw_if (leb_ℤ e (pos now)) review_expired) _ h in
    let late = throw_if-eq-ok (leb_ℤ e (pos now)) review_expired passed in ground arith

review_of-Shows :
    (intent : Intent) (review_id : Text) (until : ℤ) (now : ℕ)
    → Shows (review_of intent review_id until now) intent
review_of-Shows intent review_id until now = record {
  action = refl;
  asset = refl;
  revision = refl;
  name = refl;
  listing = refl;
  price = refl;
}

review_of-lives :
    (intent : Intent) (review_id : Text) (until : ℤ) (now : ℕ)
    → pos now <ℤ until
    → (pos now <ℤ (review_of intent review_id until now).expires_at)
      × ((review_of intent review_id until now).expires_at ≤ℤ pos (now + 120000))
review_of-lives intent review_id until now h = ground arith

module _ (parse_date : Text → Option ℤ) where
  finish_prepare-IsBound :
      (request : PrepareRequest) (assets : List EligibleAsset) (asset : EligibleAsset)
      (key review_id : Text) (now : ℕ) (intent : Intent) (stored : StoredReview)
      → choose_asset request assets key ≡ ok asset
      → finish_prepare parse_date request asset key review_id now intent ≡ ok stored
      → IsBound request assets key now stored
  unfolding finish_prepare
  finish_prepare-IsBound request assets asset key review_id now intent stored chosen h =
      let (listed, revision, able) = choose_asset-eq-ok request assets key asset chosen in
      let (matched, h_1) =
        >>-eq-ok (throw_if (not (binding_matches request asset key intent)) review_binding_mismatch)
          _ h in
      let (until, live, h_2) = >>=-eq-ok (live_until (parse_date intent.expires_at) now) _ h_1 in
      let (_, made) =
        >>-eq-ok (throw_if (not (is_review_id review_id)) randomness_unavailable) _ h_2 in
      let fine = throw_if-eq-ok (not (binding_matches request asset key intent)) _ matched in
      let ahead = live_until-eq-ok (parse_date intent.expires_at) now until live in
      let (alive, brief) = review_of-lives intent review_id until now ahead in
      let same : record { review = review_of intent review_id until now; intent = intent }
          ≡ stored =
        cc in
      rw⁻¹ same (record {
        asset = asset;
        listed = listed;
        revision = revision;
        same_asset = (===_iff intent.operational_asset_id (asset_id_of request)).0 (ground arith);
        same_revision = (===_iff intent.asset_revision (revision_of request)).0 (ground arith);
        same_name = (===_iff intent.market_hash_name asset.market_hash_name).0 (ground arith);
        same_key = (===_iff intent.idempotency_key key).0 (ground arith);
        means_same = MeansSame-of request asset intent able (ground arith) (ground arith);
        shows = review_of-Shows intent review_id until now;
        alive = alive;
        brief = brief;
      })

  -- A review that is prepared is bound to a request that was accepted and to the first listed asset
  -- of its id, at the asked revision. Its intent has the key of this call, the asked action, price
  -- or listing, and the asset's name. A new listing is of an eligible asset, and a listing to take
  -- back is the asset's active one. The review shows the intent's terms, and lives on for at most
  -- two minutes.
  pub prepare-IsBound :
      (raw : Fields) (eligible : Checked Js) (key : Text) (answer : Checked Js) (review_id : Text)
      (now : ℕ) (stored : StoredReview)
      → prepare parse_date raw eligible key answer review_id now ≡ ok stored
      → (request : PrepareRequest) × (value : Js) × (assets : List EligibleAsset)
        × (validate_prepare_request raw ≡ ok request)
        × (eligible ≡ ok value)
        × (parse_eligibility_response parse_date value ≡ ok assets)
        × IsBound request assets key now stored
  unfolding prepare
  prepare-IsBound raw eligible key answer review_id now stored h =
      let (request, valid, h_1) = >>=-eq-ok (validate_prepare_request raw) _ h in
      let (value, given, h_2) = >>=-eq-ok eligible _ h_1 in
      let (assets, parsed, h_3) = >>=-eq-ok (parse_eligibility_response parse_date value) _ h_2 in
      let (asset, chosen, h_4) = >>=-eq-ok (choose_asset request assets key) _ h_3 in
      let (reply, replied, h_5) = >>=-eq-ok answer _ h_4 in
      let (intent, read, h_6) =
        >>=-eq-ok (parse_intent_response parse_date reply)
          (finish_prepare parse_date request asset key review_id now) h_5 in
      (
        request,
        value,
        assets,
        valid,
        given,
        parsed,
        finish_prepare-IsBound request assets asset key review_id now intent stored chosen h_6,
      )
