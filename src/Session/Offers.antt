-- ===== src/Session/Offers.antt =====
-- background/steam-read-session-provider.ts: `fetchSteamApi`, `readRecentTrades` and `readTradeOffers`,
-- over what Steam answers. Of the icons and colours of the trades, which only serve the display, it is
-- kept that a malformed icon fails the read.
pub mod Newest
use Prim.Native.Nat.{compare, Ordering}
use csboard_extension.Prelude.{
  ℕ, zero, suc, Bool, true, false, not, ◌&&◌, ◌||◌, Option, none, some, List, [], ◌∷◌, ◌++◌, leb,
  ltb, ◌==◌, length, if◌then◌else◌,
}
use csboard_extension.Prelude.Int.{ℤ, pos, is_safe_integer, leb_ℤ, ltb_ℤ}
use csboard_extension.Prelude.Text.{Text, codes, includes, is_digit, is_run_of}
use csboard_extension.Shared.Result.{Result, ok, err, ◌>>=◌, ◌>>◌, throw_if}
use csboard_extension.Gateway.Error.{Checked, invalid, invalid_at_path, require}
use csboard_extension.Gateway.Identity.{assert_steam_id_64}
use csboard_extension.Gateway.Payload.{Js, str, Fields}
use csboard_extension.Client.Body.{lookup, is_true}
use csboard_extension.Portfolio.Records.{Trade, TradeItem, Direction, sent, received, Offer}
use csboard_extension.Portfolio.Json.{direction_text}
use csboard_extension.Portfolio.Order.{compare_ℤ, compare_text, then_by, sort}
use csboard_extension.Portfolio.Fields.{max_offers_per_run}
use csboard_extension.Portfolio.Collector.Trades.{
  TradeCursor, TradesReadOptions, TradesRead, OffersRead,
}
use csboard_extension.Session.Values.{
  Language, as_record, as_array, optional_string, required_digits, optional_integer,
  optional_positive_timestamp, marketplace_hint_from_offer_message, is_one,
}
use csboard_extension.Session.Items.{
  DescriptionMap, ResolvedUrl, build_description_map, normalize_icon_url, normalize_trade_items,
}

-- An answer of the API, whose body may fail to be read or parsed.
pub record ApiResponse : Type 0 where
  pub status : ℕ
  pub is_ok : Bool
  pub body : Checked Js

abbrev read_response_root : Js → Checked Fields
read_response_root value = as_record value >>= (λ root. as_record (lookup (codes "response") root))

abbrev last_answer : ApiResponse → Checked Fields
last_answer response =
    throw_if (not response.is_ok) (invalid "steam-read-failed")
    >> (response.body >>= read_response_root)

abbrev is_auth_failure : ApiResponse → Bool
is_auth_failure response = response.status == 401 || response.status == 403

-- The second attempt is made only where the first was refused.
abbrev after_first : ApiResponse → Checked Fields → Checked Fields
after_first response again = if is_auth_failure response then again else last_answer response

-- The two attempts: the token and the answer of each, and the refresh between them.
unfoldable pub fetch_steam_api :
    (first_token : Checked Text) (first : Checked ApiResponse) (refreshed : Checked (Unit {0}))
    (second_token : Checked Text) (second : Checked ApiResponse)
    → Checked Fields
fetch_steam_api first_token first refreshed second_token second = do
  _ ← first_token
  response ← first
  after_first response (refreshed >> (second_token >>= (λ _. second >>= last_answer)))

abbrev pub positive_of : Option ℕ → Checked ℕ
positive_of none = err invalid_at_path
positive_of (some zero) = err invalid_at_path
positive_of (some (suc n)) = ok (suc n)

abbrev seconds_of : Option ℕ → Option ℤ
seconds_of none = none
seconds_of (some n) = some (pos n)

unfoldable pub compare_digit_strings_descending : Text → Text → Ordering
compare_digit_strings_descending left right =
    then_by (compare (length right) (length left)) (compare_text right left)

-- The latest offer first.
unfoldable pub newest_offer_first : Offer → Offer → Ordering
newest_offer_first left right = then_by (compare_ℤ right.created_at left.created_at) (
    then_by (compare_digit_strings_descending left.offer_id right.offer_id)
      (compare_text (direction_text left.direction) (direction_text right.direction)))

module _ {ℓ} {A : Type ℓ} where
  -- `slice(0, n)`
  unfoldable pub take : ℕ → List A → List A
  take zero xs = []
  take (suc n) [] = []
  take (suc n) (x ∷ xs) = x ∷ take n xs

module _ (language : Language) (resolve : Text → Option ResolvedUrl) where
  abbrev items_in : DescriptionMap → Bool → Text → Fields → Checked (List TradeItem)
  items_in descriptions is_received key fields =
      normalize_trade_items language resolve descriptions is_received (as_array (lookup key fields))

  -- `completedTradeId`: absent, or digits.
  abbrev completed_id : Option Text → Checked (Option Text)
  completed_id none = ok none
  completed_id (some id) = required_digits language (str id) 32 >>= (λ digits. ok (some digits))

  accepted_offer : DescriptionMap → Direction → ℕ → Fields → Checked Offer
  accepted_offer descriptions direction state offer = do
    created_at ← positive_of (optional_integer language (lookup (codes "time_created") offer))
    offer_id ← required_digits language (lookup (codes "tradeofferid") offer) 32
    partner ← required_digits language (lookup (codes "accountid_other") offer) 12
    completed ← completed_id (optional_string language (lookup (codes "tradeid") offer) 32)
    given ← items_in descriptions false (codes "items_to_give") offer
    taken ← items_in descriptions true (codes "items_to_receive") offer
    ok (record {
      offer_id = offer_id;
      direction = direction;
      partner_account_id = partner;
      state = pos state;
      created_at = pos created_at;
      completed_trade_id = completed;
      marketplace_hint =
          marketplace_hint_from_offer_message language (lookup (codes "message") offer);
      expires_at =
          seconds_of
            (optional_positive_timestamp language (lookup (codes "expiration_time") offer));
      escrow_end_at =
          seconds_of
            (optional_positive_timestamp language (lookup (codes "escrow_end_date") offer));
      items_to_give = given;
      items_to_receive = taken;
    })

  abbrev pub state_of : Js → Checked ℕ
  state_of value = do
    offer ← as_record value
    state ← positive_of (optional_integer language (lookup (codes "trade_offer_state") offer))
    throw_if (ltb 32 state) invalid_at_path
    ok state

  abbrev pub with_offer : Checked Offer → List Offer → Checked (List Offer)
  with_offer offer offers = offer >>= (λ o. ok (o ∷ offers))

  abbrev pub kept : Bool → Checked Offer → List Offer → Checked (List Offer)
  kept true offer offers = with_offer offer offers
  kept false offer offers = ok offers

  -- An offer whose state is not 3, accepted, is not looked into.
  unfoldable pub normalize_offers : DescriptionMap → Direction → List Js → Checked (List Offer)
  unfolding accepted_offer
  normalize_offers descriptions direction [] = ok []
  normalize_offers descriptions direction (value ∷ values) = do
    state ← state_of value
    offer ← as_record value
    offers ← normalize_offers descriptions direction values
    kept (state == 3) (accepted_offer descriptions direction state offer) offers

  unfoldable pub all_accepted_offers : Fields → Checked (List Offer)
  all_accepted_offers response = do
    descriptions ←
        build_description_map language resolve (as_array (lookup (codes "descriptions") response))
    taken ←
        normalize_offers descriptions received
          (as_array (lookup (codes "trade_offers_received") response))
    given ←
        normalize_offers descriptions sent (as_array (lookup (codes "trade_offers_sent") response))
    ok (taken ++ given)

  abbrev newest_offers : List Offer → OffersRead
  newest_offers offers =
      let normalized = sort newest_offer_first offers in
      record {
        offers = take max_offers_per_run normalized;
        truncated = ltb max_offers_per_run (length normalized);
      }

  unfoldable pub read_trade_offers : Checked Fields → Checked OffersRead
  unfolding take
  read_trade_offers reply = do
    response ← reply
    offers ← all_accepted_offers response
    ok (newest_offers offers)

  unfoldable pub normalize_trade : DescriptionMap → Js → Checked Trade
  normalize_trade descriptions value = do
    trade ← as_record value
    partner ← required_digits language (lookup (codes "steamid_other") trade) 20
    assert_steam_id_64 partner
    occurred_at ← positive_of (optional_integer language (lookup (codes "time_init") trade))
    trade_id ← required_digits language (lookup (codes "tradeid") trade) 32
    given ← items_in descriptions false (codes "assets_given") trade
    taken ← items_in descriptions true (codes "assets_received") trade
    ok (record {
      trade_id = trade_id;
      partner_steam_id = partner;
      occurred_at = pos occurred_at;
      items_given = given;
      items_received = taken;
    })

  unfoldable pub normalize_trades : DescriptionMap → List Js → Checked (List Trade)
  normalize_trades descriptions [] = ok []
  normalize_trades descriptions (value ∷ values) = do
    trade ← normalize_trade descriptions value
    trades ← normalize_trades descriptions values
    ok (trade ∷ trades)

  -- The icons of all descriptions but those that a later one replaced.
  unfoldable pub icons_checked : List Text → DescriptionMap → Checked (Unit {0})
  icons_checked seen [] = ok tt
  icons_checked seen ((key, description) ∷ map) =
      let rest = icons_checked (key ∷ seen) map in
      if includes seen key
      then rest
      else (normalize_icon_url language resolve (lookup (codes "icon_url") description)
          >>= (λ _. rest))

  abbrev is_cursor : Option TradeCursor → Bool
  is_cursor none = true
  is_cursor (some cursor) =
      is_safe_integer cursor.start_after_time
      && ltb_ℤ (pos 0) cursor.start_after_time
      && leb_ℤ cursor.start_after_time (pos 0xffff_ffff)
      && is_run_of is_digit 1 20 cursor.start_after_trade_id

  abbrev is_more : Js → Bool
  is_more value = is_true value || is_one language value

  -- `fetch` answers to the request with these numbers; Steam may give more trades than were asked
  -- for.
  unfoldable pub read_recent_trades :
      (max_trades : ℕ) → TradesReadOptions → Checked Fields → Checked TradesRead
  unfolding normalize_trades take is_safe_integer icons_checked
  read_recent_trades max_trades options reply = do
    throw_if (not (leb 1 max_trades && leb max_trades 100)) invalid_at_path
    throw_if (not (is_cursor options.cursor)) invalid_at_path
    response ← reply
    descriptions ←
        build_description_map language resolve (as_array (lookup (codes "descriptions") response))
    trades ← normalize_trades descriptions (as_array (lookup (codes "trades") response))
    icons_checked [] descriptions
    ok (record {
      trades = take max_trades trades;
      has_more = is_more (lookup (codes "more") response);
      total_trades =
          seconds_of (optional_integer language (lookup (codes "total_trades") response));
    })
