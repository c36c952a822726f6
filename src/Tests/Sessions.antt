-- ===== src/Tests/Sessions.antt =====
-- background/steam-read-session-provider.ts: an inventory of two pages, two offers, and a token that is
-- offered, used and replaced.
use Prim.Native.String.{String}
use csboard_extension.Prelude.{
  ℕ, suc, ◌≡◌, ◌≤◌, ◌↔◌, refl, true, false, ◌||◌, Option, none, some, List, [], ◌∷◌, length, concat,
  all, if◌then◌else◌,
}
use csboard_extension.Prelude.Int.{pos, is_safe_integer}
use csboard_extension.Prelude.Text.{Text, codes, ◌===◌, is_digit, is_run_of}
use csboard_extension.Shared.Result.{ok}
use csboard_extension.Gateway.Error.{Checked}
use csboard_extension.Gateway.Identity.{decimal}
use csboard_extension.Gateway.Payload.{
  Number, int, non_finite, Js, num, str, bool, arr, obj, cons, nil, Fields, end, field,
}
use csboard_extension.Client.Body.{lookup}
use csboard_extension.Portfolio.Records.{Item, received}
use csboard_extension.Portfolio.Collector.Trades.{OffersRead}
use csboard_extension.Session.Values.{
  Language, required_digits, optional_integer, tradable_after_from_owner_descriptions,
  marketplace_hint_from_offer_message, optional_positive_timestamp,
}
use csboard_extension.Session.Items.{
  ResolvedUrl, build_description_map, described, normalize_icon_url, normalize_market_name,
  normalize_trade_items,
}
use csboard_extension.Session.Assets.{AssetProperties, inventory_item, tradable_after}
use csboard_extension.Session.Inventory.{
  build_asset_properties_map, has_more_items, next_start, read_inventory_context,
}
use csboard_extension.Session.Inventory.Whole.{Chain, read_inventory_context-Chain}
use csboard_extension.Session.Offers.{normalize_offers, all_accepted_offers, read_trade_offers}
use csboard_extension.Portfolio.Order.{sort}
use csboard_extension.Session.Offers.Newest.{IsNewest, read_trade_offers-IsNewest}
use csboard_extension.Session.Token.{
  PageResponse, State, offer_access_token, get_access_token, page_answered, page_read, mint_removed,
  started, Reaches, here, later, offered, asked, answered, read, removed,
}
use csboard_extension.Session.Token.Own.{IsOwn, Reaches-IsOwn}

abbrev number_in : Js → Number
number_in (bool true) = int (pos 1)
number_in (bool false) = int (pos 0)
number_in (num n) = n
number_in (str s) = if all is_digit s then int (pos (decimal s)) else non_finite
number_in value = non_finite

-- The texts are in lower case, and no number is printed.
abbrev language : Language
language = record { number_text = λ n. []; numeric = number_in; lower_case = λ s. s }

abbrev no_url : Text → Option ResolvedUrl
no_url s = none

abbrev no_properties : Option Fields → AssetProperties
no_properties property = record {
  float_value = none;
  paint_seed = none;
  def_index = none;
  paint_index = none;
}

abbrev descriptions : Js
descriptions = arr (
    cons
      (obj (
        field (codes "classid") (str (codes "11"))
          (field (codes "market_hash_name") (str (codes "AWP")) end)))
      nil)

abbrev assets : String → Js
assets id = arr (
    cons
      (obj
        (field (codes "assetid") (str (codes id)) (field (codes "classid") (str (codes "11")) end)))
      nil)

abbrev first_answer : Fields
first_answer = field (codes "descriptions") descriptions (
    field (codes "assets") (assets "5")
      (field (codes "more_items") (bool true) (field (codes "last_assetid") (str (codes "5")) end)))

abbrev last_answer : Fields
last_answer = field (codes "descriptions") descriptions (field (codes "assets") (assets "6") end)

-- The state counts the requests.
abbrev fetch : Option Text → ℕ → Checked Fields × ℕ
fetch none n = (ok first_answer, suc n)
fetch (some start) n = (ok last_answer, suc n)

abbrev item : String → Item
item id = record {
  app_id = codes "730";
  context_id = codes "2";
  asset_id = codes id;
  class_id = codes "11";
  instance_id = codes "0";
  amount = codes "1";
  market_hash_name = codes "AWP";
  name = none;
  icon_url = none;
  tradable = false;
  marketable = false;
  on_hold = false;
  tradable_after = none;
  float_value = none;
  paint_seed = none;
  paint_index = none;
  def_index = none;
  stickers = none;
}

abbrev two_items : List Item
two_items = item "5" ∷ item "6" ∷ []

two_pages :
    read_inventory_context language no_url no_properties (codes "2") 1000 fetch 0
    ≡ (ok (record { complete = true; items = two_items }), 2)
unfolding read_inventory_context ◌===◌ build_description_map lookup build_asset_properties_map
    inventory_item required_digits is_run_of described normalize_icon_url normalize_market_name
    has_more_items next_start tradable_after optional_integer tradable_after_from_owner_descriptions
two_pages = refl

read_inventory_context-Chain_example :
    (read_inventory_context language no_url no_properties (codes "2") 1000 fetch 0
      ≡ (ok (record { complete = true; items = two_items }), 2))
    ↔ (((codes "2" === codes "2" || codes "2" === codes "16") ≡ true)
        × ((pages : List (List Item)) × Chain language no_url no_properties
              (codes "2")
              1000
              fetch
              none
              0
              pages
              2
            × (length pages ≤ 20)
            × (concat pages ≡ two_items)))
read_inventory_context-Chain_example =
    read_inventory_context-Chain language no_url no_properties (codes "2") 1000 fetch 0 2 two_items

abbrev raw_offer : ℕ → Js
raw_offer state = obj (
    field (codes "trade_offer_state") (num (int (pos state))) (
      field (codes "time_created") (num (int (pos 50))) (
        field (codes "tradeofferid") (str (codes "900"))
          (field (codes "accountid_other") (str (codes "42")) end))))

-- A received offer that is still open, and one that was accepted.
abbrev offers_answer : Fields
offers_answer =
    field (codes "trade_offers_received") (arr (cons (raw_offer 2) (cons (raw_offer 3) nil))) end

abbrev offers_read : OffersRead
offers_read = record {
  offers =
      record {
        offer_id = codes "900";
        direction = received;
        partner_account_id = codes "42";
        state = pos 3;
        created_at = pos 50;
        completed_trade_id = none;
        marketplace_hint = none;
        expires_at = none;
        escrow_end_at = none;
        items_to_give = [];
        items_to_receive = [];
      }
      ∷ [];
  truncated = false;
}

one_offer : read_trade_offers language no_url (ok offers_answer) ≡ ok offers_read
unfolding read_trade_offers all_accepted_offers build_description_map lookup ◌===◌ normalize_offers
    optional_integer is_safe_integer required_digits is_run_of normalize_trade_items sort
    marketplace_hint_from_offer_message optional_positive_timestamp
one_offer = refl

abbrev reply : Checked Fields
reply = ok offers_answer

read_trade_offers-IsNewest_example :
    (response : Fields) × (reply ≡ ok response) × IsNewest language no_url response offers_read
read_trade_offers-IsNewest_example =
    read_trade_offers-IsNewest language no_url reply offers_read one_offer

abbrev own_id : Text
own_id = codes "76561198000000000"

abbrev offered_once : State
offered_once = offer_access_token own_id (codes "token-0123456789") own_id 1000 started

abbrev used_once : State
used_once = get_access_token false 61000 offered_once

-- After an hour and ten minutes the token is fetched from the page.
abbrev asked_again : State
asked_again = get_access_token false 4201000 used_once

abbrev page : Checked PageResponse
page = ok (record { is_ok = true; origin = some (codes "https://steamcommunity.com") })

abbrev html : Text
html = codes "g_steamID = \"76561198000000000\"; data-loyalty_webapi_token=\"token-9876543210\""

abbrev minted_again : State
minted_again = page_read own_id (ok html) 4201500 (page_answered page asked_again)

abbrev handed_on : State
handed_on = mint_removed (ok (codes "token-9876543210")) minted_again

token_run : Reaches own_id handed_on
unfolding offer_access_token get_access_token page_read mint_removed ◌===◌
token_run =
    later
      (later
        (later
          (later
            (later (later here (offered (codes "token-0123456789") own_id 1000))
              (asked false 61000))
            (asked false 4201000))
          (answered page refl))
        (read (ok html) 4201500 refl))
      (removed (ok (codes "token-9876543210")) refl)

Reaches-IsOwn_example : IsOwn own_id handed_on.log
Reaches-IsOwn_example = Reaches-IsOwn own_id handed_on token_run
