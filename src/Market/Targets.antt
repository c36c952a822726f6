-- ===== src/Market/Targets.antt =====
-- shared/market-actions.ts: the price of a sale, from an order book or from what the seller asks.
-- Prices in an order book are integers of minor units, as the parser of the book makes them.
pub mod Prices
pub mod Totals
use Prim.Native.String.{String}
use csboard_extension.Prelude.{
  ℕ, ◌+◌, Bool, true, false, not, ◌||◌, Option, none, some, List, [], ◌∷◌, ltb, if◌then◌else◌,
}
use csboard_extension.Prelude.Int.{ℤ, pos, pos_part, ◌-ℤ◌, ltb_ℤ, is_safe_integer}
use csboard_extension.Market.Floats.{Floats}
use csboard_extension.Market.Fees.{
  FeeSplit, WalletFeeInfo, buyer_pays_for_received, received_for_buyer_pays,
}

abbrev pub min_buyer_price : ℕ
min_buyer_price = 3

pub data SellMode : Type 0 where
  sell quick instant : SellMode

-- The fields of an order book that the price reads.
pub record OrderBook : Type 0 where
  pub highest_buy_order : Option ℤ
  pub lowest_sell_order : Option ℤ
  pub fetched_at : ℕ

pub record SellTarget : Type 0 where
  pub mode : SellMode
  pub buyer_pays : ℕ
  pub split : FeeSplit
  pub basis : String
  pub book_fetched_at : Option ℕ

pub record SellReviewTotals : Type 0 where
  pub item_count : ℕ
  pub received : ℕ
  pub steam_fee : ℕ
  pub publisher_fee : ℕ
  pub fees : ℕ
  pub buyer_pays : ℕ

-- The price that a mode looks for; `sell` is not a mode of the order book.
abbrev pub price_of : SellMode → OrderBook → Option ℤ
price_of instant book = book.highest_buy_order
price_of quick book = below book.lowest_sell_order
  where
    below : Option ℤ → Option ℤ
    below none = none
    below (some price) = some (price -ℤ pos 1)
price_of sell book = none

abbrev pub basis_of : SellMode → String
basis_of instant = "meets the highest buy order"
basis_of quick = "undercuts the cheapest listing by one wallet minor unit"
basis_of sell = "editable price"

module _ (arithmetic : Floats) (wallet : WalletFeeInfo arithmetic) where
  -- What follows the choice of the price.
  unfoldable pub target_at : SellMode → OrderBook → Option ℤ → Option SellTarget
  target_at mode book none = none
  target_at mode book (some price) =
      let split = received_for_buyer_pays arithmetic wallet (pos_part price) in
      if not (is_safe_integer price) || ltb_ℤ price (pos min_buyer_price)
      then none
      else (if ltb split.received 1
          then none
          else some (record {
            mode = mode;
            buyer_pays = split.buyer_pays;
            split = split;
            basis = basis_of mode;
            book_fetched_at = some book.fetched_at;
          }))

  unfoldable pub compute_sell_target : SellMode → OrderBook → Option SellTarget
  compute_sell_target mode book = target_at mode book (price_of mode book)

  unfoldable pub sell_target_from_received : ℤ → Option SellTarget
  sell_target_from_received received =
      let split = buyer_pays_for_received arithmetic wallet received in
      if not (is_safe_integer received)
      then none
      else (if ltb split.received 1 || ltb split.buyer_pays min_buyer_price
          then none
          else some (record {
            mode = sell;
            buyer_pays = split.buyer_pays;
            split = split;
            basis = "editable price";
            book_fetched_at = none;
          }))

abbrev pub no_totals : SellReviewTotals
no_totals = record {
  item_count = 0;
  received = 0;
  steam_fee = 0;
  publisher_fee = 0;
  fees = 0;
  buyer_pays = 0;
}

abbrev pub add_target : SellReviewTotals → SellTarget → SellReviewTotals
add_target total target = record {
  item_count = total.item_count + 1;
  received = total.received + target.split.received;
  steam_fee = total.steam_fee + target.split.steam_fee;
  publisher_fee = total.publisher_fee + target.split.publisher_fee;
  fees = total.fees + target.split.fees;
  buyer_pays = total.buyer_pays + target.split.buyer_pays;
}

-- Array.prototype.reduce with the totals so far.
unfoldable pub add_targets : SellReviewTotals → List SellTarget → SellReviewTotals
add_targets total [] = total
add_targets total (target ∷ targets) = add_targets (add_target total target) targets

unfoldable pub summarize_sell_targets : List SellTarget → SellReviewTotals
summarize_sell_targets targets = add_targets no_totals targets

unfoldable pub has_downward_price_drift : SellTarget → SellTarget → Bool
has_downward_price_drift reviewed current =
    ltb current.buyer_pays reviewed.buyer_pays || ltb current.split.received reviewed.split.received
