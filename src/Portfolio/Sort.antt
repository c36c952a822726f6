-- ===== src/Portfolio/Sort.antt =====
-- shared/portfolio-dto.ts: `sortPortfolioSnapshot`.
use Prim.Native.Nat.{Ordering}
use mathlib.Core.List.{Perm}
use csboard_extension.Prelude.{Option, ◌≡◌, refl, false}
use csboard_extension.Prelude.Int.{◌<ℤ◌}
use csboard_extension.Prelude.Text.{Text}
use csboard_extension.Shared.Result.{ok, ◌>>◌}
use csboard_extension.Gateway.Error.{Checked}
use csboard_extension.Portfolio.Records.{Item, Trade, Offer, Snapshot}
use csboard_extension.Portfolio.Json.{direction_text}
use csboard_extension.Portfolio.Fields.{Url}
use csboard_extension.Portfolio.Checks.{assert_portfolio_snapshot}
use csboard_extension.Portfolio.Order.{compare_text, compare_ℤ, then_by, is_lt, sort}
use csboard_extension.Portfolio.Order.Sorting.{
  Flips, then_by-Flips, compare_text-Flips, compare_ℤ-Flips, asymmetric_of_Flips, sort-perm,
  sort-IsAscending,
}
use csboard_extension.Portfolio.Order.Lexical.{
  Then, IsTextBelow, IsTextUpTo, first_key, last_key, compare_text-Says, compare_ℤ-Says, IsStepwise,
  IsStepwise-of_ascending,
}

abbrev pub item_order : Item → Item → Ordering
item_order left right =
    then_by (compare_text left.context_id right.context_id)
      (compare_text left.asset_id right.asset_id)

abbrev pub trade_order : Trade → Trade → Ordering
trade_order left right =
    then_by (compare_ℤ left.occurred_at right.occurred_at)
      (compare_text left.trade_id right.trade_id)

abbrev pub offer_order : Offer → Offer → Ordering
offer_order left right = then_by (compare_ℤ left.created_at right.created_at) (
    then_by (compare_text (direction_text left.direction) (direction_text right.direction))
      (compare_text left.offer_id right.offer_id))

unfoldable pub sorted_snapshot : Snapshot → Snapshot
sorted_snapshot s = record s {
  inventory_items = sort item_order s.inventory_items;
  trades = sort trade_order s.trades;
  offers = sort offer_order s.offers;
}

unfoldable pub sort_portfolio_snapshot : (Text → Option Url) → Snapshot → Checked Snapshot
sort_portfolio_snapshot parse_url s =
    assert_portfolio_snapshot parse_url s >> ok (sorted_snapshot s)

item_order-Flips : (x y : Item) → Flips (item_order x y) (item_order y x)
item_order-Flips x y =
    then_by-Flips _ _ _ _ (compare_text-Flips x.context_id y.context_id)
      (compare_text-Flips x.asset_id y.asset_id)

trade_order-Flips : (x y : Trade) → Flips (trade_order x y) (trade_order y x)
trade_order-Flips x y =
    then_by-Flips _ _ _ _ (compare_ℤ-Flips x.occurred_at y.occurred_at)
      (compare_text-Flips x.trade_id y.trade_id)

offer_order-Flips : (x y : Offer) → Flips (offer_order x y) (offer_order y x)
offer_order-Flips x y = then_by-Flips _ _ _ _ (compare_ℤ-Flips x.created_at y.created_at) (
    then_by-Flips _ _ _ _
      (compare_text-Flips (direction_text x.direction) (direction_text y.direction))
      (compare_text-Flips x.offer_id y.offer_id))

-- By context, and in one context by asset.
abbrev pub ItemUpTo : Item → Item → Type 0
ItemUpTo x y =
    Then (IsTextBelow x.context_id y.context_id) (x.context_id ≡ y.context_id)
      (IsTextUpTo x.asset_id y.asset_id)

-- By time, and at one time by id.
abbrev pub TradeUpTo : Trade → Trade → Type 0
TradeUpTo x y =
    Then (x.occurred_at <ℤ y.occurred_at) (x.occurred_at ≡ y.occurred_at)
      (IsTextUpTo x.trade_id y.trade_id)

-- By time, then by direction, then by id.
abbrev pub OfferUpTo : Offer → Offer → Type 0
OfferUpTo x y = Then (x.created_at <ℤ y.created_at) (x.created_at ≡ y.created_at) (
    Then (IsTextBelow (direction_text x.direction) (direction_text y.direction))
      (direction_text x.direction ≡ direction_text y.direction) (IsTextUpTo x.offer_id y.offer_id))

item_order-ItemUpTo : (x y : Item) → is_lt (item_order y x) ≡ false → ItemUpTo x y
item_order-ItemUpTo x y =
    first_key (compare_text y.context_id x.context_id) (compare_text y.asset_id x.asset_id)
      (compare_text-Says x.context_id y.context_id)
      (last_key (compare_text y.asset_id x.asset_id) (compare_text-Says x.asset_id y.asset_id))

trade_order-TradeUpTo : (x y : Trade) → is_lt (trade_order y x) ≡ false → TradeUpTo x y
trade_order-TradeUpTo x y =
    first_key (compare_ℤ y.occurred_at x.occurred_at) (compare_text y.trade_id x.trade_id)
      (compare_ℤ-Says x.occurred_at y.occurred_at)
      (last_key (compare_text y.trade_id x.trade_id) (compare_text-Says x.trade_id y.trade_id))

offer_order-OfferUpTo : (x y : Offer) → is_lt (offer_order y x) ≡ false → OfferUpTo x y
offer_order-OfferUpTo x y =
    let from : Text = direction_text x.direction in
    let to : Text = direction_text y.direction in
    first_key (compare_ℤ y.created_at x.created_at)
      (then_by (compare_text to from) (compare_text y.offer_id x.offer_id))
      (compare_ℤ-Says x.created_at y.created_at)
      (first_key (compare_text to from) (compare_text y.offer_id x.offer_id)
        (compare_text-Says from to)
        (last_key (compare_text y.offer_id x.offer_id) (compare_text-Says x.offer_id y.offer_id)))

-- The same records, each no later in its order than the next, and the rest of the snapshot as it was.
pub record IsSortOf (s t : Snapshot) : Type 0 where
  pub same_items : Perm t.inventory_items s.inventory_items
  pub same_trades : Perm t.trades s.trades
  pub same_offers : Perm t.offers s.offers
  pub items : IsStepwise ItemUpTo t.inventory_items
  pub trades : IsStepwise TradeUpTo t.trades
  pub offers : IsStepwise OfferUpTo t.offers
  pub rest :
      t ≡ record s { inventory_items = t.inventory_items; trades = t.trades; offers = t.offers }

-- The sorted snapshot has the same items, trades and offers, each of them no later than the next:
-- items by context and then asset, trades by time and then id, offers by time, then direction, then
-- id, with texts as in a dictionary of code units.
pub sorted_snapshot-IsSortOf : (s : Snapshot) → IsSortOf s (sorted_snapshot s)
unfolding sorted_snapshot
sorted_snapshot-IsSortOf s = record {
  same_items = sort-perm item_order s.inventory_items;
  same_trades = sort-perm trade_order s.trades;
  same_offers = sort-perm offer_order s.offers;
  items =
      IsStepwise-of_ascending item_order ItemUpTo item_order-ItemUpTo
        (sort item_order s.inventory_items)
        (sort-IsAscending item_order (λ x y. asymmetric_of_Flips _ _ (item_order-Flips x y))
          s.inventory_items);
  trades =
      IsStepwise-of_ascending trade_order TradeUpTo trade_order-TradeUpTo
        (sort trade_order s.trades)
        (sort-IsAscending trade_order (λ x y. asymmetric_of_Flips _ _ (trade_order-Flips x y))
          s.trades);
  offers =
      IsStepwise-of_ascending offer_order OfferUpTo offer_order-OfferUpTo
        (sort offer_order s.offers)
        (sort-IsAscending offer_order (λ x y. asymmetric_of_Flips _ _ (offer_order-Flips x y))
          s.offers);
  rest = refl;
}
