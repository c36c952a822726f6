-- ===== src/Portfolio/Checks.antt =====
-- shared/portfolio-dto.ts: the checks of a snapshot (`assertPortfolioSnapshot`). The URL parser is
-- the browser's, and a parameter. Directions, hints and sources have their declared types, so the
-- checks of these have nothing left to find.
pub mod Sound
use csboard_extension.Prelude.{
  ℕ, zero, suc, ◌*◌, ◌^◌, ◌+◌, ◌++◌, Bool, true, false, not, ◌&&◌, ◌||◌, Option, none, some, List,
  [], ◌∷◌, map, leb, ltb, ◌==◌, length, all,
}
use csboard_extension.Prelude.Int.{ℤ, pos, negsuc, ltb_ℤ, is_safe_integer}
use csboard_extension.Prelude.Text.{
  Text, codes, ◌===◌, includes, is_digit, is_base64url, is_run_of, starts_with,
}
use csboard_extension.Prelude.Pattern.{is_space}
use csboard_extension.Shared.Result.{ok, err, ◌>>◌, throw_if, in_order}
use csboard_extension.Gateway.Error.{
  GatewayPayloadError, Checked, invalid, invalid_at_path, too_large, require,
}
use csboard_extension.Gateway.Identity.{decimal, assert_steam_id_64}
use csboard_extension.Gateway.Payload.{
  Number, int, fraction, non_finite, assert_safe_gateway_payload,
}
use csboard_extension.Portfolio.Records.{Sticker, Item, TradeItem, Trade, Offer, Sources, Snapshot}
use csboard_extension.Portfolio.Fields.{
  max_inventory_items_per_run, max_trades_per_run, max_offers_per_run, Url, assert_identifier,
  assert_quantity, assert_timestamp, assert_steam_account_id, if_present, for_each, is_bad_name,
  is_unit_interval, is_zero, in_range, assert_sticker, economy_image, icon_origins, assert_stickers,
}
use csboard_extension.Portfolio.Json.{snapshot_js, direction_text}

module _ (parse_url : Text → Option Url) where
  unfoldable pub assert_steam_icon_url : Text → Checked (Unit {0})
  assert_steam_icon_url value = elim (parse_url value) [
    | none ↦ err invalid_at_path
    | some url ↦
        throw_if
          (not (includes icon_origins url.origin) || not (starts_with economy_image url.pathname))
          invalid_at_path
  ]

  -- `if (item.iconUrl)` passes over an empty text.
  abbrev pub assert_truthy_icon : Option Text → Checked (Unit {0})
  assert_truthy_icon none = ok tt
  assert_truthy_icon (some []) = ok tt
  assert_truthy_icon (some (c ∷ s)) = assert_steam_icon_url (c ∷ s)

  abbrev pub trade_item_checks : TradeItem → List (Checked (Unit {0}))
  trade_item_checks item =
      require (item.app_id === codes "730") invalid_at_path
      ∷ assert_identifier item.asset_id
      ∷ assert_identifier item.class_id
      ∷ assert_identifier item.instance_id
      ∷ assert_quantity item.amount
      ∷ require (is_run_of is_digit 1 4 item.context_id) invalid_at_path
      ∷ if_present item.market_hash_name (λ name. throw_if (is_bad_name 240 name) invalid_at_path)
      ∷ if_present item.icon_url assert_steam_icon_url
      ∷ []

  unfoldable pub assert_trade_item : TradeItem → Checked (Unit {0})
  assert_trade_item item = in_order (trade_item_checks item)

  abbrev pub inventory_item_checks : Item → List (Checked (Unit {0}))
  inventory_item_checks item =
      throw_if
        (not (item.app_id === codes "730")
          || (not (item.context_id === codes "2") && not (item.context_id === codes "16")))
        invalid_at_path
      ∷ assert_identifier item.asset_id
      ∷ assert_identifier item.class_id
      ∷ assert_identifier item.instance_id
      ∷ assert_quantity item.amount
      ∷ throw_if (is_bad_name 240 item.market_hash_name) invalid_at_path
      ∷ if_present item.name (λ name. throw_if (is_bad_name 240 name) invalid_at_path)
      ∷ assert_truthy_icon item.icon_url
      ∷ if_present item.tradable_after assert_timestamp
      ∷ if_present item.float_value (λ value. require (is_unit_interval value) invalid_at_path)
      ∷ if_present item.paint_seed (in_range 1000)
      ∷ if_present item.paint_index (in_range 1_000_000)
      ∷ if_present item.def_index (in_range 1_000_000)
      ∷ assert_stickers item.stickers
      ∷ []

  unfoldable pub assert_inventory_item : Item → Checked (Unit {0})
  assert_inventory_item item = in_order (inventory_item_checks item)

  abbrev pub trade_checks : Trade → List (Checked (Unit {0}))
  trade_checks trade =
      assert_identifier trade.trade_id
      ∷ assert_steam_id_64 trade.partner_steam_id
      ∷ assert_timestamp trade.occurred_at
      ∷ throw_if
          (is_zero trade.occurred_at
            || ltb 200 (length trade.items_given)
            || ltb 200 (length trade.items_received))
          invalid_at_path
      ∷ for_each trade.items_given assert_trade_item
      ∷ for_each trade.items_received assert_trade_item
      ∷ []

  unfoldable pub assert_trade : Trade → Checked (Unit {0})
  assert_trade trade = in_order (trade_checks trade)

  abbrev pub offer_checks : Offer → List (Checked (Unit {0}))
  offer_checks offer =
      assert_identifier offer.offer_id
      ∷ assert_steam_account_id offer.partner_account_id
      ∷ throw_if (ltb_ℤ offer.state (pos 3) || ltb_ℤ (pos 3) offer.state) invalid_at_path
      ∷ assert_timestamp offer.created_at
      ∷ if_present offer.completed_trade_id assert_identifier
      ∷ throw_if
          (is_zero offer.created_at
            || ltb 200 (length offer.items_to_give)
            || ltb 200 (length offer.items_to_receive))
          invalid_at_path
      ∷ if_present offer.expires_at assert_timestamp
      ∷ if_present offer.escrow_end_at assert_timestamp
      ∷ for_each offer.items_to_give assert_trade_item
      ∷ for_each offer.items_to_receive assert_trade_item
      ∷ []

  unfoldable pub assert_offer : Offer → Checked (Unit {0})
  assert_offer offer = in_order (offer_checks offer)

unfoldable pub portfolio_asset_identity : Item → Text
portfolio_asset_identity item = item.app_id ++ b':' ∷ (item.context_id ++ b':' ∷ item.asset_id)

unfoldable pub offer_key : Offer → Text
offer_key offer = direction_text offer.direction ++ b':' ∷ offer.offer_id

-- A loop that checks each entry and then that its key was not seen before.
module _ {ℓ} {A : Type ℓ} (check : A → Checked (Unit {0})) (key : A → Text)
    (duplicate : GatewayPayloadError) where
  unfoldable pub check_distinct : List Text → List A → Checked (Unit {0})
  check_distinct seen [] = ok tt
  check_distinct seen (x ∷ xs) =
      check x >> throw_if (includes seen (key x)) duplicate >> check_distinct (key x ∷ seen) xs

abbrev pub some_source : Option Sources → Checked (Unit {0})
some_source none = ok tt
some_source (some s) = require (s.inventory || s.trade_history || s.trade_offers) invalid_at_path

unfoldable pub exceeds_run_limits : Snapshot → Bool
exceeds_run_limits s =
    ltb max_inventory_items_per_run (length s.inventory_items)
    || ltb max_trades_per_run (length s.trades)
    || ltb max_offers_per_run (length s.offers)

module _ (parse_url : Text → Option Url) where
  unfoldable pub snapshot_checks : Snapshot → List (Checked (Unit {0}))
  snapshot_checks s =
      assert_safe_gateway_payload (snapshot_js s)
      ∷ require (s.kind === codes "portfolio.snapshot.v1") invalid_at_path
      ∷ assert_steam_id_64 s.steam_id
      ∷ assert_timestamp s.captured_at
      ∷ require (is_run_of is_base64url 22 86 s.sync_run_id) invalid_at_path
      ∷ some_source s.sources
      ∷ throw_if (exceeds_run_limits s) (too_large "sync-run-record-limit")
      ∷ check_distinct (assert_inventory_item parse_url) portfolio_asset_identity
          (invalid "duplicate-asset-identity") [] s.inventory_items
      ∷ check_distinct (assert_trade parse_url) (λ t. t.trade_id) (invalid "duplicate-trade") []
          s.trades
      ∷ check_distinct (assert_offer parse_url) offer_key (invalid "duplicate-offer") [] s.offers
      ∷ []

  unfoldable pub assert_portfolio_snapshot : Snapshot → Checked (Unit {0})
  unfolding snapshot_checks
  assert_portfolio_snapshot s = in_order (snapshot_checks s)
