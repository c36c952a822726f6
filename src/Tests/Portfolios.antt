-- ===== src/Tests/Portfolios.antt =====
-- A small portfolio, read from a Steam session, checked, sorted and cut.
use csboard_extension.Prelude.{ℕ, ◌+◌, ◌≡◌, refl, true, false, Option, none, some, List, [], ◌∷◌}
use csboard_extension.Prelude.Int.{pos, ◌-ℤ◌, is_safe_integer}
use csboard_extension.Prelude.Text.{Text, codes, ◌===◌, includes, is_run_of}
use csboard_extension.Prelude.Pattern.{test, word}
use csboard_extension.Shared.Result.{ok}
use csboard_extension.Gateway.Error.{Checked}
use csboard_extension.Gateway.Identity.{decimal, is_steam_id_64, assert_steam_id_64}
use csboard_extension.Gateway.Payload.{
  assert_safe_gateway_payload, visit, visit_fields, visit_items, is_forbidden_key,
  is_forbidden_string, forbidden_key_names, forbidden_string_patterns, normalize_key_name,
  visit_number, visit_string, visit_entry,
}
use csboard_extension.Gateway.Payload.Size.{
  byte_length_of_canonical_json, json_bytes, items_bytes, fields_bytes, string_bytes, number_bytes,
}
use csboard_extension.Portfolio.Records.{Item, Trade, Offer, received, Snapshot}
use csboard_extension.Portfolio.Json.{
  items_of, item_js, trade_js, offer_js, completeness_js, snapshot_js, chunk_js,
}
use csboard_extension.Portfolio.Fields.{
  Url, assert_identifier, assert_quantity, assert_timestamp, assert_steam_account_id, is_bad_name,
}
use csboard_extension.Portfolio.Checks.{
  assert_inventory_item, assert_trade, assert_offer, portfolio_asset_identity, offer_key,
  check_distinct, exceeds_run_limits, snapshot_checks, assert_portfolio_snapshot,
}
use csboard_extension.Portfolio.Checks.Sound.{IsSoundSnapshot, assert_portfolio_snapshot_sound}
use csboard_extension.Portfolio.Sort.{sorted_snapshot, IsSortOf, sorted_snapshot-IsSortOf}
use csboard_extension.Portfolio.Records.{Chunk}
use csboard_extension.Portfolio.Order.{compare_text, compare_ℤ, insert, sort}
use csboard_extension.Portfolio.Sort.{sort_portfolio_snapshot}
use csboard_extension.Portfolio.Chunks.{to_chunk, chunk_records, chunk_portfolio_snapshot}
use csboard_extension.Portfolio.Chunks.Whole.{IsChunking, chunk_portfolio_snapshot-IsChunking}
use csboard_extension.Portfolio.Packing.{pack}
use csboard_extension.Portfolio.Packing.Greedy.{IsPacking, pack-IsPacking}

abbrev pub no_url : Text → Option Url
no_url text = none

abbrev pub knife : Item
knife = record {
  app_id = codes "730";
  context_id = codes "2";
  asset_id = codes "31";
  class_id = codes "41";
  instance_id = codes "0";
  amount = codes "1";
  market_hash_name = codes "Navaja Knife";
  name = none;
  icon_url = none;
  tradable = true;
  marketable = true;
  on_hold = false;
  tradable_after = none;
  float_value = none;
  paint_seed = none;
  paint_index = none;
  def_index = none;
  stickers = none;
}

abbrev pub trade_at : Text → ℕ → Trade
trade_at id time = record {
  trade_id = id;
  partner_steam_id = codes "76561198000000001";
  occurred_at = pos time;
  items_given = [];
  items_received = [];
}

abbrev pub gift : Offer
gift = record {
  offer_id = codes "77";
  direction = received;
  partner_account_id = codes "12345";
  state = pos 3;
  created_at = pos 1700000000;
  completed_trade_id = none;
  marketplace_hint = none;
  expires_at = none;
  escrow_end_at = none;
  items_to_give = [];
  items_to_receive = [];
}

unfoldable pub holdings : Snapshot
holdings = record {
  kind = codes "portfolio.snapshot.v1";
  sync_run_id = codes "abcdefghijklmnopqrstuvwx";
  steam_id = codes "76561198000000002";
  captured_at = pos 1700000100;
  sources = some (record { inventory = true; trade_history = true; trade_offers = true });
  completeness = record {
    inventory_context_2 = true;
    inventory_context_16 = true;
    trades = true;
    offers = false;
  };
  inventory_items = knife ∷ record knife { context_id = codes "16" } ∷ [];
  trades = trade_at (codes "9") 1700000050 ∷ trade_at (codes "8") 1700000040 ∷ [];
  offers = gift ∷ [];
}

pub holdings_pass : assert_portfolio_snapshot no_url holdings ≡ ok tt
unfolding holdings assert_portfolio_snapshot snapshot_checks check_distinct exceeds_run_limits
    assert_inventory_item assert_trade assert_offer portfolio_asset_identity offer_key is_bad_name
    assert_identifier assert_quantity assert_timestamp assert_steam_account_id decimal
    is_steam_id_64 assert_steam_id_64 items_of item_js trade_js offer_js completeness_js snapshot_js
    assert_safe_gateway_payload is_forbidden_key is_forbidden_string forbidden_key_names
    forbidden_string_patterns normalize_key_name visit_number visit_string visit_entry word visit
    visit_fields visit_items ◌===◌ includes is_run_of test is_safe_integer ◌-ℤ◌
holdings_pass = refl

assert_portfolio_snapshot_sound_example : IsSoundSnapshot holdings
assert_portfolio_snapshot_sound_example =
    assert_portfolio_snapshot_sound no_url holdings holdings_pass

sorted_snapshot-IsSortOf_example : IsSortOf holdings (sorted_snapshot holdings)
sorted_snapshot-IsSortOf_example = sorted_snapshot-IsSortOf holdings

-- Groups whose size is the sum of their numbers.
abbrev sum_of : List ℕ → ℕ
sum_of [] = 0
sum_of (n ∷ ns) = n + sum_of ns

abbrev measured : ℕ → List ℕ → Checked ℕ
measured place group = ok (sum_of group)

packed :
    pack measured 10 (4 ∷ 5 ∷ 3 ∷ 6 ∷ 7 ∷ []) [] []
    ≡ ok ((4 ∷ 5 ∷ []) ∷ (3 ∷ 6 ∷ []) ∷ (7 ∷ []) ∷ [])
unfolding pack
packed = refl

pack-IsPacking_example :
    IsPacking measured 10 (4 ∷ 5 ∷ 3 ∷ 6 ∷ 7 ∷ []) ((4 ∷ 5 ∷ []) ∷ (3 ∷ 6 ∷ []) ∷ (7 ∷ []) ∷ [])
pack-IsPacking_example =
    pack-IsPacking measured 10 (4 ∷ 5 ∷ 3 ∷ 6 ∷ 7 ∷ [])
      ((4 ∷ 5 ∷ []) ∷ (3 ∷ 6 ∷ []) ∷ (7 ∷ []) ∷ []) packed

abbrev cut_holdings : List Chunk
cut_holdings =
    to_chunk (sorted_snapshot holdings) 0 1 (chunk_records (sorted_snapshot holdings)) ∷ []

holdings_cut : chunk_portfolio_snapshot no_url holdings 131072 ≡ ok cut_holdings
unfolding holdings chunk_portfolio_snapshot sort_portfolio_snapshot sorted_snapshot sort insert
    compare_text compare_ℤ pack byte_length_of_canonical_json json_bytes items_bytes fields_bytes
    string_bytes number_bytes chunk_js assert_portfolio_snapshot snapshot_checks check_distinct
    exceeds_run_limits assert_inventory_item assert_trade assert_offer portfolio_asset_identity
    offer_key is_bad_name assert_identifier assert_quantity assert_timestamp assert_steam_account_id
    decimal is_steam_id_64 assert_steam_id_64 items_of item_js trade_js offer_js completeness_js
    snapshot_js assert_safe_gateway_payload is_forbidden_key is_forbidden_string forbidden_key_names
    forbidden_string_patterns normalize_key_name visit_number visit_string visit_entry word visit
    visit_fields visit_items ◌===◌ includes is_run_of test is_safe_integer ◌-ℤ◌
holdings_cut = refl

chunk_portfolio_snapshot-IsChunking_example :
    (assert_portfolio_snapshot no_url holdings ≡ ok tt)
    × IsChunking (sorted_snapshot holdings) cut_holdings
chunk_portfolio_snapshot-IsChunking_example =
    chunk_portfolio_snapshot-IsChunking no_url holdings 131072 cut_holdings holdings_cut
