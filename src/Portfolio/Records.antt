-- ===== src/Portfolio/Records.antt =====
-- shared/gateway-dto.ts: the records of a portfolio. Numbers that the checks require to be safe
-- integers are integers; a field that is absent is `none`.
use csboard_extension.Prelude.{Bool, Option, List}
use csboard_extension.Prelude.Int.{ℤ}
use csboard_extension.Prelude.Text.{Text}
use csboard_extension.Gateway.Payload.{Number}

pub record Sticker : Type 0 where
  pub slot : ℤ
  pub name : Text
  pub wear : Option Number

pub record Item : Type 0 where
  pub app_id : Text
  pub context_id : Text
  pub asset_id : Text
  pub class_id : Text
  pub instance_id : Text
  pub amount : Text
  pub market_hash_name : Text
  pub name : Option Text
  pub icon_url : Option Text
  pub tradable : Bool
  pub marketable : Bool
  pub on_hold : Bool
  pub tradable_after : Option ℤ
  pub float_value : Option Number
  pub paint_seed : Option ℤ
  pub paint_index : Option ℤ
  pub def_index : Option ℤ
  pub stickers : Option (List Sticker)

pub record TradeItem : Type 0 where
  pub app_id : Text
  pub context_id : Text
  pub asset_id : Text
  pub class_id : Text
  pub instance_id : Text
  pub amount : Text
  pub market_hash_name : Option Text
  pub icon_url : Option Text

pub record Trade : Type 0 where
  pub trade_id : Text
  pub partner_steam_id : Text
  pub occurred_at : ℤ
  pub items_given : List TradeItem
  pub items_received : List TradeItem

pub data Direction : Type 0 where
  sent received : Direction

pub data MarketplaceHint : Type 0 where
  buff163 csfloat : MarketplaceHint

pub record Offer : Type 0 where
  pub offer_id : Text
  pub direction : Direction
  pub partner_account_id : Text
  pub state : ℤ
  pub created_at : ℤ
  pub completed_trade_id : Option Text
  pub marketplace_hint : Option MarketplaceHint
  pub expires_at : Option ℤ
  pub escrow_end_at : Option ℤ
  pub items_to_give : List TradeItem
  pub items_to_receive : List TradeItem

pub record Sources : Type 0 where
  pub inventory : Bool
  pub trade_history : Bool
  pub trade_offers : Bool

pub record Completeness : Type 0 where
  pub inventory_context_2 : Bool
  pub inventory_context_16 : Bool
  pub trades : Bool
  pub offers : Bool

pub record Snapshot : Type 0 where
  pub kind : Text
  pub sync_run_id : Text
  pub steam_id : Text
  pub captured_at : ℤ
  pub sources : Option Sources
  pub completeness : Completeness
  pub inventory_items : List Item
  pub trades : List Trade
  pub offers : List Offer

pub record Chunk : Type 0 where
  pub kind : Text
  pub sync_run_id : Text
  pub steam_id : Text
  pub captured_at : ℤ
  pub chunk_index : ℤ
  pub chunk_count : ℤ
  pub sources : Option Sources
  pub completeness : Completeness
  pub inventory_items : List Item
  pub trades : List Trade
  pub offers : List Offer
