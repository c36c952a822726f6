-- ===== src/Portfolio/Json.antt =====
-- shared/gateway-dto.ts: the records of a portfolio as the values that are scanned and encoded.
use Prim.Native.String.{String}
use csboard_extension.Prelude.{Bool, Option, none, some, List, [], ◌∷◌}
use csboard_extension.Prelude.Text.{Text, codes}
use csboard_extension.Gateway.Payload.{
  Js, bool, num, arr, obj, Items, nil, cons, Fields, end, field, Number,
}
use csboard_extension.Gateway.Message.{optional_text, optional_int, text_field, int_field}
use csboard_extension.Portfolio.Records.{
  Sticker, Item, TradeItem, Trade, Direction, sent, received, MarketplaceHint, buff163, csfloat,
  Offer, Sources, Completeness, Snapshot, Chunk,
}

abbrev optional_number : String → Option Number → Fields → Fields
optional_number key none rest = rest
optional_number key (some n) rest = field (codes key) (num n) rest

abbrev bool_field : String → Bool → Fields → Fields
bool_field key b rest = field (codes key) (bool b) rest

unfoldable pub items_of {ℓ} : {A : Type ℓ} → (A → Js) → List A → Items
items_of f [] = nil
items_of f (x ∷ xs) = cons (f x) (items_of f xs)

abbrev list_field {ℓ} : {A : Type ℓ} → String → (A → Js) → List A → Fields → Fields
list_field key f xs rest = field (codes key) (arr (items_of f xs)) rest

unfoldable pub sticker_js : Sticker → Js
sticker_js s =
    obj (int_field "slot" s.slot (text_field "name" s.name (optional_number "wear" s.wear end)))

abbrev stickers_field : Option (List Sticker) → Fields → Fields
stickers_field none rest = rest
stickers_field (some l) rest = list_field "stickers" sticker_js l rest

unfoldable pub item_js : Item → Js
item_js i = obj (
    text_field "appId" i.app_id (
      text_field "contextId" i.context_id (
        text_field "assetId" i.asset_id (
          text_field "classId" i.class_id (
            text_field "instanceId" i.instance_id (
              text_field "amount" i.amount (
                text_field "marketHashName" i.market_hash_name (
                  optional_text "name" i.name (
                    optional_text "iconUrl" i.icon_url (
                      bool_field "tradable" i.tradable (
                        bool_field "marketable" i.marketable (
                          bool_field "onHold" i.on_hold (
                            optional_int "tradableAfter" i.tradable_after (
                              optional_number "floatValue" i.float_value (
                                optional_int "paintSeed" i.paint_seed (
                                  optional_int "paintIndex" i.paint_index (
                                    optional_int "defIndex" i.def_index
                                      (stickers_field i.stickers end))))))))))))))))))

unfoldable pub trade_item_js : TradeItem → Js
trade_item_js i = obj (
    text_field "appId" i.app_id (
      text_field "contextId" i.context_id (
        text_field "assetId" i.asset_id (
          text_field "classId" i.class_id (
            text_field "instanceId" i.instance_id (
              text_field "amount" i.amount (
                optional_text "marketHashName" i.market_hash_name
                  (optional_text "iconUrl" i.icon_url end))))))))

unfoldable pub trade_js : Trade → Js
trade_js t = obj (
    text_field "tradeId" t.trade_id (
      text_field "partnerSteamId" t.partner_steam_id (
        int_field "occurredAt" t.occurred_at (
          list_field "itemsGiven" trade_item_js t.items_given
            (list_field "itemsReceived" trade_item_js t.items_received end)))))

abbrev pub direction_text : Direction → Text
direction_text sent = codes "sent"
direction_text received = codes "received"

abbrev hint_text : Option MarketplaceHint → Option Text
hint_text none = none
hint_text (some buff163) = some (codes "buff163")
hint_text (some csfloat) = some (codes "csfloat")

unfoldable pub offer_js : Offer → Js
offer_js o = obj (
    text_field "offerId" o.offer_id (
      text_field "direction" (direction_text o.direction) (
        text_field "partnerAccountId" o.partner_account_id (
          int_field "state" o.state (
            int_field "createdAt" o.created_at (
              optional_text "completedTradeId" o.completed_trade_id (
                optional_text "marketplaceHint" (hint_text o.marketplace_hint) (
                  optional_int "expiresAt" o.expires_at (
                    optional_int "escrowEndAt" o.escrow_end_at (
                      list_field "itemsToGive" trade_item_js o.items_to_give
                        (list_field "itemsToReceive" trade_item_js o.items_to_receive end)))))))))))

abbrev sources_field : Option Sources → Fields → Fields
sources_field none rest = rest
sources_field (some s) rest =
    field (codes "sources")
      (obj (
        bool_field "inventory" s.inventory (
          bool_field "tradeHistory" s.trade_history (bool_field "tradeOffers" s.trade_offers end))))
      rest

unfoldable pub completeness_js : Completeness → Js
completeness_js c = obj (
    bool_field "inventoryContext2" c.inventory_context_2 (
      bool_field "inventoryContext16" c.inventory_context_16
        (bool_field "trades" c.trades (bool_field "offers" c.offers end))))

unfoldable pub snapshot_js : Snapshot → Js
snapshot_js s = obj (
    text_field "kind" s.kind (
      text_field "syncRunId" s.sync_run_id (
        text_field "steamId" s.steam_id (
          int_field "capturedAt" s.captured_at (
            sources_field s.sources (
              field (codes "completeness") (completeness_js s.completeness) (
                list_field "inventoryItems" item_js s.inventory_items (
                  list_field "trades" trade_js s.trades
                    (list_field "offers" offer_js s.offers end)))))))))

unfoldable pub chunk_js : Chunk → Js
chunk_js c = obj (
    text_field "kind" c.kind (
      text_field "syncRunId" c.sync_run_id (
        text_field "steamId" c.steam_id (
          int_field "capturedAt" c.captured_at (
            int_field "chunkIndex" c.chunk_index (
              int_field "chunkCount" c.chunk_count (
                sources_field c.sources (
                  field (codes "completeness") (completeness_js c.completeness) (
                    list_field "inventoryItems" item_js c.inventory_items (
                      list_field "trades" trade_js c.trades
                        (list_field "offers" offer_js c.offers end)))))))))))
