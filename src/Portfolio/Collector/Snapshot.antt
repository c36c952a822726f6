-- ===== src/Portfolio/Collector/Snapshot.antt =====
-- background/portfolio-collector.ts: the part of `collectPortfolioSync` behind the reads. The time in
-- milliseconds and the id of the run are inputs.
use csboard_extension.Prelude.{
  ℕ, ◌+◌, ◌-◌, ◌/◌, Bool, true, false, not, ◌&&◌, ◌||◌, Option, none, some, List, [], ◌∷◌, ◌++◌,
  map, length, keep, ltb, leb, ◌==◌, if◌then◌else◌,
}
use csboard_extension.Prelude.Int.{pos, eqb_ℤ}
use csboard_extension.Prelude.Text.{Text, codes}
use csboard_extension.Shared.Result.{Result, ok, throw_if, ◌>>◌, ◌>>=◌}
use csboard_extension.Gateway.Error.{Checked, invalid}
use csboard_extension.Gateway.Identity.{is_steam_id_64}
use csboard_extension.Gateway.Payload.{assert_safe_gateway_payload}
use csboard_extension.Portfolio.Records.{Item, Trade, Offer, Sources, Snapshot, Chunk}
use csboard_extension.Portfolio.Json.{snapshot_js}
use csboard_extension.Portfolio.Fields.{Url, max_inventory_items_per_run, max_trades_per_run}
use csboard_extension.Portfolio.Checks.{assert_portfolio_snapshot}
use csboard_extension.Portfolio.Chunks.{target_gateway_chunk_bytes, chunk_portfolio_snapshot}
use csboard_extension.Portfolio.Collector.Failure.{
  Failure, invalid_path, to_failure, SourceFailureCode,
}
use csboard_extension.Portfolio.Collector.Trades.{InventoryRead, OffersRead, CollectedTrades}

abbrev pub max_record_items_per_side : ℕ
max_record_items_per_side = 200

pub record CollectorOptions : Type 0 where
  pub steam_id : Text
  pub recent_trade_limit : Option ℕ
  pub sources : Option Sources
  pub now : ℕ
  pub sync_run_id : Text

pub data CollectorSource : Type 0 where
  inventory trade_history trade_offers : CollectorSource

pub data WarningCode : Type 0 where
  steam_offers_truncated trade_history_truncated oversized_records_dropped : WarningCode

-- What became of a source: not enabled, read, or failed.
pub data Outcome (T : Type 0) : Type 0 where
  skipped : Outcome T
  read : T → Outcome T
  failed : SourceFailureCode → Outcome T

pub record Summary : Type 0 where
  pub sync_run_id : Text
  pub chunks : ℕ
  pub context_2_items : ℕ
  pub context_16_items : ℕ
  pub trades : ℕ
  pub offers : ℕ
  pub failed_sources : List CollectorSource
  pub source_failure_codes : List (CollectorSource × SourceFailureCode)
  pub warning_codes : List WarningCode

pub record CollectedSync : Type 0 where
  pub snapshot : Snapshot
  pub chunks : List Chunk
  pub summary : Summary

abbrev pub is_within_record_limit : Trade → Bool
is_within_record_limit t =
    leb (length t.items_given) max_record_items_per_side
    && leb (length t.items_received) max_record_items_per_side

abbrev pub is_offer_within_record_limit : Offer → Bool
is_offer_within_record_limit o =
    leb (length o.items_to_give) max_record_items_per_side
    && leb (length o.items_to_receive) max_record_items_per_side

-- PORTFOLIO_OFFER_STATES.has(offer.state)
abbrev pub is_portfolio_offer : Offer → Bool
is_portfolio_offer o = eqb_ℤ o.state (pos 3)

unfoldable pub minimize_inventory_item_for_gateway : Item → Item
minimize_inventory_item_for_gateway item = record item { name = none }

abbrev pub default_sources : Option Sources → Sources
default_sources none = record { inventory = true; trade_history = true; trade_offers = true }
default_sources (some sources) = sources

abbrev pub default_limit : Option ℕ → ℕ
default_limit none = max_trades_per_run
default_limit (some limit) = limit

abbrev no_trades : CollectedTrades
no_trades = record { complete = false; trades = []; truncated = false }

abbrev no_offers : OffersRead
no_offers = record { offers = []; truncated = false }

abbrev pub trades_of : Outcome CollectedTrades → CollectedTrades
trades_of skipped = no_trades
trades_of (read trades) = trades
trades_of (failed code) = no_trades

abbrev pub offers_of : Outcome OffersRead → OffersRead
offers_of skipped = no_offers
offers_of (read offers) = offers
offers_of (failed code) = no_offers

abbrev pub is_read : {T : Type 0} → Outcome T → Bool
is_read skipped = false
is_read (read value) = true
is_read (failed code) = false

abbrev pub source_failures :
    {T : Type 0} → CollectorSource → Outcome T → List (CollectorSource × SourceFailureCode)
source_failures source skipped = []
source_failures source (read value) = []
source_failures source (failed code) = (source, code) ∷ []

abbrev pub warn_if : Bool → WarningCode → List WarningCode
warn_if true code = code ∷ []
warn_if false code = []

-- The results of the reads.
pub record Reads : Type 0 where
  pub context_2 : InventoryRead
  pub context_16 : InventoryRead
  pub trades : Outcome CollectedTrades
  pub offers : Outcome OffersRead

abbrev pub exceeds_run_contract : Sources → Reads → Bool
exceeds_run_contract sources reads =
    sources.inventory
    && ltb max_inventory_items_per_run
        (length reads.context_2.items + length reads.context_16.items)

-- `usableSources > 0`
abbrev pub has_usable_source : Sources → Reads → Bool
has_usable_source sources reads =
    (sources.inventory && not (exceeds_run_contract sources reads))
    || is_read reads.trades
    || is_read reads.offers

abbrev pub kept_trades : Reads → List Trade
kept_trades reads = keep is_within_record_limit (trades_of reads.trades).trades

abbrev pub kept_offers : Reads → List Offer
kept_offers reads =
    keep is_offer_within_record_limit (keep is_portfolio_offer (offers_of reads.offers).offers)

abbrev pub dropped_records : Reads → ℕ
dropped_records reads =
    (length (trades_of reads.trades).trades - length (kept_trades reads))
    + (length (offers_of reads.offers).offers - length (kept_offers reads))

abbrev pub kept_items : Sources → Reads → List Item
kept_items sources reads =
    if exceeds_run_contract sources reads
    then []
    else map minimize_inventory_item_for_gateway (reads.context_2.items ++ reads.context_16.items)

unfoldable pub collected_snapshot : CollectorOptions → Sources → Reads → Snapshot
collected_snapshot options sources reads = record {
  kind = codes "portfolio.snapshot.v1";
  sync_run_id = options.sync_run_id;
  steam_id = options.steam_id;
  captured_at = pos (options.now / 1000);
  sources = some sources;
  completeness = record {
    inventory_context_2 = reads.context_2.complete && not (exceeds_run_contract sources reads);
    inventory_context_16 = reads.context_16.complete && not (exceeds_run_contract sources reads);
    trades =
        (trades_of reads.trades).complete
        && length (kept_trades reads) == length (trades_of reads.trades).trades;
    offers = false;
  };
  inventory_items = kept_items sources reads;
  trades = kept_trades reads;
  offers = kept_offers reads;
}

abbrev pub inventory_failure : Sources → Reads → List CollectorSource
inventory_failure sources reads = if exceeds_run_contract sources reads then inventory ∷ [] else []

abbrev pub sync_summary : CollectorOptions → Sources → Reads → List Chunk → Summary
sync_summary options sources reads chunks =
    let codes_of_sources =
      source_failures trade_history reads.trades ++ source_failures trade_offers reads.offers in
    record {
      sync_run_id = options.sync_run_id;
      chunks = length chunks;
      context_2_items = length reads.context_2.items;
      context_16_items = length reads.context_16.items;
      trades = length (trades_of reads.trades).trades;
      offers = length (offers_of reads.offers).offers;
      failed_sources = inventory_failure sources reads ++ map (λ p. p.0) codes_of_sources;
      source_failure_codes = codes_of_sources;
      warning_codes =
          warn_if (trades_of reads.trades).truncated trade_history_truncated
          ++ (warn_if (offers_of reads.offers).truncated steam_offers_truncated
              ++ warn_if (ltb 0 (dropped_records reads)) oversized_records_dropped);
    }

abbrev pub with_chunks : CollectorOptions → Sources → Reads → List Chunk → Checked CollectedSync
with_chunks options sources reads chunks = ok (record {
  snapshot = collected_snapshot options sources reads;
  chunks = chunks;
  summary = sync_summary options sources reads chunks;
})

-- From the reads to the result.
unfoldable pub finish_sync :
    (Text → Option Url) → CollectorOptions → Sources → Reads → Checked CollectedSync
finish_sync parse_url options sources reads =
    let snapshot = collected_snapshot options sources reads in
    throw_if (not (has_usable_source sources reads)) (invalid "steam-read-failed")
    >> assert_safe_gateway_payload (snapshot_js snapshot)
    >> assert_portfolio_snapshot parse_url snapshot
    >> (chunk_portfolio_snapshot parse_url snapshot target_gateway_chunk_bytes
        >>= with_chunks options sources reads)

abbrev pub sync_guards : CollectorOptions → Sources → Result (Unit {0}) Failure
sync_guards options sources =
    throw_if (not (is_steam_id_64 options.steam_id)) (invalid_path "$.steamId")
    >> throw_if
        (ltb (default_limit options.recent_trade_limit) 1
          || ltb max_trades_per_run (default_limit options.recent_trade_limit))
        (invalid_path "$.recentTradeLimit")
    >> throw_if (not sources.inventory && not sources.trade_history && not sources.trade_offers)
        (to_failure (invalid "no-sync-source-enabled"))
