-- ===== src/Portfolio/Collector/Sync.antt =====
-- background/portfolio-collector.ts: `collectPortfolioSync`. The two inventory contexts are read one
-- behind the other; their order does not show in the result. The time in milliseconds and the id of
-- the run are inputs.
pub mod Atomic
pub mod Contexts
pub mod Sound
use csboard_extension.Prelude.{
  ℕ, ◌+◌, ◌-◌, ◌/◌, Bool, true, false, not, ◌&&◌, ◌||◌, Option, none, some, List, [], ◌∷◌, ◌++◌,
  map, length, keep, ltb, leb, ◌==◌, if◌then◌else◌,
}
use csboard_extension.Prelude.Int.{ℤ, pos, eqb_ℤ}
use csboard_extension.Prelude.Text.{Text, codes}
use csboard_extension.Shared.Result.{Result, ok, err, throw_if, ◌>>◌, ◌>>=◌}
use csboard_extension.Gateway.Error.{Checked, invalid, invalid_payload}
use csboard_extension.Gateway.Identity.{is_steam_id_64}
use csboard_extension.Gateway.Payload.{assert_safe_gateway_payload}
use csboard_extension.Portfolio.Records.{Item, Trade, Offer, Sources, Completeness, Snapshot, Chunk}
use csboard_extension.Portfolio.Json.{snapshot_js}
use csboard_extension.Portfolio.Fields.{Url, max_inventory_items_per_run, max_trades_per_run}
use csboard_extension.Portfolio.Checks.{assert_portfolio_snapshot}
use csboard_extension.Portfolio.Chunks.{target_gateway_chunk_bytes, chunk_portfolio_snapshot}
use csboard_extension.Portfolio.Collector.Failure.{
  Failure, invalid_path, to_failure, checked_result, SourceFailureCode,
  portfolio_source_failure_code,
}
use csboard_extension.Portfolio.Collector.Trades.{
  InventoryRead, OffersRead, Reply, on_reply, SteamReadSessionProvider, CollectedTrades,
  collect_recent_trades,
}
use csboard_extension.Portfolio.Collector.Snapshot.{
  CollectorOptions, Outcome, CollectedSync, default_sources, default_limit, finish_sync,
  sync_guards, read, failed, skipped,
}

abbrev pub no_inventory : InventoryRead
no_inventory = record { complete = false; items = [] }

module _ {W : Type 0} (provider : SteamReadSessionProvider W) where
  abbrev pub inventory_read_failed : W → Reply W (InventoryRead × InventoryRead)
  inventory_read_failed w = (err (to_failure (invalid "steam-inventory-read-failed")), w)

  abbrev pub both_complete :
      InventoryRead → InventoryRead → W → Reply W (InventoryRead × InventoryRead)
  both_complete context_2 context_16 w =
      if not context_2.complete || not context_16.complete
      then (err (to_failure (invalid "steam-inventory-read-incomplete")), w)
      else (ok (context_2, context_16), w)

  unfoldable pub read_contexts : Bool → W → Reply W (InventoryRead × InventoryRead)
  read_contexts false w = (ok (no_inventory, no_inventory), w)
  read_contexts true w =
      on_reply (provider.read_inventory_context (codes "2") w)
        (λ context_2 w'.
          on_reply (provider.read_inventory_context (codes "16") w') (both_complete context_2)
            (λ error w''. inventory_read_failed w''))
        (λ error w'. inventory_read_failed w')

  -- A source that fails does not fail the run.
  abbrev pub read_source : {T : Type 0} → Bool → (W → Reply W T) → W → Outcome T × W
  read_source false source w = (skipped, w)
  read_source true source w =
      on_reply (source w) (λ value w'. (read value, w'))
        (λ error w'. (failed (portfolio_source_failure_code error), w'))

  abbrev pub finish_reads :
      (Text → Option Url)
      → CollectorOptions
      → Sources
      → InventoryRead × InventoryRead
      → W
      → Reply W CollectedSync
  finish_reads parse_url options sources (context_2, context_16) w =
      let (trades, w') =
        read_source sources.trade_history
          (collect_recent_trades provider (default_limit options.recent_trade_limit)) w in
      let (offers, w'') = read_source sources.trade_offers provider.read_trade_offers w' in
      (
        checked_result (
            finish_sync parse_url options sources (record {
              context_2 = context_2;
              context_16 = context_16;
              trades = trades;
              offers = offers;
            })),
        w'',
      )

  abbrev pub guarded_sync :
      (Text → Option Url)
      → CollectorOptions
      → Sources
      → Result (Unit {0}) Failure
      → W
      → Reply W CollectedSync
  guarded_sync parse_url options sources (err error) w = (err error, w)
  guarded_sync parse_url options sources (ok passed) w =
      on_reply (read_contexts sources.inventory w) (finish_reads parse_url options sources)
        (λ error w'. (err error, w'))

  unfoldable pub collect_portfolio_sync :
      (Text → Option Url) → CollectorOptions → W → Reply W CollectedSync
  collect_portfolio_sync parse_url options w =
      let sources = default_sources options.sources in
      guarded_sync parse_url options sources (sync_guards options sources) w
