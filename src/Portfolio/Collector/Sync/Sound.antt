-- ===== src/Portfolio/Collector/Sync/Sound.antt =====
-- background/portfolio-collector.ts: what a collected synchronisation holds.
use csboard_extension.Prelude.{
  keep-all, ◌≡◌, ◌∙◌, refl, ap, Bool, true, false, Option, [], ◌++◌, map, arith, length, ==_iff,
  inl, inr,
}
use csboard_extension.Prelude.Text.{Text}
use csboard_extension.Shared.Result.{Result, ok, err}
use csboard_extension.Gateway.Error.{Checked}
use csboard_extension.Portfolio.Records.{Sources, Snapshot}
use csboard_extension.Portfolio.Fields.{Url}
use csboard_extension.Portfolio.Checks.Sound.{IsSoundSnapshot}
use csboard_extension.Portfolio.Sort.{sorted_snapshot}
use csboard_extension.Portfolio.Chunks.Whole.{IsChunking}
use csboard_extension.Portfolio.Collector.Failure.{
  Failure, checked_result, portfolio_source_failure_code,
}
use csboard_extension.Portfolio.Collector.Trades.{
  InventoryRead, CollectedTrades, Reply, on_reply, SteamReadSessionProvider, collect_recent_trades,
}
use csboard_extension.Portfolio.Collector.Trades.Pages.{Replies, on_reply-Replies}
use csboard_extension.Portfolio.Collector.Snapshot.{
  CollectorOptions, CollectedSync, Outcome, Reads, minimize_inventory_item_for_gateway,
  default_sources, default_limit, trades_of, kept_trades, is_within_record_limit, read, failed,
  collected_snapshot, finish_sync, sync_guards,
}
use csboard_extension.Portfolio.Collector.Sync.{
  read_contexts, read_source, finish_reads, guarded_sync, collect_portfolio_sync,
}
use csboard_extension.Portfolio.Collector.Sync.Contexts.{
  AreRead, AreContexts, read_contexts-AreContexts,
}
use csboard_extension.Portfolio.Collector.Sync.Atomic.{
  AreWhole, IsFinished, finish_sync-IsFinished, collected_snapshot-IsAtomic,
}

module _ {W : Type 0} (provider : SteamReadSessionProvider W) (options : CollectorOptions)
    (start : W) where
  -- A run through the trade history, complete, whose trades are those of the snapshot.
  pub record AreAllTrades (trades : CollectedTrades) (c : CollectedSync) : Type 0 where
    pub before : W
    pub after : W
    pub reply :
        collect_recent_trades provider (default_limit options.recent_trade_limit) before
        ≡ (ok trades, after)
    pub complete : trades.complete ≡ true
    pub none_dropped : c.snapshot.trades ≡ trades.trades

  -- A snapshot that passed the checks and its chunks; its inventory is that of two complete reads, or
  -- there is none of it; where it claims all trades, they are those of a complete run through the
  -- history; and it never claims all offers.
  pub record IsSync (c : CollectedSync) : Type 0 where
    pub sound : IsSoundSnapshot c.snapshot
    pub chunking : IsChunking (sorted_snapshot c.snapshot) c.chunks
    pub owner : c.snapshot.steam_id ≡ options.steam_id
    pub together :
        c.snapshot.completeness.inventory_context_2 ≡ c.snapshot.completeness.inventory_context_16
    pub no_part :
        c.snapshot.completeness.inventory_context_2 ≡ false → c.snapshot.inventory_items ≡ []
    pub whole :
        c.snapshot.completeness.inventory_context_2 ≡ true
        → (context_2 context_16 : InventoryRead) × AreRead provider start context_2 context_16
          × (context_2.complete ≡ true)
          × (context_16.complete ≡ true)
          × (c.snapshot.inventory_items
              ≡ map minimize_inventory_item_for_gateway (context_2.items ++ context_16.items))
    pub all_trades :
        c.snapshot.completeness.trades ≡ true → (read : CollectedTrades) × AreAllTrades read c
    pub offers : c.snapshot.completeness.offers ≡ false

  checked-Replies :
      {T : Type 0} (J : T → Type 0) (r : Checked T) (w : W)
      → ((value : T) → r ≡ ok value → J value)
      → Replies J (checked_result r, w)
  checked-Replies J (ok value) w h = h value refl
  checked-Replies J (err error) w h = tt

  -- Trades that were read come from a run of the collector.
  abbrev AreFromRun : Outcome CollectedTrades → Type 0
  AreFromRun outcome =
      (trades_of outcome).complete ≡ true
      → (before after : W) × (collect_recent_trades provider
            (default_limit options.recent_trade_limit) before
          ≡ (ok (trades_of outcome), after))

  read_source-AreFromRun :
      (enabled : Bool) (w : W)
      → AreFromRun
          (read_source provider enabled
            (collect_recent_trades provider (default_limit options.recent_trade_limit))
            w).0
  read_source-AreFromRun false w = λ h. cc
  read_source-AreFromRun true w =
      from_reply w (collect_recent_trades provider (default_limit options.recent_trade_limit) w)
        refl
    where
      from_reply :
          (before : W) (reply : Reply W CollectedTrades)
          → collect_recent_trades provider (default_limit options.recent_trade_limit) before ≡ reply
          → AreFromRun
              (on_reply {R = Outcome CollectedTrades × W} reply
                (λ value w'. (read value, w'))
                (λ error w'. (failed (portfolio_source_failure_code error), w'))).0
      from_reply before (ok value, after) e h = (before, after, e)
      from_reply before (err error, after) e h = cc

  module _ (sources : Sources) (reads : Reads) where
    AreWhole-of_contexts :
        AreContexts provider start sources.inventory (reads.context_2, reads.context_16)
        → AreWhole sources reads
    AreWhole-of_contexts (inl (on, whole_2, whole_16, r)) = inl (on, whole_2, whole_16)
    AreWhole-of_contexts (inr (off, none_2, none_16)) = inr (off, none_2, none_16)

    read_of_whole :
        AreContexts provider start sources.inventory (reads.context_2, reads.context_16)
        → (collected_snapshot options sources reads).completeness.inventory_context_2 ≡ true
        → AreRead provider start reads.context_2 reads.context_16
          × (reads.context_2.complete ≡ true)
          × (reads.context_16.complete ≡ true)
    unfolding collected_snapshot
    read_of_whole (inl (on, whole_2, whole_16, r)) h = (r, whole_2, whole_16)
    read_of_whole (inr (off, none_2, none_16)) h =
        let incomplete = ap (λ (i : InventoryRead). i.complete) none_2 in ground arith

    no_trade_dropped :
        (collected_snapshot options sources reads).completeness.trades ≡ true
        → ((trades_of reads.trades).complete ≡ true)
          × ((collected_snapshot options sources reads).trades ≡ (trades_of reads.trades).trades)
    unfolding collected_snapshot
    no_trade_dropped h = (
      ground arith,
      keep-all is_within_record_limit (trades_of reads.trades).trades (
          (==_iff (length (kept_trades reads)) (length (trades_of reads.trades).trades)).0
            (ground arith)),
    )

    read_all :
        (c : CollectedSync)
        → AreFromRun reads.trades
        → c.snapshot ≡ collected_snapshot options sources reads
        → c.snapshot.completeness.trades ≡ true
        → (read : CollectedTrades) × AreAllTrades read c
    read_all c from_run made h =
        let (complete, same) = no_trade_dropped (rw made at h) in
        let (before, after, reply) = from_run complete in
        (
          trades_of reads.trades,
          record {
            before = before;
            after = after;
            reply = reply;
            complete = complete;
            none_dropped = ap (λ (s : Snapshot). s.trades) made ∙ same;
          },
        )

    finished-IsSync :
        (c : CollectedSync)
        → AreContexts provider start sources.inventory (reads.context_2, reads.context_16)
        → AreFromRun reads.trades
        → IsFinished options sources reads c
        → IsSync c
    unfolding collected_snapshot
    finished-IsSync c contexts from_run f =
        let atomic =
          collected_snapshot-IsAtomic options sources reads (AreWhole-of_contexts contexts) in
        record {
          sound = f.sound;
          chunking = f.chunking;
          owner = ap (λ (s : Snapshot). s.steam_id) f.made;
          together = rw f.made atomic.together;
          no_part = rw f.made atomic.no_part;
          whole = rw f.made (λ h.
              let (r, whole_2, whole_16) = read_of_whole contexts h in
              (reads.context_2, reads.context_16, r, whole_2, whole_16, atomic.whole h));
          all_trades = read_all c from_run f.made;
          offers = ap (λ (s : Snapshot). s.completeness.offers) f.made;
        }

  finish_reads-IsSync :
      (parse_url : Text → Option Url) (sources : Sources) (contexts : InventoryRead × InventoryRead)
      (w : W)
      → AreContexts provider start sources.inventory contexts
      → Replies IsSync (finish_reads provider parse_url options sources contexts w)
  finish_reads-IsSync parse_url sources (context_2, context_16) w h =
      let (trades, w') =
        read_source provider sources.trade_history
          (collect_recent_trades provider (default_limit options.recent_trade_limit)) w in
      let (offers, w'') = read_source provider sources.trade_offers provider.read_trade_offers w' in
      let reads : Reads = record {
        context_2 = context_2;
        context_16 = context_16;
        trades = trades;
        offers = offers;
      } in
      checked-Replies IsSync (finish_sync parse_url options sources reads) w'' (λ c e.
        finished-IsSync sources reads c h (read_source-AreFromRun sources.trade_history w)
          (finish_sync-IsFinished parse_url options sources reads c e))

  guarded_sync-IsSync :
      (parse_url : Text → Option Url) (sources : Sources) (guards : Result (Unit {0}) Failure)
      → Replies IsSync (guarded_sync provider parse_url options sources guards start)
  guarded_sync-IsSync parse_url sources (err error) = tt
  guarded_sync-IsSync parse_url sources (ok passed) =
      on_reply-Replies IsSync (AreContexts provider start sources.inventory)
        (read_contexts provider sources.inventory start)
        (finish_reads provider parse_url options sources) (λ error w'. (err error, w'))
        (read_contexts-AreContexts provider start sources.inventory)
        (λ contexts w h. finish_reads-IsSync parse_url sources contexts w h) (λ error w. tt)

  -- A collection that succeeds gives a snapshot that passed all checks and its chunks. The inventory
  -- in it is that of both contexts, each read and complete, or there is none of it and it is marked as
  -- incomplete; where all trades are claimed, they are those of a complete run through the history,
  -- none dropped; and all offers never are claimed.
  pub collect_portfolio_sync-IsSync :
      (parse_url : Text → Option Url)
      → Replies IsSync (collect_portfolio_sync provider parse_url options start)
  unfolding collect_portfolio_sync
  collect_portfolio_sync-IsSync parse_url =
      guarded_sync-IsSync parse_url (default_sources options.sources)
        (sync_guards options (default_sources options.sources))
