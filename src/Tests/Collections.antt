-- ===== src/Tests/Collections.antt =====
-- A Steam session that answers in two pages, and the collection of its portfolio.
use csboard_extension.Prelude.{
  ℕ, zero, suc, ◌+◌, ◌≤◌, ◌≡◌, refl, true, false, none, some, [], ◌∷◌, arith, All,
}
use csboard_extension.Prelude.Int.{pos}
use csboard_extension.Prelude.Text.{codes}
use csboard_extension.Shared.Result.{ok}
use csboard_extension.Portfolio.Records.{Trade}
use csboard_extension.Portfolio.Collector.Trades.{
  TradesRead, SteamReadSessionProvider, collect_recent_trades,
}
use csboard_extension.Portfolio.Collector.Trades.Pages.{
  Replies, IsCollected, collect_recent_trades-IsCollected,
}
use csboard_extension.Portfolio.Collector.Trades.Reads.{collect_recent_trades-reads}
use csboard_extension.Portfolio.Collector.Snapshot.{CollectorOptions}
use csboard_extension.Portfolio.Collector.Sync.{collect_portfolio_sync}
use csboard_extension.Portfolio.Collector.Sync.Sound.{IsSync, collect_portfolio_sync-IsSync}
use csboard_extension.Tests.Portfolios.{no_url, knife, trade_at, gift}

-- The first page has one of two trades, and every later page the other.
abbrev page : ℕ → TradesRead
page zero = record {
  trades = trade_at (codes "9") 1700000050 ∷ [];
  has_more = true;
  total_trades = some (pos 2);
}
page (suc n) = record {
  trades = trade_at (codes "8") 1700000040 ∷ [];
  has_more = false;
  total_trades = none;
}

-- A session, in which the number of reads is kept.
abbrev session : SteamReadSessionProvider ℕ
session = record {
  read_inventory_context = λ context reads.
      (ok (record { complete = true; items = record knife { context_id = context } ∷ [] }), reads);
  read_recent_trades = λ max_trades options reads. (ok (page reads), suc reads);
  read_trade_offers = λ reads. (ok (record { offers = gift ∷ []; truncated = false }), reads);
  refresh_access_token = none;
}

abbrev IsPositive : Trade → Type 0
IsPositive t = t.partner_steam_id ≡ codes "76561198000000001"

pages_given : (n : ℕ) → All IsPositive (page n).trades
pages_given zero = (refl, tt)
pages_given (suc n) = (refl, tt)

collect_recent_trades-IsCollected_example :
    Replies (IsCollected 100 IsPositive) (collect_recent_trades session 100 0)
collect_recent_trades-IsCollected_example =
    collect_recent_trades-IsCollected session IsPositive (λ n options w. pages_given w) 100 0

collect_recent_trades-reads_example : (collect_recent_trades session 100 0).1 ≤ 0 + 20
collect_recent_trades-reads_example =
    collect_recent_trades-reads (λ n. n) session (λ n options w. omega arith) (λ refresh e w. cc)
      100 0

abbrev options : CollectorOptions
options = record {
  steam_id = codes "76561198000000002";
  recent_trade_limit = none;
  sources = none;
  now = 1700000100000;
  sync_run_id = codes "abcdefghijklmnopqrstuvwx";
}

collect_portfolio_sync-IsSync_example :
    Replies (IsSync session options 0) (collect_portfolio_sync session no_url options 0)
collect_portfolio_sync-IsSync_example = collect_portfolio_sync-IsSync session options 0 no_url
