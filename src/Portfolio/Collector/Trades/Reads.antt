-- ===== src/Portfolio/Collector/Trades/Reads.antt =====
-- background/portfolio-collector.ts: how often the provider is asked for the trade history.
use csboard_extension.Prelude.{
  ℕ, zero, suc, ◌+◌, ◌-◌, ◌*◌, ◌≤◌, ◌≡◌, refl, Bool, true, false, Option, none, some, arith, length,
  leb, ◌⊎◌, inl, inr, if◌then◌else◌,
}
use csboard_extension.Shared.Result.{ok, err}
use csboard_extension.Portfolio.Collector.Failure.{Failure, is_steam_session_failure}
use csboard_extension.Portfolio.Collector.Trades.{
  max_trade_history_pages, TradesReadOptions, Reply, on_reply, SteamReadSessionProvider,
  CollectedTrades, Progress, no_progress, after_page, retry_after_refresh, read_trade_history_page,
  page_options, collect_pages, collect_recent_trades,
}

module _ {W : Type 0} (cost : W → ℕ) where
  abbrev Costs : {T : Type 0} → ℕ → Reply W T → Type 0
  Costs limit (result, w) = cost w ≤ limit

  if_Costs :
      {T : Type 0} (limit : ℕ) (test : Bool) (x y : Reply W T)
      → Costs limit x
      → Costs limit y
      → Costs limit (if test then x else y)
  if_Costs limit true x y hx hy = hx
  if_Costs limit false x y hx hy = hy

  on_reply-Costs :
      {T U : Type 0} (before limit : ℕ) (reply : Reply W T) (fulfilled : T → W → Reply W U)
      (rejected : Failure → W → Reply W U)
      → Costs before reply
      → ((value : T) (w : W) → cost w ≤ before → Costs limit (fulfilled value w))
      → ((error : Failure) (w : W) → cost w ≤ before → Costs limit (rejected error w))
      → Costs limit (on_reply reply fulfilled rejected)
  on_reply-Costs before limit (ok value, w) fulfilled rejected h hf hr = hf value w h
  on_reply-Costs before limit (err error, w) fulfilled rejected h hf hr = hr error w h

  module _ (provider : SteamReadSessionProvider W)
      (one_read : (n : ℕ) (options : TradesReadOptions) (w : W)
        → cost (provider.read_recent_trades n options w).1 ≤ suc (cost w))
      (no_read : (refresh : W → Reply W (Unit {0}))
        → provider.refresh_access_token ≡ some refresh
        → (w : W) → cost (refresh w).1 ≤ cost w) where
    retry-Costs :
        (limit n : ℕ) (options : TradesReadOptions) (error : Failure)
        (refresh : Option (W → Reply W (Unit {0}))) (w : W)
        → provider.refresh_access_token ≡ refresh
        → suc (cost w) ≤ limit
        → Costs limit (retry_after_refresh provider n options error refresh w)
    retry-Costs limit n options error none w e h = omega arith
    retry-Costs limit n options error (some refresh) w e h =
        on_reply-Costs (cost w) limit (refresh w)
          (λ done w'. provider.read_recent_trades n options w') (λ refused w'. (err refused, w'))
          (no_read refresh e w) (λ done w' le. omega (arith, one_read n options w'))
          (λ refused w' le. omega arith)

    read_page-Costs :
        (limit n : ℕ) (options : TradesReadOptions) (w : W)
        → cost w + 2 ≤ limit
        → Costs limit (read_trade_history_page provider n options w)
    unfolding read_trade_history_page
    read_page-Costs limit n options w h =
        on_reply-Costs (suc (cost w)) limit (provider.read_recent_trades n options w) _ _
          (one_read n options w) (λ result w' le. omega arith)
          (λ error w' le.
            if_Costs limit (is_steam_session_failure error)
              (retry_after_refresh provider n options error provider.refresh_access_token w')
              (err error, w')
              (retry-Costs limit n options error provider.refresh_access_token w' refl
                (omega arith))
              (omega arith))

    next-Costs :
        (limit pages max_trades : ℕ) (outcome : CollectedTrades ⊎ Progress) (w : W)
        → cost w ≤ limit
        → ((next : Progress) → Costs limit (collect_pages provider pages false max_trades next w))
        → Costs limit (elim outcome [
          | inl done ↦ (ok done, w)
          | inr next ↦ collect_pages provider pages false max_trades next w
        ])
    next-Costs limit pages max_trades (inl done) w h later = h
    next-Costs limit pages max_trades (inr next) w h later = later next

    collect_pages-Costs :
        (limit pages : ℕ) (first : Bool) (max_trades : ℕ) (progress : Progress) (w : W)
        → cost w + 2 * pages ≤ limit
        → Costs limit (collect_pages provider pages first max_trades progress w)
    unfolding collect_pages
    collect_pages-Costs limit zero first max_trades progress w h = omega arith
    collect_pages-Costs limit (suc pages) first max_trades progress w h =
        if_Costs limit (leb max_trades (length progress.found)) _ _ (omega arith) (
          on_reply-Costs (cost w + 2) limit
            (read_trade_history_page provider (max_trades - length progress.found)
              (page_options provider first progress) w)
            _ _
            (read_page-Costs (cost w + 2) (max_trades - length progress.found)
              (page_options provider first progress) w (omega arith))
            (λ result w' le.
              next-Costs limit pages max_trades (after_page max_trades progress result) w'
                (omega arith)
                (λ next. collect_pages-Costs limit pages false max_trades next w' (omega arith)))
            (λ error w' le. omega arith))

    -- By any count that a read of the trade history raises by at most one, and a refresh of the
    -- token by nothing, a collection costs at most 20: ten pages, each read at most twice.
    pub collect_recent_trades-reads :
        (max_trades : ℕ) (w : W)
        → cost (collect_recent_trades provider max_trades w).1 ≤ cost w + 20
    unfolding collect_recent_trades
    collect_recent_trades-reads max_trades w =
        collect_pages-Costs (cost w + 20) max_trade_history_pages true max_trades no_progress w
          (omega arith)
