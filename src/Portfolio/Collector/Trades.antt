-- ===== src/Portfolio/Collector/Trades.antt =====
-- background/portfolio-collector.ts: `readTradeHistoryPage` and `collectRecentTrades`. A provider
-- answers from a state of its own, which every call may change.
pub mod Pages
pub mod Reads
use csboard_extension.Prelude.{
  ℕ, zero, suc, ◌-◌, Bool, true, false, not, ◌&&◌, ◌||◌, Option, none, some, List, [], ◌∷◌, ◌++◌,
  length, any, leb, ltb, ◌⊎◌, inl, inr, if◌then◌else◌,
}
use csboard_extension.Prelude.Int.{ℤ, pos, leb_ℤ, ltb_ℤ, eqb_ℤ}
use csboard_extension.Prelude.Text.{Text, codes, ◌===◌}
use csboard_extension.Shared.Result.{Result, ok, err}
use csboard_extension.Portfolio.Records.{Item, Trade, Offer}
use csboard_extension.Portfolio.Collector.Failure.{Failure, is_steam_session_failure}

abbrev pub max_trade_history_pages : ℕ
max_trade_history_pages = 10

pub record TradeCursor : Type 0 where
  pub start_after_time : ℤ
  pub start_after_trade_id : Text

pub record TradesReadOptions : Type 0 where
  pub cursor : Option TradeCursor
  pub include_total : Bool

pub record TradesRead : Type 0 where
  pub trades : List Trade
  pub has_more : Bool
  pub total_trades : Option ℤ

pub record InventoryRead : Type 0 where
  pub complete : Bool
  pub items : List Item

pub record OffersRead : Type 0 where
  pub offers : List Offer
  pub truncated : Bool

abbrev pub Reply : Type 0 → Type 0 → Type 0
Reply W T = Result T Failure × W

-- `try { ... } catch`
abbrev pub on_reply {ℓ} :
    {W T : Type 0} {R : Type ℓ} → Reply W T → (T → W → R) → (Failure → W → R) → R
on_reply (ok value, w) fulfilled rejected = fulfilled value w
on_reply (err error, w) fulfilled rejected = rejected error w

pub record SteamReadSessionProvider (W : Type 0) : Type 0 where
  pub read_inventory_context : Text → W → Reply W InventoryRead
  pub read_recent_trades : ℕ → TradesReadOptions → W → Reply W TradesRead
  pub read_trade_offers : W → Reply W OffersRead
  pub refresh_access_token : Option (W → Reply W (Unit {0}))

pub record CollectedTrades : Type 0 where
  pub complete : Bool
  pub trades : List Trade
  -- TRADE_HISTORY_TRUNCATED
  pub truncated : Bool

pub record Progress : Type 0 where
  -- `tradesById`, in the order of insertion.
  pub found : List Trade
  pub seen_cursors : List TradeCursor
  pub cursor : Option TradeCursor
  pub total_trades : Option ℤ

abbrev pub no_progress : Progress
no_progress = record { found = []; seen_cursors = []; cursor = none; total_trades = none }

unfoldable pub has_trade : List Trade → Text → Bool
has_trade found id = any (λ (t : Trade). t.trade_id === id) found

unfoldable pub add_trades : ℕ → List Trade → List Trade → List Trade
unfolding has_trade
add_trades max_trades found [] = found
add_trades max_trades found (trade ∷ trades) =
    elim (not (has_trade found trade.trade_id) && ltb (length found) max_trades) [
      | true ↦ add_trades max_trades (found ++ trade ∷ []) trades
      | false ↦ add_trades max_trades found trades
    ]

-- `totalTrades !== undefined && tradesById.size >= totalTrades`
abbrev pub reaches : Option ℤ → List Trade → Bool
reaches none found = false
reaches (some total) found = leb_ℤ total (pos (length found))

-- `totalTrades === undefined || tradesById.size >= totalTrades`
abbrev pub reaches_if_known : Option ℤ → List Trade → Bool
reaches_if_known none found = true
reaches_if_known (some total) found = leb_ℤ total (pos (length found))

abbrev pub first_total : Option ℤ → Option ℤ → Option ℤ
first_total none total = total
first_total (some known) total = some known

abbrev pub last_trade : List Trade → Option Trade
last_trade [] = none
last_trade (t ∷ []) = some t
last_trade (t ∷ u ∷ ts) = last_trade (u ∷ ts)

-- The key `${occurredAt}:${tradeId}` is the same for the same pair only: the first colon ends the time.
abbrev pub is_cursor : TradeCursor → TradeCursor → Bool
is_cursor c d =
    eqb_ℤ c.start_after_time d.start_after_time && c.start_after_trade_id === d.start_after_trade_id

-- `totalTrades === undefined || tradesById.size < totalTrades`
abbrev pub falls_short : Option ℤ → List Trade → Bool
falls_short none found = true
falls_short (some total) found = ltb_ℤ (pos (length found)) total

-- A result, with or without the warning.
abbrev pub collected : Bool → Bool → List Trade → CollectedTrades
collected complete warned trades = record {
  complete = complete;
  trades = trades;
  truncated = warned;
}

abbrev pub cursor_behind : Trade → TradeCursor
cursor_behind last = record {
  start_after_time = last.occurred_at;
  start_after_trade_id = last.trade_id;
}

-- The end of the loop's body, from the last trade of the page.
abbrev pub after_last : Progress → Option ℤ → List Trade → Option Trade → CollectedTrades ⊎ Progress
after_last progress total found none = inl (collected false true found)
after_last progress total found (some last) =
    if any (is_cursor (cursor_behind last)) progress.seen_cursors
    then inl (collected false true found)
    else inr (record {
      found = found;
      seen_cursors = cursor_behind last ∷ progress.seen_cursors;
      cursor = some (cursor_behind last);
      total_trades = total;
    })

-- What follows the read of a page: the result, or the progress the next page starts from.
unfoldable pub after_page : ℕ → Progress → TradesRead → CollectedTrades ⊎ Progress
after_page max_trades progress result =
    let total = first_total progress.total_trades result.total_trades in
    let found = add_trades max_trades progress.found result.trades in
    if reaches total found
    then inl (collected true false found)
    else if not result.has_more
    then inl (collected (reaches_if_known total found) (not (reaches_if_known total found)) found)
    else if leb max_trades (length found)
    then inl (collected false true found)
    else after_last progress total found (last_trade result.trades)

module _ {W : Type 0} (provider : SteamReadSessionProvider W) where
  abbrev pub retry_after_refresh :
      ℕ → TradesReadOptions → Failure → Option (W → Reply W (Unit {0})) → W → Reply W TradesRead
  retry_after_refresh max_trades options error none w = (err error, w)
  retry_after_refresh max_trades options error (some refresh) w =
      on_reply (refresh w) (λ done w'. provider.read_recent_trades max_trades options w')
        (λ refused w'. (err refused, w'))

  unfoldable pub read_trade_history_page : ℕ → TradesReadOptions → W → Reply W TradesRead
  read_trade_history_page max_trades options w =
      on_reply (provider.read_recent_trades max_trades options w) (λ result w'. (ok result, w'))
        (λ error w'.
          if is_steam_session_failure error
          then retry_after_refresh max_trades options error provider.refresh_access_token w'
          else (err error, w'))

  abbrev pub page_options : Bool → Progress → TradesReadOptions
  page_options first progress = record { cursor = progress.cursor; include_total = first }

  -- `pages` is the number of pages left; `first` says that none was read.
  unfoldable pub collect_pages : ℕ → Bool → ℕ → Progress → W → Reply W CollectedTrades
  collect_pages zero first max_trades progress w = (ok (collected false true progress.found), w)
  collect_pages (suc pages) first max_trades progress w =
      if leb max_trades (length progress.found)
      then (
        ok (
            collected (reaches progress.total_trades progress.found)
              (falls_short progress.total_trades progress.found) progress.found),
        w,
      )
      else on_reply
          (read_trade_history_page (max_trades - length progress.found)
            (page_options first progress) w)
          (λ result w'. elim (after_page max_trades progress result) [
            | inl done ↦ (ok done, w')
            | inr next ↦ collect_pages pages false max_trades next w'
          ])
          (λ error w'. (err error, w'))

  unfoldable pub collect_recent_trades : ℕ → W → Reply W CollectedTrades
  unfolding collect_pages
  collect_recent_trades max_trades w =
      collect_pages max_trade_history_pages true max_trades no_progress w
