-- ===== src/Portfolio/Collector/Trades/Pages.antt =====
-- background/portfolio-collector.ts: what is kept of the pages of the trade history, and how many
-- are read.
use csboard_extension.Prelude.{
  ℕ, zero, suc, ◌-◌, ◌≤◌, ◌≡◌, refl, Bool, true, false, not, ◌&&◌, Option, none, some, List, [],
  ◌∷◌, ◌++◌, map, arith, length, length-append, any, All, All-append, leb, ltb, ◌⊎◌, inl, inr,
  Bool-cases, if◌then◌else◌,
}
use csboard_extension.Prelude.Int.{ℤ}
use csboard_extension.Prelude.Text.{Text, ◌===◌, includes}
use csboard_extension.Shared.Result.{ok, err}
use csboard_extension.Portfolio.Records.{Trade}
use csboard_extension.Portfolio.Checks.Sound.{IsDistinct}
use csboard_extension.Portfolio.Collector.Failure.{Failure, is_steam_session_failure}
use csboard_extension.Portfolio.Collector.Trades.{
  max_trade_history_pages, TradesReadOptions, TradesRead, Reply, on_reply, SteamReadSessionProvider,
  CollectedTrades, Progress, no_progress, has_trade, add_trades, reaches, falls_short,
  reaches_if_known, first_total, collected, after_page, last_trade, is_cursor, cursor_behind,
  after_last, retry_after_refresh, read_trade_history_page, page_options, collect_pages,
  collect_recent_trades,
}

falls_short-reaches :
    (total : Option ℤ) (found : List Trade) → falls_short total found ≡ not (reaches total found)
falls_short-reaches none found = refl
falls_short-reaches (some total) found = ground arith

abbrev ids : List Trade → List Text
ids found = map (λ (t : Trade). t.trade_id) found

includes-append_last :
    (found : List Trade) (t : Trade) (k : Text)
    → includes (ids found) k ≡ false
    → (k === t.trade_id) ≡ false
    → includes (ids (found ++ t ∷ [])) k ≡ false
unfolding includes
includes-append_last [] t k h e = ground arith
includes-append_last (u ∷ us) t k h e = ground (arith, includes-append_last us t k)

IsDistinct-append_last :
    (found : List Trade) (t : Trade)
    → IsDistinct (ids found)
    → has_trade found t.trade_id ≡ false
    → IsDistinct (ids (found ++ t ∷ []))
unfolding has_trade includes
IsDistinct-append_last [] t h e = (refl, tt)
IsDistinct-append_last (u ∷ us) t (h, hs) e = (
  includes-append_last us t u.trade_id h (ground arith),
  IsDistinct-append_last us t hs (ground arith),
)

module _ (max_trades : ℕ) (P : Trade → Type 0) where
  -- At most as many trades as asked for, none twice, all of them as the provider gives them.
  pub record IsFound (found : List Trade) : Type 0 where
    pub distinct : IsDistinct (map (λ (t : Trade). t.trade_id) found)
    pub few : length found ≤ max_trades
    pub given : All P found

  module _ (found : List Trade) (t : Trade) (ts : List Trade) where
    add_trades-new :
        (not (has_trade found t.trade_id) && ltb (length found) max_trades) ≡ true
        → add_trades max_trades found (t ∷ ts) ≡ add_trades max_trades (found ++ t ∷ []) ts
    unfolding add_trades
    add_trades-new e = ground arith

    add_trades-old :
        (not (has_trade found t.trade_id) && ltb (length found) max_trades) ≡ false
        → add_trades max_trades found (t ∷ ts) ≡ add_trades max_trades found ts
    unfolding add_trades
    add_trades-old e = ground arith

  add_trades-IsFound :
      (found trades : List Trade)
      → IsFound found
      → All P trades
      → IsFound (add_trades max_trades found trades)
  unfolding add_trades
  add_trades-IsFound found [] f h = f
  add_trades-IsFound found (t ∷ ts) f (h, hs) =
      elim (Bool-cases (not (has_trade found t.trade_id) && ltb (length found) max_trades)) [
        | inl e ↦
            let f' : IsFound (found ++ t ∷ []) = record {
              distinct = IsDistinct-append_last found t f.distinct (ground arith);
              few = ground (arith, length-append found (t ∷ []), f.few);
              given = All-append P found (t ∷ []) f.given (h, tt);
            } in
            rw (add_trades-new found t ts e) (add_trades-IsFound (found ++ t ∷ []) ts f' hs)
        | inr e ↦ rw (add_trades-old found t ts e) (add_trades-IsFound found ts f hs)
      ]

  pub record IsCollected (c : CollectedTrades) : Type 0 where
    pub found : IsFound c.trades
    pub marked : c.truncated ≡ not c.complete

  abbrev IsNext : CollectedTrades ⊎ Progress → Type 0
  IsNext (inl done) = IsCollected done
  IsNext (inr next) = IsFound next.found

  if_IsNext :
      (test : Bool) (x y : CollectedTrades ⊎ Progress)
      → IsNext x
      → IsNext y
      → IsNext (if test then x else y)
  if_IsNext true x y hx hy = hx
  if_IsNext false x y hx hy = hy

  after_last-IsNext :
      (progress : Progress) (total : Option ℤ) (found : List Trade) (last : Option Trade)
      → IsFound found
      → IsNext (after_last progress total found last)
  after_last-IsNext progress total found none f = record { found = f; marked = refl }
  after_last-IsNext progress total found (some last) f =
      if_IsNext (any (is_cursor (cursor_behind last)) progress.seen_cursors)
        (inl (collected false true found)) _ (record { found = f; marked = refl }) f

  after_page-IsNext :
      (progress : Progress) (result : TradesRead)
      → IsFound progress.found
      → All P result.trades
      → IsNext (after_page max_trades progress result)
  unfolding after_page
  after_page-IsNext progress result f h =
      let total = first_total progress.total_trades result.total_trades in
      let found = add_trades max_trades progress.found result.trades in
      let f' = add_trades-IsFound progress.found result.trades f h in
      if_IsNext (reaches total found) (inl (collected true false found)) _
        (record { found = f'; marked = refl })
        (if_IsNext (not result.has_more)
          (inl
            (collected (reaches_if_known total found) (not (reaches_if_known total found)) found))
          _ (record { found = f'; marked = refl })
          (if_IsNext (leb max_trades (length found)) (inl (collected false true found)) _
            (record { found = f'; marked = refl })
            (after_last-IsNext progress total found (last_trade result.trades) f')))

-- What holds of the value of a reply, if it has one.
abbrev pub Replies : {W T : Type 0} → (T → Type 0) → Reply W T → Type 0
Replies Q (ok value, w) = Q value
Replies Q (err error, w) = Unit

module _ {W U : Type 0} (J : U → Type 0) where
  if_Replies :
      (test : Bool) (x y : Reply W U)
      → Replies J x
      → Replies J y
      → Replies J (if test then x else y)
  if_Replies true x y hx hy = hx
  if_Replies false x y hx hy = hy

  pub on_reply-Replies :
      {T : Type 0} (Q : T → Type 0) (reply : Reply W T) (fulfilled : T → W → Reply W U)
      (rejected : Failure → W → Reply W U)
      → Replies Q reply
      → ((value : T) (w : W) → Q value → Replies J (fulfilled value w))
      → ((error : Failure) (w : W) → Replies J (rejected error w))
      → Replies J (on_reply reply fulfilled rejected)
  on_reply-Replies Q (ok value, w) fulfilled rejected q hf hr = hf value w q
  on_reply-Replies Q (err error, w) fulfilled rejected q hf hr = hr error w

any_reply : {W T : Type 0} (reply : Reply W T) → Replies (λ _. Unit) reply
any_reply (ok value, w) = tt
any_reply (err error, w) = tt

module _ {W : Type 0} (provider : SteamReadSessionProvider W) (P : Trade → Type 0)
    (honest : (n : ℕ) (options : TradesReadOptions) (w : W)
      → Replies
          (λ (result : TradesRead). All P result.trades)
          (provider.read_recent_trades n options w)) where
  abbrev IsGiven : TradesRead → Type 0
  IsGiven result = All P result.trades

  retry-IsGiven :
      (n : ℕ) (options : TradesReadOptions) (error : Failure)
      (refresh : Option (W → Reply W (Unit {0}))) (w : W)
      → Replies IsGiven (retry_after_refresh provider n options error refresh w)
  retry-IsGiven n options error none w = tt
  retry-IsGiven n options error (some refresh) w =
      on_reply-Replies IsGiven (λ _. Unit) (refresh w)
        (λ done w'. provider.read_recent_trades n options w') (λ refused w'. (err refused, w'))
        (any_reply (refresh w)) (λ done w' _. honest n options w') (λ refused w'. tt)

  read_page-IsGiven :
      (n : ℕ) (options : TradesReadOptions) (w : W)
      → Replies IsGiven (read_trade_history_page provider n options w)
  unfolding read_trade_history_page
  read_page-IsGiven n options w =
      on_reply-Replies IsGiven IsGiven (provider.read_recent_trades n options w) _ _
        (honest n options w) (λ result w' q. q)
        (λ error w'.
          if_Replies IsGiven (is_steam_session_failure error)
            (retry_after_refresh provider n options error provider.refresh_access_token w')
            (err error, w') (retry-IsGiven n options error provider.refresh_access_token w') tt)

  module _ (max_trades : ℕ) where
    next-IsCollected :
        (pages : ℕ) (outcome : CollectedTrades ⊎ Progress) (w : W)
        → ((next : Progress)
            → IsFound max_trades P next.found
            → Replies
                (IsCollected max_trades P)
                (collect_pages provider pages false max_trades next w))
        → IsNext max_trades P outcome
        → Replies (IsCollected max_trades P) (elim outcome [
          | inl done ↦ (ok done, w)
          | inr next ↦ collect_pages provider pages false max_trades next w
        ])
    next-IsCollected pages (inl done) w later h = h
    next-IsCollected pages (inr next) w later h = later next h

    collect_pages-IsCollected :
        (pages : ℕ) (first : Bool) (progress : Progress) (w : W)
        → IsFound max_trades P progress.found
        → Replies
            (IsCollected max_trades P)
            (collect_pages provider pages first max_trades progress w)
    unfolding collect_pages
    collect_pages-IsCollected zero first progress w f = record { found = f; marked = refl }
    collect_pages-IsCollected (suc pages) first progress w f =
        if_Replies (IsCollected max_trades P) (leb max_trades (length progress.found)) _ _
          (record { found = f; marked = falls_short-reaches progress.total_trades progress.found })
          (on_reply-Replies (IsCollected max_trades P) IsGiven
            (read_trade_history_page provider (max_trades - length progress.found)
              (page_options provider first progress) w)
            _ _
            (read_page-IsGiven (max_trades - length progress.found)
              (page_options provider first progress) w)
            (λ result w' q.
              next-IsCollected pages (after_page max_trades progress result) w'
                (λ next f'. collect_pages-IsCollected pages false next w' f')
                (after_page-IsNext max_trades P progress result f q))
            (λ error w'. tt))

    -- Where every page that the provider gives has only trades that satisfy a predicate, so do the
    -- collected ones; no trade id is among them twice, they are no more than asked for, and the run
    -- is marked as truncated exactly when it is not complete.
    pub collect_recent_trades-IsCollected :
        (w : W) → Replies (IsCollected max_trades P) (collect_recent_trades provider max_trades w)
    unfolding collect_recent_trades
    collect_recent_trades-IsCollected w =
        collect_pages-IsCollected max_trade_history_pages true no_progress w
          (record { distinct = tt; few = omega arith; given = tt })
