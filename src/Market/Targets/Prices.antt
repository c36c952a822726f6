-- ===== src/Market/Targets/Prices.antt =====
-- shared/market-actions.ts: what the buyer and the seller get at the price of a sale.
use csboard_extension.Prelude.{
  ℕ, ◌≤◌, ◌≡◌, refl, sym, ap, ◌∙◌, inl, inr, Bool-cases, not, ◌||◌, some, ltb, arith,
}
use csboard_extension.Prelude.Int.{ℤ, pos, pos_part, is_safe_integer, ltb_ℤ, ◌≤ℤ◌}
use csboard_extension.Market.Floats.{Floats}
use csboard_extension.Market.Fees.{
  FeeSplit, WalletFeeInfo, received_for_buyer_pays, estimate_received,
}
use csboard_extension.Market.Fees.Walk.{
  total, HasRates, IsBest, IsNear, received_for_buyer_pays-IsBest,
}
use csboard_extension.Market.Targets.{
  min_buyer_price, basis_of, SellMode, OrderBook, SellTarget, price_of, target_at,
  compute_sell_target,
}

-- A target for a price from the book.
pub record IsPriced (arithmetic : Floats) (wallet : WalletFeeInfo arithmetic) (price : ℤ)
    (target : SellTarget) : Type 0 where
  pub floor : pos min_buyer_price ≤ℤ price
  pub best : IsBest arithmetic wallet (pos_part price) target.split
  pub paid : target.buyer_pays ≡ target.split.buyer_pays
  pub affordable : target.buyer_pays ≤ pos_part price
  pub earns : 1 ≤ target.split.received

module _ (arithmetic : Floats) (wallet : WalletFeeInfo arithmetic) where
  IsBest-within :
      (n : ℕ) (split : FeeSplit) → IsBest arithmetic wallet n split → split.buyer_pays ≤ n
  unfolding total
  IsBest-within n split best = rw best.is_split best.within

  target_at-IsPriced :
      HasRates arithmetic wallet
      → (mode : SellMode) (book : OrderBook) (price : ℤ) (target : SellTarget)
      → IsNear arithmetic wallet
          (pos_part price)
          (estimate_received arithmetic wallet (pos_part price))
      → target_at arithmetic wallet mode book (some price) ≡ some target
      → IsPriced arithmetic wallet price target
  unfolding target_at
  target_at-IsPriced rates mode book price target near h =
      elim (Bool-cases (not (is_safe_integer price) || ltb_ℤ price (pos min_buyer_price))) [
        | inl bad ↦ absurd (cc (rw bad at h))
        | inr good ↦ elim (Bool-cases (ltb split.received 1)) [
          | inl poor ↦ absurd (cc (rw (good, poor) at h))
          | inr earns ↦
              let e : some made ≡ some target = rw (good, earns) at h in
              let same : made ≡ target = cc in
              rw (sym same) (record {
                floor = ground arith;
                best = best;
                paid = refl;
                affordable = IsBest-within (pos_part price) split best;
                earns = ground arith;
              })
        ]
      ]
    where
      split : FeeSplit
      split = received_for_buyer_pays arithmetic wallet (pos_part price)

      made : SellTarget
      made = record {
        mode = mode;
        buyer_pays = split.buyer_pays;
        split = split;
        basis = basis_of mode;
        book_fetched_at = some book.fetched_at;
      }

      best : IsBest arithmetic wallet (pos_part price) split
      best = received_for_buyer_pays-IsBest arithmetic wallet rates (pos_part price) near

  -- When the rates are not negative and the estimate for the price that the mode takes from the
  -- book is near, a target that `computeSellTarget` returns is at a price of three at least, lets
  -- the buyer pay at most that price, gives the seller the most that this price allows, and that is
  -- at least one.
  pub compute_sell_target-IsPriced :
      HasRates arithmetic wallet
      → (mode : SellMode) (book : OrderBook) (price : ℤ) (target : SellTarget)
      → price_of mode book ≡ some price
      → IsNear arithmetic wallet
          (pos_part price)
          (estimate_received arithmetic wallet (pos_part price))
      → compute_sell_target arithmetic wallet mode book ≡ some target
      → IsPriced arithmetic wallet price target
  unfolding compute_sell_target
  compute_sell_target-IsPriced rates mode book price target from_book near h =
      target_at-IsPriced rates mode book price target near
        (sym (ap (target_at arithmetic wallet mode book) from_book) ∙ h)
