-- ===== src/Market/Targets/Totals.antt =====
-- shared/market-actions.ts: the totals that are shown before a batch of sales.
use csboard_extension.Prelude.{ℕ, ◌+◌, ◌≡◌, refl, List, [], ◌∷◌, arith, All, length}
use csboard_extension.Prelude.Int.{ℤ}
use csboard_extension.Market.Floats.{Floats}
use csboard_extension.Market.Fees.{FeeSplit, WalletFeeInfo, buyer_pays_for_received}
use csboard_extension.Market.Targets.{
  SellTarget, SellReviewTotals, add_target, add_targets, no_totals, summarize_sell_targets,
}

-- The parts of a split add up.
pub record IsExact (split : FeeSplit) : Type 0 where
  pub fees : split.fees ≡ split.steam_fee + split.publisher_fee
  pub whole : split.buyer_pays ≡ split.received + split.fees

pub buyer_pays_for_received-IsExact :
    (arithmetic : Floats) (wallet : WalletFeeInfo arithmetic) (received : ℤ)
    → IsExact (buyer_pays_for_received arithmetic wallet received)
unfolding buyer_pays_for_received
buyer_pays_for_received-IsExact arithmetic wallet received = record {
  fees = refl;
  whole = omega arith;
}

pub record AddUp (count : ℕ) (total : SellReviewTotals) : Type 0 where
  pub items : total.item_count ≡ count
  pub fees : total.fees ≡ total.steam_fee + total.publisher_fee
  pub whole : total.buyer_pays ≡ total.received + total.fees

add_targets-AddUp :
    (targets : List SellTarget) (count n : ℕ) (total : SellReviewTotals)
    → AddUp count total
    → All (λ (t : SellTarget). IsExact t.split) targets
    → count + length targets ≡ n
    → AddUp n (add_targets total targets)
unfolding add_targets
add_targets-AddUp [] count n total sums h e = record {
  items = omega (arith, sums.items, e);
  fees = sums.fees;
  whole = sums.whole;
}
add_targets-AddUp (t ∷ ts) count n total sums (exact, h) e =
    add_targets-AddUp ts (count + 1) n (add_target total t) added h (omega (arith, e))
  where
    added : AddUp (count + 1) (add_target total t)
    added = record {
      items = omega (arith, sums.items);
      fees = omega (arith, sums.fees, exact.fees);
      whole = omega (arith, sums.whole, exact.whole);
    }

-- What a list of targets comes to in one of their amounts.
abbrev pub sum_of : (SellTarget → ℕ) → List SellTarget → ℕ
sum_of amount [] = 0
sum_of amount (t ∷ ts) = amount t + sum_of amount ts

-- Each total is the sum of that amount over the targets.
pub record AreSums (targets : List SellTarget) (before total : SellReviewTotals) : Type 0 where
  pub items : total.item_count ≡ before.item_count + length targets
  pub received : total.received ≡ before.received + sum_of (λ t. t.split.received) targets
  pub steam_fee : total.steam_fee ≡ before.steam_fee + sum_of (λ t. t.split.steam_fee) targets
  pub publisher_fee :
      total.publisher_fee ≡ before.publisher_fee + sum_of (λ t. t.split.publisher_fee) targets
  pub fees : total.fees ≡ before.fees + sum_of (λ t. t.split.fees) targets
  pub buyer_pays : total.buyer_pays ≡ before.buyer_pays + sum_of (λ t. t.split.buyer_pays) targets

add_targets-AreSums :
    (targets : List SellTarget) (before : SellReviewTotals)
    → AreSums targets before (add_targets before targets)
unfolding add_targets
add_targets-AreSums [] before = record {
  items = omega arith;
  received = omega arith;
  steam_fee = omega arith;
  publisher_fee = omega arith;
  fees = omega arith;
  buyer_pays = omega arith;
}
add_targets-AreSums (t ∷ ts) before =
    let rest = add_targets-AreSums ts (add_target before t) in
    record {
      items = omega (arith, rest.items);
      received = omega (arith, rest.received);
      steam_fee = omega (arith, rest.steam_fee);
      publisher_fee = omega (arith, rest.publisher_fee);
      fees = omega (arith, rest.fees);
      buyer_pays = omega (arith, rest.buyer_pays);
    }

-- Each total that is shown is the sum of that amount over the targets, and the items are counted;
-- and when the split of each target adds up, the total of the fees is that of Steam's and the
-- publisher's, and the total that buyers pay is what sellers receive and the fees.
pub summarize_sell_targets-AddUp :
    (targets : List SellTarget)
    → All (λ (t : SellTarget). IsExact t.split) targets
    → AreSums targets no_totals (summarize_sell_targets targets)
      × AddUp (length targets) (summarize_sell_targets targets)
unfolding summarize_sell_targets
summarize_sell_targets-AddUp targets h = (
  add_targets-AreSums targets no_totals,
  add_targets-AddUp targets 0 (length targets) no_totals
      (record { items = refl; fees = refl; whole = refl }) h (omega arith),
)
