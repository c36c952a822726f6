-- ===== src/Tests/Markets.antt =====
-- shared/steam-fees.ts on the fees of a wallet in dollars, and of one with a high minimum fee, and
-- shared/market-orders.ts on one order book.
use csboard_extension.Prelude.{◌≡◌, ◌<◌, ◌≤◌, ◌+◌, ◌↔◌, refl, arith, true}
use csboard_extension.Market.Orders.{
  is_rate_limited, enter_cooldown, rate_limit_seconds_left, rate_limit_seconds_left_iff,
}
use csboard_extension.Market.Fees.{
  FeeSplit, WalletFeeInfo, buyer_pays_for_received, estimate_received, walk,
  received_for_buyer_pays,
}
use csboard_extension.Market.Fees.Walk.{
  total, HasRates, IsNear, IsBest, received_for_buyer_pays-IsBest,
  received_for_buyer_pays_overshoots, split_of,
}
use csboard_extension.Tests.FixedPoint.{fixed_point}

-- Five per cent and at least one cent for Steam, ten per cent for the publisher.
unfoldable pub dollars : WalletFeeInfo fixed_point
unfolding fixed_point
dollars = record { fee_percent = 500; fee_base = 0; fee_minimum = 1; publisher_fee_percent = 1000 }

unfoldable high_minimum : WalletFeeInfo fixed_point
unfolding fixed_point
high_minimum = record {
  fee_percent = 500;
  fee_base = 0;
  fee_minimum = 20;
  publisher_fee_percent = 1000;
}

unfoldable pub dollar_split : FeeSplit
dollar_split = record {
  received = 88;
  steam_fee = 4;
  publisher_fee = 8;
  fees = 12;
  buyer_pays = 100;
}

pub received_of_a_dollar : received_for_buyer_pays fixed_point dollars 100 ≡ dollar_split
unfolding received_for_buyer_pays walk estimate_received buyer_pays_for_received fixed_point dollars
    dollar_split
received_of_a_dollar = refl

pub dollars-HasRates : HasRates fixed_point dollars
unfolding fixed_point dollars
dollars-HasRates = record { steam = omega arith; publisher = omega arith }

pub dollars-IsNear : IsNear fixed_point dollars 100 (estimate_received fixed_point dollars 100)
unfolding total buyer_pays_for_received estimate_received fixed_point dollars
dollars-IsNear = record { lowers = omega arith; reaches = omega arith }

received_for_buyer_pays-IsBest_example :
    IsBest fixed_point dollars 100 (received_for_buyer_pays fixed_point dollars 100)
received_for_buyer_pays-IsBest_example =
    received_for_buyer_pays-IsBest fixed_point dollars dollars-HasRates 100 dollars-IsNear

high_minimum-HasRates : HasRates fixed_point high_minimum
unfolding fixed_point high_minimum
high_minimum-HasRates = record { steam = omega arith; publisher = omega arith }

high_estimate : estimate_received fixed_point high_minimum 25 ≡ 21
unfolding estimate_received fixed_point high_minimum
high_estimate = refl

high_total : 25 < total fixed_point high_minimum 19
unfolding total buyer_pays_for_received fixed_point high_minimum
high_total = omega arith

received_for_buyer_pays_overshoots_example :
    (received_for_buyer_pays fixed_point high_minimum 25 ≡ split_of fixed_point high_minimum 19)
    × (25 < (received_for_buyer_pays fixed_point high_minimum 25).buyer_pays)
received_for_buyer_pays_overshoots_example =
    received_for_buyer_pays_overshoots fixed_point high_minimum high_minimum-HasRates 25 19
      high_estimate high_total

rate_limit_seconds_left_iff_example :
    ((is_rate_limited (enter_cooldown 5) 90004 ≡ true)
      ↔ (1 ≤ rate_limit_seconds_left (enter_cooldown 5) 90004))
    × ((is_rate_limited (enter_cooldown 5) 90004 ≡ true) ↔ (90004 < 5 + 90000))
rate_limit_seconds_left_iff_example = rate_limit_seconds_left_iff 5 90004
