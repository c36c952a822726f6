-- ===== src/Tests/Sales.antt =====
-- shared/market-actions.ts on concrete clicks, batches and order books.
use csboard_extension.Prelude.{ℕ, ◌≡◌, refl, true, none, some, List, [], ◌∷◌, arith}
use csboard_extension.Prelude.Int.{pos, is_safe_integer}
use csboard_extension.Prelude.Text.{Text, codes, ◌===◌, is_run_of}
use csboard_extension.Shared.Result.{ok, err}
use csboard_extension.Market.Approvals.{
  Gesture, has, without, unique, no_approvals, sell_policy, authorize, consume, consume_found,
  is_bad_selection, is_trusted_user_gesture,
}
use csboard_extension.Market.Approvals.Usable.{AreApart, AllSucceed, consume-authorize}
use csboard_extension.Market.Approvals.History.{Call, authorizes, consumes, start, run}
use csboard_extension.Market.Approvals.History.Invariant.{IsOrderly}
use csboard_extension.Market.Approvals.History.Orderly.{run-IsOrderly}
use csboard_extension.Market.Batch.{
  BatchEvent, listed, failed, stop, listed_live, pending_email_confirmation, by_user,
  initial_batch_state, reduce_all, StopReason, batch_stop_reason_for_error,
}
use csboard_extension.Market.Batch.Counts.{Tallies, reduce_all-Tallies}
use csboard_extension.Market.Batch.Stops.{consume-stops}
use csboard_extension.Market.Fees.{
  buyer_pays_for_received, received_for_buyer_pays, walk, estimate_received,
}
use csboard_extension.Market.Targets.{
  no_totals, instant, OrderBook, SellTarget, target_at, compute_sell_target, summarize_sell_targets,
  sell,
}
use csboard_extension.Market.Gate.{Request, Run, min_write_gap_ms, gated, gated_chain}
use csboard_extension.Market.Gate.Spacing.{IsSpaced, gated_chain-IsSpaced}
use csboard_extension.Market.Targets.Prices.{IsPriced, compute_sell_target-IsPriced}
use csboard_extension.Market.Targets.Totals.{
  AddUp, AreSums, buyer_pays_for_received-IsExact, summarize_sell_targets-AddUp,
}
use csboard_extension.Tests.FixedPoint.{fixed_point}
use csboard_extension.Tests.Markets.{dollars, dollar_split, dollars-HasRates, dollars-IsNear}

abbrev click : Gesture
click = record { is_trusted = true; is_active = some true }

abbrev account_tail : Text
account_tail = codes "6561198000000001"

abbrev account : Text
account = b'7' ∷ account_tail

abbrev ids : List Text
ids = codes "12" ∷ codes "34" ∷ codes "12" ∷ []

-- The second use of one id, and one by another account, are refused.
abbrev calls : List Call
calls =
    authorizes click ids account 1000
    ∷ consumes 0 (codes "12") (some account) 2000
    ∷ consumes 0 (codes "12") (some account) 3000
    ∷ consumes 0 (codes "34") (some (codes "76561198000000002")) 3000
    ∷ []

run-IsOrderly_example : IsOrderly sell_policy (run sell_policy calls start)
run-IsOrderly_example = run-IsOrderly sell_policy calls

click_is_accepted : (authorize sell_policy click ids account 1000 no_approvals).0 ≡ ok 0
unfolding authorize sell_policy is_bad_selection is_trusted_user_gesture is_run_of unique without
    ◌===◌
click_is_accepted = refl

listed_id : has (codes "34") ids ≡ true
unfolding has ◌===◌
listed_id = refl

also_listed : has (codes "12") ids ≡ true
unfolding has ◌===◌
also_listed = refl

-- The second id first, and the other thirty minutes after the click.
abbrev uses : List (Text × ℕ)
uses = (codes "34", 2000) ∷ (codes "12", 1801000) ∷ []

uses-AreApart : AreApart uses
unfolding ◌===◌
uses-AreApart = ((refl, tt), (tt, tt))

consume-authorize_example :
    AllSucceed sell_policy 0 b'7' account_tail uses
      (authorize sell_policy click ids account 1000 no_approvals).1
consume-authorize_example =
    consume-authorize sell_policy click ids uses b'7' account_tail 1000 no_approvals
      click_is_accepted ((listed_id, omega arith), ((also_listed, omega arith), tt)) uses-AreApart

never_approved :
    (consume sell_policy 5 (codes "34") none 2000 no_approvals).0 ≡ err sell_policy.expired
unfolding consume consume_found
never_approved = refl

consume-stops_example :
    (reason : StopReason) × (batch_stop_reason_for_error sell_policy.expired ≡ some reason)
consume-stops_example =
    consume-stops 5 (codes "34") none 2000 no_approvals sell_policy.expired never_approved

abbrev events : List BatchEvent
events =
    failed
    ∷ BatchEvent.start (pos 3)
    ∷ listed listed_live
    ∷ listed pending_email_confirmation
    ∷ failed
    ∷ stop by_user
    ∷ []

reduce_all-Tallies_example : Tallies events (reduce_all initial_batch_state events)
reduce_all-Tallies_example = reduce_all-Tallies events

abbrev book : OrderBook
book = record { highest_buy_order = some (pos 100); lowest_sell_order = none; fetched_at = 5 }

abbrev target : SellTarget
target = record {
  mode = instant;
  buyer_pays = 100;
  split = dollar_split;
  basis = "meets the highest buy order";
  book_fetched_at = some 5;
}

instant_target : compute_sell_target fixed_point dollars instant book ≡ some target
unfolding compute_sell_target target_at is_safe_integer received_for_buyer_pays walk
    estimate_received buyer_pays_for_received fixed_point dollars dollar_split
instant_target = refl

compute_sell_target-IsPriced_example : IsPriced fixed_point dollars (pos 100) target
compute_sell_target-IsPriced_example =
    compute_sell_target-IsPriced fixed_point dollars dollars-HasRates instant book (pos 100) target
      refl dollars-IsNear instant_target

abbrev asked : SellTarget
asked = record {
  mode = sell;
  buyer_pays = (buyer_pays_for_received fixed_point dollars (pos 250)).buyer_pays;
  split = buyer_pays_for_received fixed_point dollars (pos 250);
  basis = "editable price";
  book_fetched_at = none;
}

summarize_sell_targets-AddUp_example :
    AreSums (asked ∷ asked ∷ []) no_totals (summarize_sell_targets (asked ∷ asked ∷ []))
    × AddUp 2 (summarize_sell_targets (asked ∷ asked ∷ []))
summarize_sell_targets-AddUp_example = summarize_sell_targets-AddUp (asked ∷ asked ∷ []) (
  buyer_pays_for_received-IsExact fixed_point dollars (pos 250),
  (buyer_pays_for_received-IsExact fixed_point dollars (pos 250), tt),
)

abbrev requests : List Request
requests =
    record { made_at = 5000; late = 3; takes = 40 }
    ∷ record { made_at = 5010; late = 7; takes = 2000 }
    ∷ record { made_at = 5020; late = 1; takes = 40 }
    ∷ []

abbrev runs : List Run
runs =
    record { begins = 5000; ends = 5040 }
    ∷ record { begins = 6507; ends = 8507 }
    ∷ record { begins = 8507; ends = 8547 }
    ∷ []

three_writes : gated_chain min_write_gap_ms 0 0 requests ≡ runs
unfolding gated_chain gated
three_writes = refl

gated_chain-IsSpaced_example :
    IsSpaced min_write_gap_ms 0 0 requests (gated_chain min_write_gap_ms 0 0 requests)
gated_chain-IsSpaced_example = gated_chain-IsSpaced min_write_gap_ms 0 0 requests
