-- ===== src/Portfolio/Checks/Sound.antt =====
-- shared/portfolio-dto.ts: what `assertPortfolioSnapshot` establishes of a snapshot.
use csboard_extension.Prelude.{
  All-map, ◌≤◌, ◌≡◌, refl, true, false, Option, List, [], ◌∷◌, map, arith, length, All,
}
use csboard_extension.Prelude.Int.{pos, eq_of_parts}
use csboard_extension.Prelude.Text.{Text, ===_iff, includes}
use csboard_extension.Shared.Result.{ok, ◌>>◌, >>-eq-ok, throw_if, throw_if-eq-ok, in_order-AllPass}
use csboard_extension.Gateway.Error.{GatewayPayloadError, Checked}
use csboard_extension.Gateway.Identity.{is_steam_id_64, assert_steam_id_64}
use csboard_extension.Gateway.Payload.Contents.{IsSafe}
use csboard_extension.Gateway.Payload.Complete.{assert-IsSafe_iff}
use csboard_extension.Portfolio.Records.{Trade, Offer, Snapshot}
use csboard_extension.Portfolio.Json.{snapshot_js}
use csboard_extension.Portfolio.Fields.{
  max_inventory_items_per_run, max_trades_per_run, max_offers_per_run, Url,
}
use csboard_extension.Portfolio.Checks.{
  assert_trade, assert_offer, trade_checks, offer_checks, check_distinct, portfolio_asset_identity,
  offer_key, exceeds_run_limits, snapshot_checks, assert_portfolio_snapshot,
}

abbrev pub IsDistinct : List Text → Type 0
IsDistinct [] = Unit
IsDistinct (k ∷ ks) = (includes ks k ≡ false) × IsDistinct ks

module _ {ℓ} {A : Type ℓ} (check : A → Checked (Unit {0})) (key : A → Text)
    (duplicate : GatewayPayloadError) where
  pub record Distinct (seen : List Text) (xs : List A) : Type ℓ where
    pub checked : All (λ x. check x ≡ ok tt) xs
    pub new : All (λ x. includes seen (key x) ≡ false) xs
    pub distinct : IsDistinct (map key xs)

  apart_from :
      (k : Text) (seen : List Text) (xs : List A)
      → All (λ x. includes (k ∷ seen) (key x) ≡ false) xs
      → (includes (map key xs) k ≡ false) × All (λ x. includes seen (key x) ≡ false) xs
  unfolding includes
  apart_from k seen [] h = (refl, tt)
  apart_from k seen (x ∷ xs) (h, hs) =
      let rest = apart_from k seen xs hs in
      (ground (arith, rest.0, ===_iff k (key x), ===_iff (key x) k), (ground arith, rest.1))

  pub check_distinct-Distinct :
      (seen : List Text) (xs : List A)
      → check_distinct check key duplicate seen xs ≡ ok tt
      → Distinct seen xs
  unfolding check_distinct
  check_distinct-Distinct seen [] h = record { checked = tt; new = tt; distinct = tt }
  check_distinct-Distinct seen (x ∷ xs) h =
      let (first, later) =
        >>-eq-ok (check x >> throw_if (includes seen (key x)) duplicate)
          (check_distinct check key duplicate (key x ∷ seen) xs) h in
      let (checked, fresh) =
        >>-eq-ok (check x) (throw_if (includes seen (key x)) duplicate) first in
      let rest = check_distinct-Distinct (key x ∷ seen) xs later in
      let apart = apart_from (key x) seen xs rest.new in
      record {
        checked = (checked, rest.checked);
        new = (throw_if-eq-ok _ _ fresh, apart.1);
        distinct = (apart.0, rest.distinct);
      }

-- At most 200 items on a side.
pub record IsSmallTrade (t : Trade) : Type 0 where
  pub given : length t.items_given ≤ 200
  pub received : length t.items_received ≤ 200
  pub partner : is_steam_id_64 t.partner_steam_id ≡ true

pub record IsAcceptedOffer (o : Offer) : Type 0 where
  pub accepted : o.state ≡ pos 3
  pub given : length o.items_to_give ≤ 200
  pub received : length o.items_to_receive ≤ 200

module _ (parse_url : Text → Option Url) where
  assert_trade-IsSmallTrade : (t : Trade) → assert_trade parse_url t ≡ ok tt → IsSmallTrade t
  unfolding assert_trade assert_steam_id_64
  assert_trade-IsSmallTrade t h =
      let (id, (partner, (time, (sizes, rest)))) = in_order-AllPass (trade_checks parse_url t) h in
      let small = throw_if-eq-ok _ _ sizes in
      record { given = ground arith; received = ground arith; partner = ground arith }

  assert_offer-IsAcceptedOffer : (o : Offer) → assert_offer parse_url o ≡ ok tt → IsAcceptedOffer o
  unfolding assert_offer
  assert_offer-IsAcceptedOffer o h =
      let (id, (partner, (state, (time, (completed, (sizes, rest)))))) =
        in_order-AllPass (offer_checks parse_url o) h in
      let small = throw_if-eq-ok _ _ sizes in
      let accepted = throw_if-eq-ok _ _ state in
      record {
        accepted = eq_of_parts o.state (pos 3) (ground arith);
        given = ground arith;
        received = ground arith;
      }

-- The snapshots that may be cut into chunks.
pub record IsSoundSnapshot (s : Snapshot) : Type 0 where
  pub safe : IsSafe 0 (snapshot_js s)
  pub owner : is_steam_id_64 s.steam_id ≡ true
  pub few_items : length s.inventory_items ≤ max_inventory_items_per_run
  pub few_trades : length s.trades ≤ max_trades_per_run
  pub few_offers : length s.offers ≤ max_offers_per_run
  pub distinct_items : IsDistinct (map portfolio_asset_identity s.inventory_items)
  pub distinct_trades : IsDistinct (map (λ (t : Trade). t.trade_id) s.trades)
  pub distinct_offers : IsDistinct (map offer_key s.offers)
  pub small_trades : All IsSmallTrade s.trades
  pub accepted_offers : All IsAcceptedOffer s.offers

few_of_limits :
    (s : Snapshot)
    → exceeds_run_limits s ≡ false
    → (length s.inventory_items ≤ max_inventory_items_per_run)
      × (length s.trades ≤ max_trades_per_run)
      × (length s.offers ≤ max_offers_per_run)
unfolding exceeds_run_limits
few_of_limits s h = ground arith

-- A snapshot that passes the check has no secret in it, belongs to a valid Steam account, holds at
-- most 5000 items, 100 trades and 1000 offers, none of them twice, and only trades and accepted
-- offers of at most 200 items on a side.
pub assert_portfolio_snapshot_sound :
    (parse_url : Text → Option Url) (s : Snapshot)
    → assert_portfolio_snapshot parse_url s ≡ ok tt
    → IsSoundSnapshot s
unfolding assert_portfolio_snapshot snapshot_checks assert_steam_id_64
assert_portfolio_snapshot_sound parse_url s h =
    let (safe, (kind, (owner, (time, (run, (source, (limits, (items, (trades, (offers, _)))))))))) =
      in_order-AllPass (snapshot_checks parse_url s) h in
    let few = few_of_limits s (throw_if-eq-ok _ _ limits) in
    let items' = check_distinct-Distinct _ _ _ [] s.inventory_items items in
    let trades' = check_distinct-Distinct _ _ _ [] s.trades trades in
    let offers' = check_distinct-Distinct _ _ _ [] s.offers offers in
    record {
      safe = (assert-IsSafe_iff _).0 safe;
      owner = ground arith;
      few_items = few.0;
      few_trades = few.1;
      few_offers = few.2;
      distinct_items = items'.distinct;
      distinct_trades = trades'.distinct;
      distinct_offers = offers'.distinct;
      small_trades = All-map (assert_trade-IsSmallTrade parse_url) s.trades trades'.checked;
      accepted_offers = All-map (assert_offer-IsAcceptedOffer parse_url) s.offers offers'.checked;
    }
