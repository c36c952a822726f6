-- ===== src/Market/Fees.antt =====
-- shared/steam-fees.ts: Steam's fees, from what the seller receives to what the buyer pays and back.
-- Amounts are in minor units of the wallet's currency, rates are floats.
pub mod Walk
use csboard_extension.Prelude.{ℕ, zero, suc, ◌+◌, Bool, true, false, ltb, ◌==◌, if◌then◌else◌}
use csboard_extension.Prelude.Int.{ℤ, pos, negsuc, pos_part}
use csboard_extension.Market.Floats.{Floats}

abbrev pub max_rounds : ℕ
max_rounds = 1000

pub record FeeSplit : Type 0 where
  pub received : ℕ
  pub steam_fee : ℕ
  pub publisher_fee : ℕ
  pub fees : ℕ
  pub buyer_pays : ℕ

module _ (arithmetic : Floats) where
  open arithmetic use {Float, of_ℕ, add, sub, mul, div, larger, floor, is_positive, Le}

  -- The fields that the arithmetic reads.
  pub record WalletFeeInfo : Type 0 where
    pub fee_percent : Float
    pub fee_base : ℕ
    pub fee_minimum : ℕ
    pub publisher_fee_percent : Float

  abbrev pub steam_fee_of : WalletFeeInfo → ℕ → ℕ
  steam_fee_of wallet received = floor (
      add (larger (mul (of_ℕ received) wallet.fee_percent) (of_ℕ wallet.fee_minimum))
        (of_ℕ wallet.fee_base))

  abbrev pub publisher_fee_of : WalletFeeInfo → ℕ → ℕ
  publisher_fee_of wallet received =
      if is_positive wallet.publisher_fee_percent
      then floor (larger (mul (of_ℕ received) wallet.publisher_fee_percent) (of_ℕ 1))
      else 0

  unfoldable pub buyer_pays_for_received : WalletFeeInfo → ℤ → FeeSplit
  buyer_pays_for_received wallet received =
      let safe_received = pos_part received in
      let steam_fee = steam_fee_of wallet safe_received in
      let publisher_fee = publisher_fee_of wallet safe_received in
      record {
        received = safe_received;
        steam_fee = steam_fee;
        publisher_fee = publisher_fee;
        fees = steam_fee + publisher_fee;
        buyer_pays = safe_received + steam_fee + publisher_fee;
      }

  unfoldable pub estimate_received : WalletFeeInfo → ℕ → ℕ
  estimate_received wallet target = floor (
      div (sub (of_ℕ target) (of_ℕ wallet.fee_base))
        (add (add wallet.fee_percent wallet.publisher_fee_percent) (of_ℕ 1)))

  abbrev pub increment : ℤ → ℤ
  increment (pos n) = pos (suc n)
  increment (negsuc zero) = pos 0
  increment (negsuc (suc n)) = negsuc n

  abbrev pub decrement : ℤ → ℤ
  decrement (pos zero) = negsuc 0
  decrement (pos (suc n)) = pos n
  decrement (negsuc n) = negsuc (suc n)

  -- The bounded walk: `split` is that of `received`, and `undershot` says that the walk has
  -- stepped down before.
  unfoldable pub walk : WalletFeeInfo → ℕ → ℕ → ℤ → Bool → FeeSplit → FeeSplit
  walk wallet target zero received undershot split = split
  walk wallet target (suc rounds) received undershot split =
      let lower = decrement received in
      let higher = increment received in
      let down = walk wallet target rounds lower true (buyer_pays_for_received wallet lower) in
      let up = walk wallet target rounds higher undershot (buyer_pays_for_received wallet higher) in
      if split.buyer_pays == target
      then split
      else (if ltb target split.buyer_pays
          then (if undershot then buyer_pays_for_received wallet lower else down)
          else up)

  unfoldable pub received_for_buyer_pays : WalletFeeInfo → ℕ → FeeSplit
  received_for_buyer_pays wallet target =
      let received = pos (estimate_received wallet target) in
      walk wallet target max_rounds received false (buyer_pays_for_received wallet received)
