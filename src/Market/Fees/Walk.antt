-- ===== src/Market/Fees/Walk.antt =====
-- shared/steam-fees.ts: what the walk of `receivedForBuyerPays` finds.
use csboard_extension.Prelude.{
  ℕ, zero, suc, ◌+◌, ◌≤◌, ◌<◌, ◌≡◌, refl, Bool, true, false, arith, Bool-cases, ◌⊎◌, inl, inr,
}
use csboard_extension.Prelude.Int.{pos}
use csboard_extension.Market.Floats.{Floats}
use csboard_extension.Market.Fees.{
  FeeSplit, WalletFeeInfo, steam_fee_of, publisher_fee_of, buyer_pays_for_received,
  estimate_received, walk, received_for_buyer_pays,
}

le_or_lt : (m n : ℕ) → (m ≤ n) ⊎ (n < m)
le_or_lt m n = omega arith

is_eq_or_lt : (m n : ℕ) → m ≤ n → (m ≡ n) ⊎ (m < n)
is_eq_or_lt m n h = omega arith

abbrev pub before : ℕ → ℕ
before zero = zero
before (suc n) = n

module _ (arithmetic : Floats) (wallet : WalletFeeInfo arithmetic) where
  open arithmetic use {
    Float, of_ℕ, add, mul, larger, floor, is_positive, Le, of_ℕ-Le, mul-Le, larger-Le, add-Le,
    floor-le,
  }

  abbrev pub split_of : ℕ → FeeSplit
  split_of received = buyer_pays_for_received arithmetic wallet (pos received)

  -- What the buyer pays, by what the seller receives.
  unfoldable pub total : ℕ → ℕ
  total received = (split_of received).buyer_pays

  -- Rates are not negative.
  pub record HasRates : Type 0 where
    pub steam : Le (of_ℕ 0) wallet.fee_percent
    pub publisher : Le (of_ℕ 0) wallet.publisher_fee_percent

  steam_fee-le :
      HasRates
      → (m n : ℕ) → m ≤ n
      → steam_fee_of arithmetic wallet m ≤ steam_fee_of arithmetic wallet n
  steam_fee-le rates m n h =
      floor-le _ _ (add-Le _ _ _ (larger-Le _ _ _ (mul-Le _ _ _ rates.steam (of_ℕ-Le m n h))))

  publisher_fee-le :
      HasRates
      → (m n : ℕ) → m ≤ n
      → publisher_fee_of arithmetic wallet m ≤ publisher_fee_of arithmetic wallet n
  publisher_fee-le rates m n h = elim (Bool-cases (is_positive wallet.publisher_fee_percent)) [
    | inl charged ↦
        rw charged (floor-le _ _ (larger-Le _ _ _ (mul-Le _ _ _ rates.publisher (of_ℕ-Le m n h))))
    | inr free ↦ rw free (omega arith)
  ]

  -- A seller who receives more costs the buyer more.
  pub total-lt : HasRates → (n : ℕ) → total n < total (suc n)
  unfolding total buyer_pays_for_received
  total-lt rates n = omega (
    arith,
    steam_fee-le rates n (suc n) (omega arith),
    publisher_fee-le rates n (suc n) (omega arith),
  )

  -- The split of the greatest amount to receive for which the buyer pays at most the target.
  pub record IsBest (target : ℕ) (split : FeeSplit) : Type 0 where
    pub received : ℕ
    pub is_split : split ≡ split_of received
    pub within : total received ≤ target
    pub next : target < total (suc received)

  abbrev walk_from : ℕ → ℕ → ℕ → Bool → FeeSplit
  walk_from target rounds r undershot =
      walk arithmetic wallet target rounds (pos r) undershot (split_of r)

  module _ (target rounds r : ℕ) where
    walk_hit :
        (undershot : Bool)
        → total r ≡ target
        → walk_from target (suc rounds) r undershot ≡ split_of r
    unfolding walk total
    walk_hit undershot h = ground arith

    walk_up :
        (undershot : Bool)
        → total r < target
        → walk_from target (suc rounds) r undershot ≡ walk_from target rounds (suc r) undershot
    unfolding walk total
    walk_up undershot h = ground arith

    walk_down :
        target < total (suc r)
        → walk_from target (suc rounds) (suc r) false ≡ walk_from target rounds r true
    unfolding walk total
    walk_down h = ground arith

    walk_settle : target < total (suc r) → walk_from target (suc rounds) (suc r) true ≡ split_of r
    unfolding walk total
    walk_settle h = ground arith

  module _ (target : ℕ) where
    best : (r : ℕ) → total r ≤ target → target < total (suc r) → IsBest target (split_of r)
    best r within next = record { received = r; is_split = refl; within = within; next = next }

    settled :
        (rounds r : ℕ)
        → total r ≤ target
        → target < total (suc r)
        → IsBest target (walk_from target (suc rounds) (suc r) true)
    settled rounds r lo hi = rw (walk_settle target rounds r hi) (best r lo hi)

    returned :
        (rounds r : ℕ)
        → total r ≤ target
        → target < total (suc r)
        → IsBest target (walk_from target (suc (suc rounds)) r true)
    returned rounds r lo hi = elim (is_eq_or_lt (total r) target lo) [
      | inl e ↦ rw (walk_hit target (suc rounds) r true e) (best r lo hi)
      | inr lt ↦ rw (walk_up target (suc rounds) r true lt) (settled rounds r lo hi)
    ]

    -- One step too high for the first time.
    from_above :
        (rounds r : ℕ)
        → total r ≤ target
        → target < total (suc r)
        → IsBest target (walk_from target (suc (suc (suc rounds))) (suc r) false)
    from_above rounds r lo hi =
        rw (walk_down target (suc (suc rounds)) r hi) (returned rounds r lo hi)

    -- From below, with rounds enough to reach the target.
    from_below :
        HasRates
        → (rounds r : ℕ) → total r ≤ target
        → target + 4 ≤ total r + rounds
        → IsBest target (walk_from target rounds r false)
    from_below rates zero r lo enough = absurd (omega arith)
    from_below rates (suc rounds) r lo enough = elim (is_eq_or_lt (total r) target lo) [
      | inl e ↦ rw (walk_hit target rounds r false e) (best r lo (omega (arith, total-lt rates r)))
      | inr lt ↦ rw (walk_up target rounds r false lt) (elim (le_or_lt (total (suc r)) target) [
        | inl le ↦ from_below rates rounds (suc r) le (omega (arith, total-lt rates r))
        | inr above ↦ overshot rounds (omega arith) above
      ])
    ]
      where
        overshot :
            (n : ℕ)
            → 4 ≤ n
            → target < total (suc r)
            → IsBest target (walk_from target n (suc r) false)
        overshot zero h above = absurd (omega arith)
        overshot (suc zero) h above = absurd (omega arith)
        overshot (suc (suc zero)) h above = absurd (omega arith)
        overshot (suc (suc (suc n))) h above = from_above n r lo above

  -- The estimate overshoots by one step at most, and is not a thousand minor units short.
  pub record IsNear (target r : ℕ) : Type 0 where
    pub lowers : total (before r) ≤ target
    pub reaches : target + 5 ≤ total r + 1000

  -- When the rates are not negative and the estimate is near, `receivedForBuyerPays` returns the
  -- split of the greatest amount to receive for which the buyer pays at most the target.
  pub received_for_buyer_pays-IsBest :
      HasRates
      → (target : ℕ) → IsNear target (estimate_received arithmetic wallet target)
      → IsBest target (received_for_buyer_pays arithmetic wallet target)
  unfolding received_for_buyer_pays
  received_for_buyer_pays-IsBest rates target near =
      from_estimate (estimate_received arithmetic wallet target) near.lowers near.reaches
    where
      from_estimate :
          (r : ℕ)
          → total (before r) ≤ target
          → target + 5 ≤ total r + 1000
          → IsBest target (walk_from target 1000 r false)
      from_estimate zero lo enough = from_below target rates 1000 zero lo (omega arith)
      from_estimate (suc r) lo enough = elim (le_or_lt (total (suc r)) target) [
        | inl le ↦ from_below target rates 1000 (suc r) le (omega arith)
        | inr above ↦ from_above target 997 r lo above
      ]

  -- When the rates are not negative and two steps below the estimate the buyer still pays more than
  -- the target, `receivedForBuyerPays` returns the split of just that amount, two below the estimate,
  -- whose buyer pays more than the target.
  pub received_for_buyer_pays_overshoots :
      HasRates
      → (target r : ℕ) → estimate_received arithmetic wallet target ≡ suc (suc r)
      → target < total r
      → (received_for_buyer_pays arithmetic wallet target ≡ split_of r)
        × (target < (received_for_buyer_pays arithmetic wallet target).buyer_pays)
  unfolding received_for_buyer_pays total
  received_for_buyer_pays_overshoots rates target r e low =
      rw (e, walk_down target 999 (suc r) high, walk_settle target 998 r mid) (refl, low)
    where
      mid : target < total (suc r)
      mid = omega (arith, total-lt rates r)

      high : target < total (suc (suc r))
      high = omega (arith, total-lt rates r, total-lt rates (suc r))
