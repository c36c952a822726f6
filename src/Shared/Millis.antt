-- ===== src/Shared/Millis.antt =====
-- Milliseconds as the JavaScript numbers of the extension give them, which may have a fraction. The
-- model takes them as exact decimals: the rounding of a double is not modelled, nor is a number that
-- is not finite.
use native.Mathlib.Omega.{div_any}
use csboard_extension.Prelude.{
  ℕ, zero, suc, ◌+◌, ◌*◌, ◌/◌, ◌%◌, ◌^◌, ◌<◌, ◌≡◌, ◌⊎◌, inl, inr, refl, Bool, true, ◌&&◌, ◌||◌,
  arith, ltb, if◌then◌else◌,
}
use csboard_extension.Prelude.Int.{ℤ, pos, ◌+ℤ◌, ◌<ℤ◌, ◌≤ℤ◌, ltb_ℤ, leb_ℤ, eqb_ℤ, scale}
use csboard_extension.Gateway.Payload.{Number, int, fraction}

-- The whole milliseconds, rounded down, and `beyond / 10 ^ places`, which is less than one more.
pub record Millis : Type 0 where
  pub whole : ℤ
  pub beyond : ℕ
  pub places : ℕ

abbrev pub whole_ms : ℤ → Millis
whole_ms n = record { whole = n; beyond = 0; places = 0 }

-- The later by `delay`.
abbrev pub plus_ms : ℕ → Millis → Millis
plus_ms now delay = record delay { whole = pos now +ℤ delay.whole }

abbrev pub number_from : ℤ → ℕ → ℕ → Number
number_from whole zero places = int whole
number_from whole (suc n) places = fraction (scale (10 ^ places) whole +ℤ pos (suc n)) places

-- The number itself.
abbrev pub number_of : Millis → Number
number_of m = number_from m.whole m.beyond m.places

-- `m > n` and `m <= n` for a whole `n`.
abbrev pub is_after : ℤ → Millis → Bool
is_after n m = ltb_ℤ n m.whole || (eqb_ℤ n m.whole && ltb 0 m.beyond)

-- `Math.max(low, Math.min(high, m))` with whole limits.
unfoldable pub clamp : ℕ → ℕ → Millis → Millis
clamp low high m =
    if ltb_ℤ m.whole (pos low)
    then whole_ms (pos low)
    else (if leb_ℤ (pos high) m.whole then whole_ms (pos high) else m)

-- `m / 10 ^ places`, of which the whole part and the rest.
abbrev pub decimal_ms : ℕ → ℕ → Millis
decimal_ms m places = record {
  whole = pos (m / 10 ^ places);
  beyond = m % 10 ^ places;
  places = places;
}

abbrev pub IsIntegral : Millis → Type 0
IsIntegral m = m ≡ whole_ms m.whole

abbrev pub IsPast : ℤ → Millis → Type 0
IsPast n m = (n <ℤ m.whole) ⊎ ((n ≤ℤ m.whole) × (0 < m.beyond))

abbrev pub IsUpTo : ℤ → Millis → Type 0
IsUpTo n m = (m.whole <ℤ n) ⊎ ((m.whole ≤ℤ n) × (m.beyond ≡ 0))

pub is_after-IsPast : (n : ℤ) (m : Millis) → is_after n m ≡ true → IsPast n m
is_after-IsPast n m h = ground arith

pub clamp_bounds :
    (low high : ℕ) (m : Millis)
    → low < high
    → (pos low ≤ℤ (clamp low high m).whole) × IsUpTo (pos high) (clamp low high m)
unfolding clamp
clamp_bounds low high m h = ground arith

pub clamp-IsIntegral : (low high : ℕ) (m : Millis) → IsIntegral m → IsIntegral (clamp low high m)
unfolding clamp
clamp-IsIntegral low high m h = ground arith

-- A decimal that is not 0 is after 0.
pub decimal_ms-IsPast : (m places : ℕ) → 0 < m → IsPast (pos 0) (decimal_ms m places)
decimal_ms-IsPast m places h = elim (zero-or-suc (m % 10 ^ places)) [
  | inl none_beyond ↦ elim (zero-or-suc (m / 10 ^ places)) [
    | inl none_whole ↦ absurd (ground (arith, product))
    | inr some_whole ↦ inl (omega (arith, some_whole))
  ]
  | inr some_beyond ↦ inr (omega arith, some_beyond)
]
  where
    zero-or-suc : (n : ℕ) → (n ≡ 0) ⊎ (0 < n)
    zero-or-suc zero = inl refl
    zero-or-suc (suc n) = inr (omega arith)

    product : 10 ^ places * (m / 10 ^ places) + m % 10 ^ places ≡ m
    product = div_any m (10 ^ places)
