-- ===== src/Market/Floats.antt =====
-- The floating-point numbers that the fee arithmetic uses, as an interface: the operations of IEEE
-- doubles that shared/steam-fees.ts calls, and that rounding keeps them monotone.
use csboard_extension.Prelude.{ℕ, ◌≤◌, Bool}

pub record Floats : Type 1 where
  pub Float : Type 0
  pub of_ℕ : ℕ → Float
  pub add : Float → Float → Float
  pub sub : Float → Float → Float
  pub mul : Float → Float → Float
  pub div : Float → Float → Float
  pub larger : Float → Float → Float
  -- Math.max(0, Math.floor(x))
  pub floor : Float → ℕ
  pub is_positive : Float → Bool
  pub Le : Float → Float → Type 0
  pub of_ℕ-Le : (m n : ℕ) → m ≤ n → Le (of_ℕ m) (of_ℕ n)
  pub mul-Le : (x y p : Float) → Le (of_ℕ 0) p → Le x y → Le (mul x p) (mul y p)
  pub larger-Le : (x y z : Float) → Le x y → Le (larger x z) (larger y z)
  pub add-Le : (x y z : Float) → Le x y → Le (add x z) (add y z)
  pub floor-le : (x y : Float) → Le x y → floor x ≤ floor y
