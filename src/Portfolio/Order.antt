-- ===== src/Portfolio/Order.antt =====
-- The three-way comparisons that Array.prototype.sort is given, and the stable sort itself.
pub mod Sorting
pub mod Lexical
use Prim.Native.Nat.{compare, Ordering}
use csboard_extension.Prelude.{ℕ, Bool, true, false, List, [], ◌∷◌}
use csboard_extension.Prelude.Int.{ℤ, pos, negsuc}
use csboard_extension.Prelude.Text.{Text}

-- `first || second` on the results of comparisons.
abbrev pub then_by : Ordering → Ordering → Ordering
then_by Ordering.lt second = Ordering.lt
then_by Ordering.eq second = second
then_by Ordering.gt second = Ordering.gt

-- `left - right`
unfoldable pub compare_ℤ : ℤ → ℤ → Ordering
compare_ℤ (pos m) (pos n) = compare m n
compare_ℤ (pos m) (negsuc n) = Ordering.gt
compare_ℤ (negsuc m) (pos n) = Ordering.lt
compare_ℤ (negsuc m) (negsuc n) = compare n m

-- `left.localeCompare(right)` on digits and on lowercase letters, where it is the order of the code
-- units.
unfoldable pub compare_text : Text → Text → Ordering
compare_text [] [] = Ordering.eq
compare_text [] (y ∷ ys) = Ordering.lt
compare_text (x ∷ xs) [] = Ordering.gt
compare_text (x ∷ xs) (y ∷ ys) = then_by (compare x y) (compare_text xs ys)

abbrev pub is_lt : Ordering → Bool
is_lt Ordering.lt = true
is_lt Ordering.eq = false
is_lt Ordering.gt = false

module _ {ℓ} {A : Type ℓ} (order : A → A → Ordering) where
  -- Behind all that are less, and before those that are equal and stood later.
  unfoldable pub insert : A → List A → List A
  insert x [] = x ∷ []
  insert x (y ∷ ys) = elim (is_lt (order y x)) [ true ↦ y ∷ insert x ys | false ↦ x ∷ y ∷ ys ]

  unfoldable pub sort : List A → List A
  unfolding insert
  sort [] = []
  sort (x ∷ xs) = insert x (sort xs)
