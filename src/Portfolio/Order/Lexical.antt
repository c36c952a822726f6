-- ===== src/Portfolio/Order/Lexical.antt =====
-- What the comparisons say of the values that they compare: the orders by several keys, written out.
use Prim.Native.Nat.{compare, Ordering}
use csboard_extension.Prelude.{
  ℕ, ◌<◌, ◌≡◌, refl, false, ◌⊎◌, inl, inr, List, [], ◌∷◌, arith, All, All-map,
}
use csboard_extension.Prelude.Int.{ℤ, pos, negsuc, ◌<ℤ◌}
use csboard_extension.Prelude.Text.{Text}
use csboard_extension.Portfolio.Order.{compare_text, compare_ℤ, then_by, is_lt}
use csboard_extension.Portfolio.Order.Sorting.{IsAscending}

-- The first text stands before the second in a dictionary of code units.
abbrev pub IsTextBelow : Text → Text → Type 0
IsTextBelow xs [] = ⊥
IsTextBelow [] (y ∷ ys) = Unit
IsTextBelow (x ∷ xs) (y ∷ ys) = (x < y) ⊎ ((x ≡ y) × IsTextBelow xs ys)

-- Below in the first key, or equal in it and no worse in the next.
abbrev pub Then : Type 0 → Type 0 → Type 0 → Type 0
Then below same next = below ⊎ (same × next)

abbrev pub IsTextUpTo : Text → Text → Type 0
IsTextUpTo x y = IsTextBelow x y ⊎ (x ≡ y)

-- What a comparison of the right with the left that is not less says.
abbrev pub Says : Ordering → Type 0 → Type 0 → Type 0
Says Ordering.lt below same = Unit
Says Ordering.eq below same = same
Says Ordering.gt below same = below

compare-Says : (m n : ℕ) → Says (compare n m) (m < n) (m ≡ n)
compare-Says m n = ground arith

pub compare_ℤ-Says : (a b : ℤ) → Says (compare_ℤ b a) (a <ℤ b) (a ≡ b)
unfolding compare_ℤ
compare_ℤ-Says (pos m) (pos n) = ground arith
compare_ℤ-Says (pos m) (negsuc n) = tt
compare_ℤ-Says (negsuc m) (pos n) = omega arith
compare_ℤ-Says (negsuc m) (negsuc n) = ground arith

Says-cons :
    (x y : ℕ) (xs ys : Text) (a b : Ordering)
    → Says a (x < y) (x ≡ y)
    → Says b (IsTextBelow xs ys) (xs ≡ ys)
    → Says (then_by a b) (IsTextBelow (x ∷ xs) (y ∷ ys)) (◌≡◌ {A = Text} (x ∷ xs) (y ∷ ys))
Says-cons x y xs ys Ordering.lt b h k = tt
Says-cons x y xs ys Ordering.gt b h k = inl h
Says-cons x y xs ys Ordering.eq Ordering.lt h k = tt
Says-cons x y xs ys Ordering.eq Ordering.gt h k = inr (h, k)
Says-cons x y xs ys Ordering.eq Ordering.eq h k = cc

pub compare_text-Says : (xs ys : Text) → Says (compare_text ys xs) (IsTextBelow xs ys) (xs ≡ ys)
unfolding compare_text
compare_text-Says [] [] = refl
compare_text-Says [] (y ∷ ys) = tt
compare_text-Says (x ∷ xs) [] = tt
compare_text-Says (x ∷ xs) (y ∷ ys) =
    Says-cons x y xs ys (compare y x) (compare_text ys xs) (compare-Says x y)
      (compare_text-Says xs ys)

-- The last key.
pub last_key :
    {below same : Type 0} (a : Ordering) → Says a below same → is_lt a ≡ false → below ⊎ same
last_key Ordering.lt h e = cc
last_key Ordering.eq h e = inr h
last_key Ordering.gt h e = inl h

-- A key, and those behind it.
pub first_key :
    {below same next : Type 0} (a b : Ordering)
    → Says a below same
    → (is_lt b ≡ false → next)
    → is_lt (then_by a b) ≡ false
    → Then below same next
first_key Ordering.lt b h k e = cc
first_key Ordering.eq b h k e = inr (h, k e)
first_key Ordering.gt b h k e = inl h

-- Each entry is in relation to the next.
abbrev pub IsStepwise : {A : Type 0} → (A → A → Type 0) → List A → Type 0
IsStepwise S [] = Unit
IsStepwise S (x ∷ []) = Unit
IsStepwise S (x ∷ y ∷ ys) = S x y × IsStepwise S (y ∷ ys)

-- Each entry is in relation to all behind it.
abbrev pub IsPairwise : {A : Type 0} → (A → A → Type 0) → List A → Type 0
IsPairwise S [] = Unit
IsPairwise S (x ∷ xs) = All (S x) xs × IsPairwise S xs

module _ {A : Type 0} (order : A → A → Ordering) (R : A → A → Type 0)
    (says : (x y : A) → is_lt (order y x) ≡ false → R x y) where
  pub IsStepwise-of_ascending : (xs : List A) → IsAscending order xs → IsStepwise R xs
  IsStepwise-of_ascending [] h = tt
  IsStepwise-of_ascending (x ∷ []) h = tt
  IsStepwise-of_ascending (x ∷ y ∷ ys) (h, hs) = (says x y h, IsStepwise-of_ascending (y ∷ ys) hs)

  module _ (transitive : (x y z : A) → R x y → R y z → R x z) where
    pub IsPairwise-of_ascending : (xs : List A) → IsAscending order xs → IsPairwise R xs
    IsPairwise-of_ascending [] h = tt
    IsPairwise-of_ascending (x ∷ []) h = (tt, tt)
    IsPairwise-of_ascending (x ∷ y ∷ ys) (h, hs) =
        let rest = IsPairwise-of_ascending (y ∷ ys) hs in
        (
          (says x y h, All-map (λ (z : A) (r : R y z). transitive x y z (says x y h) r) ys rest.0),
          rest,
        )
