-- ===== src/Portfolio/Order/Sorting.antt =====
-- What Array.prototype.sort promises: the same entries, in order.
use Prim.Native.Nat.{compare, Ordering}
use mathlib.Core.List.{Perm}
use mathlib.Core.List.Perm
use csboard_extension.Prelude.{
  ℕ, ◌≡◌, refl, true, false, Bool-cases, inl, inr, List, [], ◌∷◌, arith,
}
use csboard_extension.Prelude.Text.{Text}
use csboard_extension.Prelude.Int.{ℤ, pos, negsuc}
use csboard_extension.Portfolio.Order.{compare_text, compare_ℤ, then_by, is_lt, insert, sort}

module _ {ℓ} {A : Type ℓ} (order : A → A → Ordering) where
  abbrev IsAfter : A → List A → Type 0
  IsAfter x [] = Unit
  IsAfter x (y ∷ ys) = is_lt (order y x) ≡ false

  -- What stands next is not less.
  abbrev pub IsAscending : List A → Type 0
  IsAscending [] = Unit
  IsAscending (x ∷ xs) = IsAfter x xs × IsAscending xs

  module _ (x y : A) (ys : List A) where
    insert_below : is_lt (order y x) ≡ true → insert order x (y ∷ ys) ≡ y ∷ insert order x ys
    unfolding insert
    insert_below less = ground arith

    insert_here : is_lt (order y x) ≡ false → insert order x (y ∷ ys) ≡ x ∷ y ∷ ys
    unfolding insert
    insert_here other = ground arith

  insert-perm : (x : A) (xs : List A) → Perm (insert order x xs) (x ∷ xs)
  insert-perm x [] = unfold insert in Perm.refl (x ∷ [])
  insert-perm x (y ∷ ys) = elim (Bool-cases (is_lt (order y x))) [
    | inl less ↦
        rw (insert_below x y ys less)
          (Perm.trans (Perm.cons y (insert-perm x ys)) (Perm.swap x y ys))
    | inr other ↦ rw (insert_here x y ys other) (Perm.refl (x ∷ y ∷ ys))
  ]

  pub sort-perm : (xs : List A) → Perm (sort order xs) xs
  unfolding sort
  sort-perm [] = Perm.refl []
  sort-perm (x ∷ xs) = Perm.trans (insert-perm x (sort order xs)) (Perm.cons x (sort-perm xs))

  insert-IsAfter :
      (z x : A) (xs : List A)
      → is_lt (order x z) ≡ false
      → IsAfter z xs
      → IsAfter z (insert order x xs)
  insert-IsAfter z x [] first h = unfold insert in first
  insert-IsAfter z x (y ∷ ys) first h = elim (Bool-cases (is_lt (order y x))) [
    | inl less ↦ rw (insert_below x y ys less) h
    | inr other ↦ rw (insert_here x y ys other) first
  ]

  module _ (asymmetric : (x y : A) → is_lt (order x y) ≡ true → is_lt (order y x) ≡ false) where
    insert-IsAscending : (x : A) (xs : List A) → IsAscending xs → IsAscending (insert order x xs)
    insert-IsAscending x [] h = unfold insert in (tt, tt)
    insert-IsAscending x (y ∷ ys) h = elim (Bool-cases (is_lt (order y x))) [
      | inl less ↦
          rw (insert_below x y ys less)
            (insert-IsAfter y x ys (asymmetric y x less) h.0, insert-IsAscending x ys h.1)
      | inr other ↦ rw (insert_here x y ys other) (other, h)
    ]

    pub sort-IsAscending : (xs : List A) → IsAscending (sort order xs)
    unfolding sort
    sort-IsAscending [] = tt
    sort-IsAscending (x ∷ xs) = insert-IsAscending x (sort order xs) (sort-IsAscending xs)

-- Comparisons that turn round with their arguments.
abbrev pub Flips : Ordering → Ordering → Type 0
Flips Ordering.lt b = b ≡ Ordering.gt
Flips Ordering.eq b = b ≡ Ordering.eq
Flips Ordering.gt b = b ≡ Ordering.lt

pub compare-Flips : (m n : ℕ) → Flips (compare m n) (compare n m)
compare-Flips m n = ground arith

pub then_by-Flips :
    (a a' b b' : Ordering) → Flips a a' → Flips b b' → Flips (then_by a b) (then_by a' b')
then_by-Flips Ordering.lt a' b b' h k = rw h refl
then_by-Flips Ordering.eq a' b b' h k = rw h k
then_by-Flips Ordering.gt a' b b' h k = rw h refl

pub compare_text-Flips : (x y : Text) → Flips (compare_text x y) (compare_text y x)
unfolding compare_text
compare_text-Flips [] [] = refl
compare_text-Flips [] (y ∷ ys) = refl
compare_text-Flips (x ∷ xs) [] = refl
compare_text-Flips (x ∷ xs) (y ∷ ys) =
    then_by-Flips (compare x y) (compare y x) (compare_text xs ys) (compare_text ys xs)
      (compare-Flips x y) (compare_text-Flips xs ys)

pub compare_ℤ-Flips : (x y : ℤ) → Flips (compare_ℤ x y) (compare_ℤ y x)
unfolding compare_ℤ
compare_ℤ-Flips (pos m) (pos n) = compare-Flips m n
compare_ℤ-Flips (pos m) (negsuc n) = refl
compare_ℤ-Flips (negsuc m) (pos n) = refl
compare_ℤ-Flips (negsuc m) (negsuc n) = compare-Flips n m

pub asymmetric_of_Flips : (a b : Ordering) → Flips a b → is_lt a ≡ true → is_lt b ≡ false
asymmetric_of_Flips Ordering.lt b h e = rw h refl
asymmetric_of_Flips Ordering.eq b h e = cc
asymmetric_of_Flips Ordering.gt b h e = cc
