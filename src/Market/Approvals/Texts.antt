-- ===== src/Market/Approvals/Texts.antt =====
-- shared/market-actions.ts: sets of ids.
use csboard_extension.Prelude.{
  ◌≡◌, inl, inr, refl, true, false, Bool-cases, List, [], ◌∷◌, arith, keep-pos, keep-neg, not,
}
use csboard_extension.Prelude.Text.{Text, ◌===◌, ===_iff}
use csboard_extension.Market.Approvals.{has, without, unique}

-- What is deleted is gone.
pub has-without_same : (x : Text) (xs : List Text) → has x (without x xs) ≡ false
unfolding has without
has-without_same x [] = refl
has-without_same x (y ∷ ys) = elim (Bool-cases (y === x)) [
  | inl e ↦ rw (keep-neg (λ z. not (z === x)) y ys (rw e refl)) (has-without_same x ys)
  | inr e ↦ rw (keep-pos (λ z. not (z === x)) y ys (rw e refl), e) (has-without_same x ys)
]

pub has-without : (x y : Text) (xs : List Text) → has x (without y xs) ≡ true → has x xs ≡ true
unfolding has without
has-without x y [] h = h
has-without x y (z ∷ zs) h = ground (arith, has-without x y zs)

pub has-unique : (x : Text) (xs : List Text) → has x (unique xs) ≡ true → has x xs ≡ true
unfolding has unique
has-unique x [] h = h
has-unique x (y ∷ ys) h = ground (arith, has-without x y (unique ys), has-unique x ys)

pub has-without_other :
    (x y : Text) (xs : List Text)
    → (y === x) ≡ false
    → has x xs ≡ true
    → has x (without y xs) ≡ true
unfolding has without
has-without_other x y [] apart h = h
has-without_other x y (z ∷ zs) apart h = elim (Bool-cases (z === y)) [
  | inl e ↦
      rw (keep-neg (λ u. not (u === y)) z zs (rw e refl))
        (has-without_other x y zs apart (ground (arith, ===_iff z y, ===_iff z x, ===_iff y x)))
  | inr e ↦
      rw (keep-pos (λ u. not (u === y)) z zs (rw e refl))
        (ground (arith, has-without_other x y zs apart))
]

pub has-unique_of : (x : Text) (xs : List Text) → has x xs ≡ true → has x (unique xs) ≡ true
unfolding has unique
has-unique_of x [] h = h
has-unique_of x (y ∷ ys) h = elim (Bool-cases (y === x)) [
  | inl e ↦ rw e refl
  | inr e ↦ rw e (has-without_other x y (unique ys) e (has-unique_of x ys (rw e at h)))
]
