-- ===== src/Shared/Result.antt =====
-- shared/result.ts: a value or an error. A thrown exception is the same type, with `do` for what
-- follows a call that may throw.
use csboard_extension.Prelude.{
  ◌≡◌, refl, ◌⊎◌, inl, inr, Bool, true, false, not, List, [], ◌∷◌, map, arith, length, All,
}

pub data Result {ℓ κ} (T : Type ℓ) (E : Type κ) : Type (ℓ ⊔ κ) where
  ok : T → Result T E
  err : E → Result T E

module _ {ℓ κ μ} {T : Type ℓ} {U : Type κ} {E : Type μ} where
  unfoldable pub map_result : Result T E → (T → U) → Result U E
  map_result (ok value) fn = ok (fn value)
  map_result (err error) fn = err error

  abbrev pub flat_map : Result T E → (T → Result U E) → Result U E
  flat_map (ok value) fn = fn value
  flat_map (err error) fn = err error

module _ {ℓ κ} {T : Type ℓ} {E : Type κ} where
  unfoldable pub unwrap_or : Result T E → T → T
  unwrap_or (ok value) default = value
  unwrap_or (err error) default = default

  -- The settled results of `Promise.all`: the first error, or all values in order.
  unfoldable pub all_results : List (Result T E) → Result (List T) E
  unfolding map_result
  all_results [] = ok []
  all_results (ok value ∷ rest) = map_result (all_results rest) (λ values. value ∷ values)
  all_results (err error ∷ rest) = err error

infixl 5 ◌>>=◌ ◌>>◌
abbrev pub ◌>>=◌ {ℓ κ μ} :
    {T : Type ℓ} {U : Type κ} {E : Type μ} → Result T E → (T → Result U E) → Result U E
m >>= f = flat_map m f

abbrev pub ◌>>◌ {κ μ} : {U : Type κ} {E : Type μ} → Result (Unit {0}) E → Result U E → Result U E
m >> k = flat_map m (λ _. k)

-- `if (test) throw error;`
abbrev pub throw_if {μ} : {E : Type μ} → Bool → E → Result (Unit {0}) E
throw_if true error = err error
throw_if false error = ok tt

-- Inversion of a sequence that succeeds.
pub >>-eq-ok {κ μ} :
    {U : Type κ} {E : Type μ} (m : Result (Unit {0}) E) (k : Result U E) {value : U}
    → (m >> k) ≡ ok value
    → (m ≡ ok tt) × (k ≡ ok value)
>>-eq-ok (ok tt) k h = (refl, h)
>>-eq-ok (err error) k h = cc

pub >>=-eq-ok {ℓ κ μ} :
    {T : Type ℓ} {U : Type κ} {E : Type μ} (m : Result T E) (f : T → Result U E) {value : U}
    → (m >>= f) ≡ ok value
    → (a : T) × (m ≡ ok a) × (f a ≡ ok value)
>>=-eq-ok (ok a) f h = (a, refl, h)
>>=-eq-ok (err error) f h = cc

pub throw_if-eq-ok {μ} :
    {E : Type μ} (test : Bool) (error : E) → throw_if test error ≡ ok tt → test ≡ false
throw_if-eq-ok true error h = cc
throw_if-eq-ok false error h = refl

pub throw_unless-eq-ok {μ} :
    {E : Type μ} (test : Bool) (error : E) → throw_if (not test) error ≡ ok tt → test ≡ true
throw_unless-eq-ok true error h = refl
throw_unless-eq-ok false error h = cc

-- Checks in a row, the first failure ending them.
abbrev pub in_order {μ} : {E : Type μ} → List (Result (Unit {0}) E) → Result (Unit {0}) E
in_order [] = ok tt
in_order (check ∷ rest) = check >> in_order rest

abbrev pub AllPass {μ} : {E : Type μ} → List (Result (Unit {0}) E) → Type μ
AllPass [] = Unit
AllPass (check ∷ rest) = (check ≡ ok tt) × AllPass rest

pub in_order-AllPass {μ} :
    {E : Type μ} (checks : List (Result (Unit {0}) E)) → in_order checks ≡ ok tt → AllPass checks
in_order-AllPass [] h = tt
in_order-AllPass (check ∷ rest) h =
    let (first, later) = >>-eq-ok check (in_order rest) h in (first, in_order-AllPass rest later)

pub Result-cases {ℓ κ} :
    {T : Type ℓ} {E : Type κ} (r : Result T E)
    → ((a : T) × (r ≡ ok a)) ⊎ ((error : E) × (r ≡ err error))
Result-cases (ok a) = inl (a, refl)
Result-cases (err error) = inr (error, refl)

pub map_result-eq-ok {ℓ κ μ} :
    {T : Type ℓ} {U : Type κ} {E : Type μ} (r : Result T E) (f : T → U) (u : U)
    → map_result r f ≡ ok u
    → (t : T) × (r ≡ ok t) × (f t ≡ u)
unfolding map_result
map_result-eq-ok (ok t) f u h = (t, refl, cc)
map_result-eq-ok (err e) f u h = cc

all_results-cons :
    {B E : Type 0} (r : Result B E) (rest : List (Result B E)) (ys : List B)
    → all_results (r ∷ rest) ≡ ok ys
    → (b : B) × (bs : List B) × (r ≡ ok b) × (all_results rest ≡ ok bs) × (b ∷ bs ≡ ys)
unfolding all_results
all_results-cons (ok b) rest ys h =
    let (bs, later, made) = map_result-eq-ok (all_results rest) (λ values. b ∷ values) ys h in
    (b, bs, refl, later, made)
all_results-cons (err e) rest ys h = cc

module _ {A B E : Type 0} (P : B → Type 0) (f : A → Result B E) where
  pub all_results-All :
      ((a : A) (b : B) → f a ≡ ok b → P b)
      → (xs : List A) (ys : List B) → all_results (map f xs) ≡ ok ys
      → All P ys × (length ys ≡ length xs)
  unfolding all_results
  all_results-All holds [] ys h =
      let none_left : ◌≡◌ {A = List B} [] ys = cc in rw⁻¹ none_left (tt, refl)
  all_results-All holds (x ∷ xs) ys h =
      let (b, bs, made, later, whole) = all_results-cons (f x) (map f xs) ys h in
      let (rest, count) = all_results-All holds xs bs later in
      rw⁻¹ whole ((holds x b made, rest), omega (arith, count))
