-- ===== src/Portfolio/Packing/Greedy.antt =====
-- shared/portfolio-dto.ts: what the greedy packing returns.
use csboard_extension.Prelude.{
  ℕ, suc, ◌+◌, ◌≤◌, ◌<◌, ◌≡◌, refl, sym, ◌∙◌, ap, ◌⊎◌, inl, inr, true, false, List, [], ◌∷◌, ◌++◌,
  arith, length, length-append, leb, ltb, Bool-cases, concat, append_assoc, append_nil,
}
use csboard_extension.Shared.Result.{ok, ◌>>=◌, ◌>>◌, throw_if, throw_if-eq-ok, >>-eq-ok, >>=-eq-ok}
use csboard_extension.Gateway.Message.{max_gateway_chunks_per_run}
use csboard_extension.Gateway.Error.{Checked, too_large}
use csboard_extension.Portfolio.Packing.{is_empty, pack}

module _ {A : Type 0} (size : ℕ → List A → Checked ℕ) (target_bytes : ℕ) where
  -- No record, or no more bytes at the place than the target.
  abbrev pub Fits : ℕ → List A → Type 0
  Fits i g = (g ≡ []) ⊎ ((bytes : ℕ) × (size i g ≡ ok bytes) × (bytes ≤ target_bytes))

  abbrev pub AllFit : ℕ → List (List A) → Type 0
  AllFit i [] = Unit
  AllFit i (g ∷ gs) = Fits i g × AllFit (suc i) gs

  -- The first record of the group behind would have been too much.
  abbrev pub IsFull : ℕ → List A → List (List A) → Type 0
  IsFull i g [] = Unit
  IsFull i g ([] ∷ gs) = ⊥
  IsFull i g ((r ∷ h) ∷ gs) =
      (bytes : ℕ) × (size i (g ++ r ∷ []) ≡ ok bytes) × (target_bytes < bytes)

  abbrev pub IsGreedy : ℕ → List (List A) → Type 0
  IsGreedy i [] = Unit
  IsGreedy i (g ∷ gs) = IsFull i g gs × IsGreedy (suc i) gs

  -- The records in their order, in at most 64 groups, one group at least, of which each fits, and
  -- none has room for the record behind it.
  pub record IsPacking (records : List A) (groups : List (List A)) : Type 0 where
    pub whole : concat groups ≡ records
    pub few : length groups ≤ max_gateway_chunks_per_run
    pub nonempty : 1 ≤ length groups
    pub fit : AllFit 0 groups
    pub greedy : IsGreedy 0 groups

  -- The groups from place `i` on, where `current` was the last.
  record IsTail (i : ℕ) (current records : List A) (tail : List (List A)) : Type 0 where
    whole : concat tail ≡ current ++ records
    few : i + length tail ≤ max_gateway_chunks_per_run
    first : List A
    later : List (List A)
    starts : tail ≡ (current ++ first) ∷ later
    fit : AllFit i tail
    greedy : IsGreedy i tail

  module _ (r : A) (rest : List A) (done : List (List A)) (cur : List A) (gs : List (List A)) where
    abbrev Grows : Type 0
    Grows =
        (bytes : ℕ) × (size (length done) (cur ++ r ∷ []) ≡ ok bytes)
        × (bytes ≤ target_bytes)
        × (pack size target_bytes rest done (cur ++ r ∷ []) ≡ ok gs)

    abbrev Splits : Type 0
    Splits =
        (bytes : ℕ) × (size (length done) (cur ++ r ∷ []) ≡ ok bytes)
        × (target_bytes < bytes)
        × (length done + 2 ≤ max_gateway_chunks_per_run)
        × ((single : ℕ) × (size (length done + 1) (r ∷ []) ≡ ok single) × (single ≤ target_bytes))
        × (pack size target_bytes rest (done ++ cur ∷ []) (r ∷ []) ≡ ok gs)

    abbrev split : Checked (List (List A))
    split = size (length done + 1) (r ∷ []) >>= (λ single.
        throw_if (ltb target_bytes single) (too_large "single-record-too-large")
        >> pack size target_bytes rest (done ++ cur ∷ []) (r ∷ []))

    abbrev placed : ℕ → Checked (List (List A))
    placed bytes = elim (leb bytes target_bytes) [
      | true ↦ pack size target_bytes rest done (cur ++ r ∷ [])
      | false ↦
          throw_if (is_empty cur) (too_large "single-record-too-large")
          >> throw_if (ltb max_gateway_chunks_per_run (length done + 2))
              (too_large "too-many-chunks")
          >> split
    ]

    throw_cases :
        throw_if (is_empty cur) (too_large "single-record-too-large")
            >> throw_if
                (ltb max_gateway_chunks_per_run (length done + 2))
                (too_large "too-many-chunks")
            >> split
          ≡ ok gs
        → (length done + 2 ≤ max_gateway_chunks_per_run)
          × ((single : ℕ) × (size (length done + 1) (r ∷ []) ≡ ok single) × (single ≤ target_bytes))
          × (pack size target_bytes rest (done ++ cur ∷ []) (r ∷ []) ≡ ok gs)
    throw_cases h =
        let (guards, later) =
          >>-eq-ok
            (throw_if (is_empty cur) (too_large "single-record-too-large")
              >> throw_if (ltb max_gateway_chunks_per_run (length done + 2))
                  (too_large "too-many-chunks"))
            split h in
        let (_, count) =
          >>-eq-ok (throw_if (is_empty cur) (too_large "single-record-too-large")) _ guards in
        let (single, measured, last) = >>=-eq-ok (size (length done + 1) (r ∷ [])) _ later in
        let (small, packed) =
          >>-eq-ok (throw_if (ltb target_bytes single) (too_large "single-record-too-large")) _
            last in
        let few = throw_if-eq-ok _ _ count in
        let le = throw_if-eq-ok _ _ small in
        (ground arith, (single, measured, ground arith), packed)

    pack-cases : pack size target_bytes (r ∷ rest) done cur ≡ ok gs → Grows ⊎ Splits
    unfolding pack
    pack-cases h =
        let (bytes, measured, next) = >>=-eq-ok (size (length done) (cur ++ r ∷ [])) placed h in
        elim (Bool-cases (leb bytes target_bytes)) [
          | inl e ↦ inl (bytes, measured, ground arith, ground arith)
          | inr e ↦
              let (few, single, packed) = throw_cases (ground arith) in
              inr (bytes, measured, ground arith, few, single, packed)
        ]

  IsFull-of_start :
      (i : ℕ) (g : List A) (r : A) (tail : List (List A)) (first : List A) (later : List (List A))
      → tail ≡ ((r ∷ []) ++ first) ∷ later
      → (bytes : ℕ) → size i (g ++ r ∷ []) ≡ ok bytes
      → target_bytes < bytes
      → IsFull i g tail
  IsFull-of_start i g r tail first later e bytes measured over = rw e (bytes, measured, over)

  pack-IsTail :
      (records : List A) (i : ℕ) (done : List (List A)) (cur : List A) (gs : List (List A))
      → length done ≡ i
      → Fits i cur
      → i + 1 ≤ max_gateway_chunks_per_run
      → pack size target_bytes records done cur ≡ ok gs
      → (tail : List (List A)) × (gs ≡ done ++ tail) × IsTail i cur records tail
  unfolding pack
  pack-IsTail [] i done cur gs place fits room h = (
    cur ∷ [],
    ground arith,
    record {
      whole = refl;
      few = omega (arith, room);
      first = [];
      later = [];
      starts = ap (λ l. l ∷ []) (sym (append_nil cur));
      fit = (fits, tt);
      greedy = (tt, tt);
    },
  )
  pack-IsTail (r ∷ rest) i done cur gs place fits room h = elim (pack-cases r rest done cur gs h) [
    | inl (bytes, measured, le, packed) ↦
        let fits' : Fits i (cur ++ r ∷ []) = inr (bytes, ground arith, le) in
        let (tail, e, t) = pack-IsTail rest i done (cur ++ r ∷ []) gs place fits' room packed in
        (
          tail,
          e,
          record {
            whole = t.whole ∙ append_assoc cur (r ∷ []) rest;
            few = t.few;
            first = r ∷ t.first;
            later = t.later;
            starts = t.starts ∙ ap (λ g. g ∷ t.later) (append_assoc cur (r ∷ []) t.first);
            fit = t.fit;
            greedy = t.greedy;
          },
        )
    | inr (bytes, measured, over, few, (single, alone, le), packed) ↦
        let place' : length (done ++ cur ∷ []) ≡ suc i =
          length-append done (cur ∷ []) ∙ omega (arith, place) in
        let next : length done + 1 ≡ suc i = omega (arith, place) in
        let fits' : Fits (suc i) (r ∷ []) =
          inr (single, ap (λ n. size n (r ∷ [])) (sym next) ∙ alone, le) in
        let (tail, e, t) =
          pack-IsTail rest (suc i) (done ++ cur ∷ []) (r ∷ []) gs place' fits'
            (omega (arith, few, place)) packed in
        let over_i : size i (cur ++ r ∷ []) ≡ ok bytes = ground arith in
        (
          cur ∷ tail,
          e ∙ append_assoc done (cur ∷ []) tail,
          record {
            whole = ap (λ l. cur ++ l) t.whole;
            few = omega (arith, t.few);
            first = [];
            later = tail;
            starts = ap (λ g. g ∷ tail) (sym (append_nil cur));
            fit = (fits, t.fit);
            greedy =
                (IsFull-of_start i cur r tail t.first t.later t.starts bytes over_i over, t.greedy);
          },
        )
  ]

  IsTail-IsPacking :
      (records : List A) (tail : List (List A)) → IsTail 0 [] records tail → IsPacking records tail
  IsTail-IsPacking records tail t = record {
    whole = t.whole;
    few = omega (arith, t.few);
    nonempty = rw t.starts (omega arith);
    fit = t.fit;
    greedy = t.greedy;
  }

  -- What the packing returns, it returns as specified.
  pub pack-IsPacking :
      (records : List A) (groups : List (List A))
      → pack size target_bytes records [] [] ≡ ok groups
      → IsPacking records groups
  pack-IsPacking records groups h =
      let (tail, e, t) = pack-IsTail records 0 [] [] groups refl (inl refl) (omega arith) h in
      rw e (IsTail-IsPacking records tail t)
