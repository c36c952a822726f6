-- ===== src/Portfolio/Packing.antt =====
-- shared/portfolio-dto.ts: the greedy packing of `chunkPortfolioSnapshot`, over any records and any
-- measure of a group at its place.
pub mod Greedy
use csboard_extension.Prelude.{ℕ, ◌+◌, Bool, true, false, List, [], ◌∷◌, ◌++◌, length, leb, ltb}
use csboard_extension.Shared.Result.{ok, ◌>>=◌, ◌>>◌, throw_if}
use csboard_extension.Gateway.Message.{max_gateway_chunks_per_run}
use csboard_extension.Gateway.Error.{Checked, too_large}

abbrev pub is_empty {ℓ} : {A : Type ℓ} → List A → Bool
is_empty [] = true
is_empty (x ∷ xs) = false

module _ {A : Type 0} (size : ℕ → List A → Checked ℕ) (target_bytes : ℕ) where
  -- `groups` is `done` with `current` behind it.
  unfoldable pub pack : List A → List (List A) → List A → Checked (List (List A))
  pack [] done current = ok (done ++ current ∷ [])
  pack (record_ ∷ rest) done current = size (length done) (current ++ record_ ∷ []) >>= (λ bytes.
      elim (leb bytes target_bytes) [
        | true ↦ pack rest done (current ++ record_ ∷ [])
        | false ↦
            throw_if (is_empty current) (too_large "single-record-too-large")
            >> throw_if (ltb max_gateway_chunks_per_run (length done + 2))
                (too_large "too-many-chunks")
            >> (size (length done + 1) (record_ ∷ []) >>= (λ single.
                throw_if (ltb target_bytes single) (too_large "single-record-too-large")
                >> pack rest (done ++ current ∷ []) (record_ ∷ [])))
      ])
