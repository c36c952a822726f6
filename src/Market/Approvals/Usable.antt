-- ===== src/Market/Approvals/Usable.antt =====
-- shared/market-actions.ts: an approval that was given can be used, once for each of its ids.
use csboard_extension.Prelude.{
  ℕ, ◌+◌, ◌≤◌, ◌≡◌, inl, inr, refl, true, false, some, List, [], ◌∷◌, arith, ltb, ==_iff, All,
}
use csboard_extension.Prelude.Text.{Text, ◌===◌, ===_refl}
use csboard_extension.Shared.Result.{ok}
use csboard_extension.Market.Approvals.{
  sell_authorization_ttl_ms, Gesture, has, without, unique, Registry, Approval, Policy,
  set_approval, authorize, consume, consume_found, consume_for,
}
use csboard_extension.Market.Approvals.Texts.{has-unique_of, has-without_other}
use csboard_extension.Market.Approvals.Outcomes.{authorize-cases}

-- The uses of an approval: ids, each with the time at which it is used.
abbrev pub AreApart : List (Text × ℕ) → Type 0
AreApart [] = Unit
AreApart (use_1 ∷ uses) = All (λ (u : Text × ℕ). (use_1.0 === u.0) ≡ false) uses × AreApart uses

abbrev used_up : Text → Approval → Approval
used_up id a = record a { remaining = without id a.remaining }

module _ (policy : Policy) (handle : ℕ) (c : ℕ) (s : Text) where
  -- Each use succeeds, on the registry that the uses before it leave.
  abbrev pub AllSucceed : List (Text × ℕ) → Registry → Type 0
  AllSucceed [] r = Unit
  AllSucceed ((id, at) ∷ uses) r =
      ((consume policy handle id (some (c ∷ s)) at r).0 ≡ ok tt)
      × AllSucceed uses (consume policy handle id (some (c ∷ s)) at r).1

  consume-held :
      (id : Text) (a : Approval) (at : ℕ) (r : Registry)
      → r.approval handle ≡ some a
      → (c ∷ s) === a.expected_steam_id ≡ true
      → at ≤ a.expires_at
      → has id a.remaining ≡ true
      → consume policy handle id (some (c ∷ s)) at r ≡ (ok tt, set_approval handle (used_up id a) r)
  unfolding consume consume_found consume_for
  consume-held id a at r found same soon held = rw (found, alive, held, same) refl
    where
      alive : ltb a.expires_at at ≡ false
      alive = ground arith

  still_held :
      (id : Text) (a : Approval) (uses : List (Text × ℕ))
      → All (λ (u : Text × ℕ). (id === u.0) ≡ false) uses
      → All (λ (u : Text × ℕ). (has u.0 a.remaining ≡ true) × (u.1 ≤ a.expires_at)) uses
      → All
          (λ (u : Text × ℕ). (has u.0 (used_up id a).remaining ≡ true) × (u.1 ≤ a.expires_at))
          uses
  still_held id a [] apart h = tt
  still_held id a (u ∷ uses) (other, apart) ((held, soon), h) =
      ((has-without_other u.0 id a.remaining other held, soon), still_held id a uses apart h)

  held-AllSucceed :
      (uses : List (Text × ℕ)) (a : Approval) (r : Registry)
      → r.approval handle ≡ some a
      → (c ∷ s) === a.expected_steam_id ≡ true
      → All (λ (u : Text × ℕ). (has u.0 a.remaining ≡ true) × (u.1 ≤ a.expires_at)) uses
      → AreApart uses
      → AllSucceed uses r
  held-AllSucceed [] a r found same h apart = tt
  held-AllSucceed ((id, at) ∷ uses) a r found same ((held, soon), h) (other, apart) =
      rw (consume-held id a at r found same soon held) (
        refl,
        held-AllSucceed uses (used_up id a) (set_approval handle (used_up id a) r)
            (rw ((==_iff handle handle).1 refl) refl) same (still_held id a uses other h) apart,
      )

module _ (policy : Policy) where
  listed-held :
      (ids : List Text) (limit : ℕ) (uses : List (Text × ℕ))
      → All (λ (u : Text × ℕ). (has u.0 ids ≡ true) × (u.1 ≤ limit)) uses
      → All (λ (u : Text × ℕ). (has u.0 (unique ids) ≡ true) × (u.1 ≤ limit)) uses
  listed-held ids limit [] h = tt
  listed-held ids limit (u ∷ uses) ((listed, soon), h) =
      ((has-unique_of u.0 ids listed, soon), listed-held ids limit uses h)

  -- An approval that was given lets the account that it was given for use its ids one after the
  -- other, in any order and each once: every such use within thirty minutes succeeds, whichever of
  -- the other ids were used before.
  pub consume-authorize :
      (event : Gesture) (ids : List Text) (uses : List (Text × ℕ)) (c : ℕ) (s : Text) (now : ℕ)
      (r : Registry)
      → (authorize policy event ids (c ∷ s) now r).0 ≡ ok r.next
      → All (λ (u : Text × ℕ). (has u.0 ids ≡ true) × (u.1 ≤ now + sell_authorization_ttl_ms)) uses
      → AreApart uses
      → AllSucceed policy r.next c s uses (authorize policy event ids (c ∷ s) now r).1
  consume-authorize event ids uses c s now r given listed apart =
      elim (authorize-cases policy event ids (c ∷ s) now r) [
        | inl (e, refused) ↦ absurd (cc (given, refused))
        | inr (_, done) ↦ rw done (
            held-AllSucceed policy r.next c s uses given_approval _
              (rw ((==_iff r.next r.next).1 refl) refl) (===_refl (c ∷ s))
              (listed-held ids (now + sell_authorization_ttl_ms) uses listed) apart)
      ]
    where
      given_approval : Approval
      given_approval = record {
        expected_steam_id = c ∷ s;
        remaining = unique ids;
        expires_at = now + sell_authorization_ttl_ms;
      }
