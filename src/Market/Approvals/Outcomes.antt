-- ===== src/Market/Approvals/Outcomes.antt =====
-- shared/market-actions.ts: what authorizing and consuming come to.
use csboard_extension.Prelude.{
  ℕ, suc, ◌+◌, ◌≤◌, ◌≡◌, ◌⊎◌, inl, inr, refl, ap, true, false, Bool-cases, Option, none, some,
  Option-cases, List, [], ◌∷◌, arith, length, not, ◌||◌, ltb,
}
use csboard_extension.Prelude.Text.{Text, ◌===◌, ===_iff, is_run_of, is_digit}
use csboard_extension.Shared.Result.{Result, ok, err}
use csboard_extension.Shared.Error.{CsBoardError}
use csboard_extension.Market.Approvals.{
  sell_authorization_ttl_ms, Gesture, is_trusted_user_gesture, has, unique, without, Approval,
  Registry, set_approval, Policy, authorize, is_bad_selection, consume, consume_found, consume_for,
}

-- An approval that was given.
pub record Authorized (policy : Policy) (event : Gesture) (ids : List Text) : Type 0 where
  pub trusted : is_trusted_user_gesture event ≡ true
  pub few : length (unique ids) ≤ policy.limit

-- A use that was allowed.
pub record Allowed (r : Registry) (handle : ℕ) (id : Text) (current : Option Text) (now : ℕ)
    (a : Approval) : Type 0 where
  pub found : r.approval handle ≡ some a
  pub alive : now ≤ a.expires_at
  pub held : has id a.remaining ≡ true
  pub account : current ≡ some a.expected_steam_id

module _ (policy : Policy) where
  abbrev pub authorized :
      Gesture → List Text → Text → ℕ → Registry → Result ℕ CsBoardError × Registry
  authorized event ids account now r = (
    ok r.next,
    record (set_approval r.next
        (record {
          expected_steam_id = account;
          remaining = unique ids;
          expires_at = now + sell_authorization_ttl_ms;
        })
        r) { next = suc r.next },
  )

  few_of_selection :
      (ids : List Text) → is_bad_selection policy ids ≡ false → length ids ≤ policy.limit
  unfolding is_bad_selection
  few_of_selection ids good = ground arith

  pub authorize-cases :
      (event : Gesture) (ids : List Text) (account : Text) (now : ℕ) (r : Registry)
      → ((e : CsBoardError) × (authorize policy event ids account now r ≡ (err e, r)))
        ⊎ (Authorized policy event ids
            × (authorize policy event ids account now r ≡ authorized event ids account now r))
  unfolding authorize
  authorize-cases event ids account now r = elim (Bool-cases (is_trusted_user_gesture event)) [
    | inr fails ↦ inl (policy.no_gesture, rw fails refl)
    | inl passes ↦ elim (Bool-cases (is_run_of is_digit 16 20 account)) [
      | inr fails ↦ inl (policy.no_account, rw (passes, fails) refl)
      | inl named ↦ elim (Bool-cases (is_bad_selection policy (unique ids))) [
        | inl bad ↦ inl (policy.bad_selection, rw (passes, named, bad) refl)
        | inr good ↦ inr (
          record { trusted = passes; few = few_of_selection (unique ids) good },
          rw (passes, named, good) refl,
        )
      ]
    ]
  ]

  for-cases :
      (handle : ℕ) (a : Approval) (id : Text) (current : Option Text) (r : Registry)
      → ((e : CsBoardError) × (consume_for policy handle a id current r ≡ (err e, r)))
        ⊎ ((current ≡ some a.expected_steam_id)
            × (consume_for policy handle a id current r
                ≡ (ok tt, set_approval handle (record a { remaining = without id a.remaining }) r)))
  unfolding consume_for
  for-cases handle a id none r = inl (policy.signed_out, refl)
  for-cases handle a id (some []) r = inl (policy.signed_out, refl)
  for-cases handle a id (some (c ∷ s)) r = elim (Bool-cases ((c ∷ s) === a.expected_steam_id)) [
    | inr fails ↦ inl (policy.other_account, rw fails refl)
    | inl same ↦ inr (ap some ((===_iff (c ∷ s) a.expected_steam_id).0 same), rw same refl)
  ]

  found-cases :
      (handle : ℕ) (a : Approval) (id : Text) (current : Option Text) (now : ℕ) (r : Registry)
      → r.approval handle ≡ some a
      → ((e : CsBoardError) × (consume_found policy handle (some a) id current now r ≡ (err e, r)))
        ⊎ (Allowed r handle id current now a
            × (consume_found policy handle (some a) id current now r
                ≡ (ok tt, set_approval handle (record a { remaining = without id a.remaining }) r)))
  unfolding consume_found
  found-cases handle a id current now r found =
      elim (Bool-cases (ltb a.expires_at now || not (has id a.remaining))) [
        | inl fails ↦ inl (policy.expired, rw fails refl)
        | inr passes ↦ elim (for-cases handle a id current r) [
          | inl (e, failed) ↦ inl (e, rw passes failed)
          | inr (same, done) ↦ inr (
            record { found = found; alive = ground arith; held = ground arith; account = same },
            rw passes done,
          )
        ]
      ]

  none_found :
      (handle : ℕ) (id : Text) (current : Option Text) (now : ℕ) (r : Registry)
      → consume_found policy handle none id current now r ≡ (err policy.expired, r)
  unfolding consume_found
  none_found handle id current now r = refl

  pub consume-cases :
      (handle : ℕ) (id : Text) (current : Option Text) (now : ℕ) (r : Registry)
      → ((e : CsBoardError) × (consume policy handle id current now r ≡ (err e, r)))
        ⊎ ((a : Approval) × Allowed r handle id current now a
            × (consume policy handle id current now r
                ≡ (ok tt, set_approval handle (record a { remaining = without id a.remaining }) r)))
  unfolding consume
  consume-cases handle id current now r = elim (Option-cases (r.approval handle)) [
    | inl e ↦ inl (policy.expired, rw e (none_found handle id current now r))
    | inr (a, e) ↦ rw e (elim (found-cases handle a id current now r e) [
      | inl failed ↦ inl failed
      | inr (allowed, done) ↦ inr (a, allowed, done)
    ])
  ]
