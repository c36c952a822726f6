-- ===== src/Market/Approvals/History/Invariant.antt =====
-- shared/market-actions.ts: every history uses an id of an approval once at most, and only as the
-- approval allows.
use csboard_extension.Prelude.{
  ℕ, suc, ◌+◌, ◌≤◌, ◌<◌, ◌≡◌, ◌⊎◌, inl, inr, refl, ap, sym, ◌∙◌, Bool, true, false, Bool-cases,
  Option, some, List, [], ◌∷◌, arith, any, All, ◌==◌, ==_iff,
}
use csboard_extension.Prelude.Text.{Text, ◌===◌, ===_iff, ===_refl}
use csboard_extension.Shared.Result.{ok}
use csboard_extension.Market.Approvals.{
  sell_authorization_ttl_ms, Gesture, has, unique, without, Approval, Registry, set_approval,
  Policy,
}
use csboard_extension.Market.Approvals.Texts.{has-without_same, has-without, has-unique}
use csboard_extension.Market.Approvals.Outcomes.{Authorized, Allowed, authorized}
use csboard_extension.Market.Approvals.History.{
  Grant, Use, World, after_authorize, after_consume, is_use_of, IsOnce, covers, IsCovered,
  IsGranted,
}

-- What each call keeps.
pub record IsOrderly (policy : Policy) (w : World) : Type 0 where
  pub known : (k : ℕ) (a : Approval) → w.registry.approval k ≡ some a → k < w.registry.next
  pub older : All (λ u. u.handle < w.registry.next) w.uses
  pub spent :
      (k : ℕ) (a : Approval) (id : Text)
      → w.registry.approval k ≡ some a
      → any (is_use_of k id) w.uses ≡ true
      → has id a.remaining ≡ false
  pub origin :
      (k : ℕ) (a : Approval) (id : Text)
      → w.registry.approval k ≡ some a
      → has id a.remaining ≡ true
      → any (covers k id a.expected_steam_id a.expires_at) w.grants ≡ true
  pub once : IsOnce w.uses
  pub covered : All (IsCovered w.grants) w.uses
  pub granted : All (IsGranted policy) w.grants

set_approval-cases :
    (h k : ℕ) (b a : Approval) (r : Registry)
    → (set_approval h b r).approval k ≡ some a
    → ((k ≡ h) × (b ≡ a)) ⊎ (((k == h) ≡ false) × (r.approval k ≡ some a))
set_approval-cases h k b a r e = elim (Bool-cases (k == h)) [
  | inl same ↦ inl ((==_iff k h).0 same, let e' : some b ≡ some a = rw same at e in cc)
  | inr other ↦ inr (other, rw other at e)
]

covers_later :
    (k : ℕ) (id account : Text) (time limit : ℕ) (grants : List Grant)
    → time ≤ limit
    → any (covers k id account limit) grants ≡ true
    → any (covers k id account time) grants ≡ true
covers_later k id account time limit [] h e = e
covers_later k id account time limit (g ∷ gs) h e =
    ground (arith, covers_later k id account time limit gs h)

any-first {ℓ} :
    {A : Type ℓ} (test : A → Bool) (x : A) (xs : List A) → test x ≡ true → any test (x ∷ xs) ≡ true
any-first test x xs h = rw h refl

IsCovered-more :
    (g : Grant) (gs : List Grant) (us : List Use)
    → All (IsCovered gs) us
    → All (IsCovered (g ∷ gs)) us
IsCovered-more g gs [] h = tt
IsCovered-more g gs (u ∷ us) ((account, same, e), h) =
    ((account, same, ground arith), IsCovered-more g gs us h)

older_more : (n : ℕ) (us : List Use) → All (λ u. u.handle < n) us → All (λ u. u.handle < suc n) us
older_more n [] h = tt
older_more n (u ∷ us) (e, h) = (omega (arith, e), older_more n us h)

unused :
    (n : ℕ) (id : Text) (us : List Use)
    → All (λ u. u.handle < n) us
    → any (is_use_of n id) us ≡ false
unused n id [] h = refl
unused n id (u ∷ us) (e, h) = ground (arith, unused n id us h)

module _ (policy : Policy) (w : World) (v : IsOrderly policy w) where
  module _ (handle : ℕ) (id : Text) (current : Option Text) (now : ℕ) (a : Approval)
      (allowed : Allowed w.registry handle id current now a) where
    abbrev pub left : Approval
    left = record a { remaining = without id a.remaining }

    abbrev pub this_use : Use
    this_use = record { handle = handle; id = id; account = current; time = now }

    is_first : any (is_use_of handle id) w.uses ≡ false
    is_first = elim (Bool-cases (any (is_use_of handle id) w.uses)) [
      | inl used ↦ cc (v.spent handle a id allowed.found used, allowed.held)
      | inr unused ↦ unused
    ]

    left_spent :
        (other : Text)
        → any (is_use_of handle other) (this_use ∷ w.uses) ≡ true
        → has other (without id a.remaining) ≡ false
    left_spent other used = elim (Bool-cases (id === other)) [
      | inl same ↦ rw (sym ((===_iff id other).0 same)) (has-without_same id a.remaining)
      | inr apart ↦ elim (Bool-cases (has other (without id a.remaining))) [
        | inl there ↦ absurd (cc (used_before apart, has-without other id a.remaining there))
        | inr gone ↦ gone
      ]
    ]
      where
        used_before : (id === other) ≡ false → has other a.remaining ≡ false
        used_before apart = v.spent handle a other allowed.found (ground arith)

    pub use-IsOrderly :
        IsOrderly policy
          (after_consume handle id current now w (ok tt, set_approval handle left w.registry))
    use-IsOrderly = record {
      known = λ k a' e. elim (set_approval-cases handle k left a' w.registry e) [
        | inl (same, _) ↦ rw same (v.known handle a allowed.found)
        | inr (_, e') ↦ v.known k a' e'
      ];
      older = (v.known handle a allowed.found, v.older);
      spent = λ k a' other e used. elim (set_approval-cases handle k left a' w.registry e) [
        | inl (same, b) ↦ rw (sym b) (
            left_spent other
              (sym (ap (λ n. any (is_use_of n other) (this_use ∷ w.uses)) same) ∙ used))
        | inr (apart, e') ↦ v.spent k a' other e' (ground arith)
      ];
      origin = λ k a' other e held. elim (set_approval-cases handle k left a' w.registry e) [
        | inl (same, b) ↦
            rw (same, sym b)
              (v.origin handle a other allowed.found
                (has-without other id a.remaining (rw (sym b) at held)))
        | inr (_, e') ↦ v.origin k a' other e' held
      ];
      once = (is_first, v.once);
      covered = (
        (
          a.expected_steam_id,
          allowed.account,
          covers_later handle id a.expected_steam_id now a.expires_at w.grants allowed.alive
              (v.origin handle a id allowed.found allowed.held),
        ),
        v.covered,
      );
      granted = v.granted;
    }

  module _ (event : Gesture) (ids : List Text) (account : Text) (now : ℕ)
      (given : Authorized policy event ids) where
    abbrev given_approval : Approval
    given_approval = record {
      expected_steam_id = account;
      remaining = unique ids;
      expires_at = now + sell_authorization_ttl_ms;
    }

    abbrev this_grant : Grant
    this_grant = record {
      handle = w.registry.next;
      event = event;
      ids = ids;
      account = account;
      time = now;
    }

    grant_covers :
        (id : Text)
        → has id (unique ids) ≡ true
        → covers w.registry.next id account (now + sell_authorization_ttl_ms) this_grant ≡ true
    grant_covers id held = ground (arith, has-unique id ids held, ===_refl account)

    pub grant-IsOrderly : IsOrderly policy (
        after_authorize event ids account now w
          (authorized policy event ids account now w.registry))
    grant-IsOrderly = record {
      known = λ k a e. elim (set_approval-cases w.registry.next k given_approval a w.registry e) [
        | inl (same, _) ↦ omega (arith, same)
        | inr (_, e') ↦ omega (arith, v.known k a e')
      ];
      older = older_more w.registry.next w.uses v.older;
      spent = λ k a id e used.
          elim (set_approval-cases w.registry.next k given_approval a w.registry e) [
            | inl (same, b) ↦ absurd (
                cc (
                  unused w.registry.next id w.uses v.older,
                  sym (ap (λ n. any (is_use_of n id) w.uses) same) ∙ used,
                ))
            | inr (_, e') ↦ v.spent k a id e' used
          ];
      origin = λ k a id e held.
          elim (set_approval-cases w.registry.next k given_approval a w.registry e) [
            | inl (same, b) ↦
                ap (λ n. any (covers n id a.expected_steam_id a.expires_at) (this_grant ∷ w.grants))
                  same
                ∙ ap
                    (λ (x : Approval).
                      any (covers w.registry.next id x.expected_steam_id x.expires_at)
                        (this_grant ∷ w.grants))
                    (sym b)
                ∙ any-first (covers w.registry.next id account (now + sell_authorization_ttl_ms))
                    this_grant w.grants (grant_covers id (rw (sym b) at held))
            | inr (_, e') ↦ ground (arith, v.origin k a id e' held)
          ];
      once = v.once;
      covered = IsCovered-more this_grant w.grants w.uses v.covered;
      granted = ((given.trusted, given.few), v.granted);
    }
