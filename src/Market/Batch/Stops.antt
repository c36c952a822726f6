-- ===== src/Market/Batch/Stops.antt =====
-- shared/market-actions.ts: a refusal of an approval ends the batch of sales.
use csboard_extension.Prelude.{
  ℕ, ◌≡◌, ◌⊎◌, inl, inr, ap, Bool-cases, Option, none, some, [], ◌∷◌, not, ◌||◌, ltb,
}
use csboard_extension.Prelude.Text.{Text, ◌===◌}
use csboard_extension.Shared.Result.{err}
use csboard_extension.Shared.Error.{CsBoardError}
use csboard_extension.Market.Approvals.{
  Approval, Registry, has, sell_policy, Policy, consume, consume_found, consume_for,
}
use csboard_extension.Market.Batch.{
  StopReason, by_authentication, by_account_mismatch, by_user_gesture, batch_stop_reason_for_error,
}

abbrev IsRefusal : Policy → CsBoardError → Type 0
IsRefusal policy e = (e ≡ policy.expired) ⊎ (e ≡ policy.signed_out) ⊎ (e ≡ policy.other_account)

module _ (policy : Policy) where
  for-IsRefusal :
      (handle : ℕ) (a : Approval) (id : Text) (current : Option Text) (r : Registry)
      (e : CsBoardError)
      → (consume_for policy handle a id current r).0 ≡ err e
      → IsRefusal policy e
  unfolding consume_for
  for-IsRefusal handle a id none r e h = inr (inl cc)
  for-IsRefusal handle a id (some []) r e h = inr (inl cc)
  for-IsRefusal handle a id (some (c ∷ s)) r e h =
      elim (Bool-cases ((c ∷ s) === a.expected_steam_id)) [
        | inl same ↦ absurd (cc (rw same at h))
        | inr other ↦ inr (inr (cc (rw other at h)))
      ]

  found-IsRefusal :
      (handle : ℕ) (a : Option Approval) (id : Text) (current : Option Text) (now : ℕ)
      (r : Registry) (e : CsBoardError)
      → (consume_found policy handle a id current now r).0 ≡ err e
      → IsRefusal policy e
  unfolding consume_found
  found-IsRefusal handle none id current now r e h = inl cc
  found-IsRefusal handle (some a) id current now r e h =
      elim (Bool-cases (ltb a.expires_at now || not (has id a.remaining))) [
        | inl gone ↦ inl (cc (rw gone at h))
        | inr alive ↦ for-IsRefusal handle a id current r e (rw alive at h)
      ]

-- A use that the approvals of sales refuse gives the batch a reason to stop.
pub consume-stops :
    (handle : ℕ) (id : Text) (current : Option Text) (now : ℕ) (r : Registry) (e : CsBoardError)
    → (consume sell_policy handle id current now r).0 ≡ err e
    → (reason : StopReason) × (batch_stop_reason_for_error e ≡ some reason)
unfolding consume sell_policy batch_stop_reason_for_error
consume-stops handle id current now r e h =
    elim (found-IsRefusal sell_policy handle (r.approval handle) id current now r e h) [
      | inl same ↦ (by_user_gesture, ap batch_stop_reason_for_error same)
      | inr (inl same) ↦ (by_authentication, ap batch_stop_reason_for_error same)
      | inr (inr same) ↦ (by_account_mismatch, ap batch_stop_reason_for_error same)
    ]
