-- ===== src/Controller/Sync.antt =====
-- background/gateway-controller.ts: `syncNow`, `assertSyncEpoch` and `runSync`. The chunks and the
-- envelopes are any types; the provider, the sealing and the outbox answer what they may.
use csboard_extension.Prelude.{
  ℕ, Bool, true, false, ◌&&◌, Option, none, some, List, [], ◌∷◌, ◌==◌, ltb, if◌then◌else◌,
}
use csboard_extension.Prelude.Text.{Text, codes, ◌===◌}
use csboard_extension.Shared.Result.{ok, err}
use csboard_extension.Gateway.Identity.{is_steam_id_64}
use csboard_extension.Portfolio.Collector.Failure.{
  Failure, plain_failure, client_failure, invalid_path, device_revoked, gateway_rejected,
  network_error, redact_portfolio_failure,
}
use csboard_extension.Controller.State.{
  DeviceRegistration, SyncState, idle, syncing, error, DrainSummary, SyncStage,
  reading_registration, creating_provider, hashing, draining, sending, reading_status,
  portfolio_request, State, Settled,
}

abbrev pub not_paired : Failure
not_paired = plain_failure (codes "Error") (codes "device-not-paired")

abbrev pub drain_failure : DrainSummary → Option Failure
drain_failure summary =
    if ltb 0 summary.failed
    then some (client_failure (if summary.device_revoked then device_revoked else gateway_rejected))
    else if summary.delivered == 0 && ltb 0 summary.deferred
    then some (client_failure network_error)
    else none

module _ {C E O : Type 0} where
  abbrev pub with_stage : ℕ → SyncStage C E → State C E O → State C E O
  with_stage epoch stage s = record s {
    sync_in_flight = some (record { epoch = epoch; stage = stage });
  }

  -- `syncNow`: refused while an unpairing is in flight; a run in flight is shared.
  unfoldable pub sync_now : State C E O → State C E O
  sync_now s = elim (s.unpair_in_flight) [
    | some stage ↦ s
    | none ↦ elim (s.sync_in_flight) [
      | some run ↦ s
      | none ↦ with_stage s.sync_epoch reading_registration s
    ]
  ]

  -- The `catch` of `runSync`, on a cancelled run and on any other failure.
  unfoldable pub sync_cancelled : State C E O → State C E O
  sync_cancelled s = record s { sync_state = idle; sync_in_flight = none }

  unfoldable pub sync_failed : Failure → State C E O → State C E O
  sync_failed failure s = record s {
    sync_state = error;
    last_failure_code = some (redact_portfolio_failure failure);
    sync_in_flight = none;
  }

  -- `assertSyncEpoch`, and what follows it.
  unfoldable pub in_epoch : ℕ → State C E O → State C E O → State C E O
  unfolding sync_cancelled
  in_epoch epoch next s = if epoch == s.sync_epoch then next else sync_cancelled s

  -- A reply that is an error goes to the `catch`; any other is looked at behind the fence.
  unfoldable pub on_settled :
      {T : Type 0} → ℕ → (T → State C E O → State C E O) → Settled T → State C E O → State C E O
  unfolding in_epoch sync_failed
  on_settled epoch next (ok value) s = in_epoch epoch (next value s) s
  on_settled epoch next (err failure) s = sync_failed failure s

  abbrev pub with_owner : ℕ → DeviceRegistration → State C E O → State C E O
  with_owner epoch registration s =
      if is_steam_id_64 registration.steam_id
      then with_stage epoch (creating_provider registration) (record s { sync_state = syncing })
      else sync_failed (invalid_path "$.steamId") s

  abbrev pub with_registration : ℕ → Text → Option DeviceRegistration → State C E O → State C E O
  with_registration epoch origin none s = sync_failed not_paired s
  with_registration epoch origin (some registration) s =
      if registration.gateway_origin === origin
      then with_owner epoch registration s
      else sync_failed not_paired s

  -- The head of `for (const chunk of collected.chunks)`, and the drain behind the loop.
  unfoldable pub next_chunk : ℕ → DeviceRegistration → List C → State C E O → State C E O
  unfolding in_epoch
  next_chunk epoch registration [] s = in_epoch epoch (with_stage epoch draining s) s
  next_chunk epoch registration (chunk ∷ chunks) s =
      with_stage epoch (hashing registration chunk chunks) s

  -- `drainGatewayOutbox` calls back for an envelope; a refusal there is a failed send to it.
  unfoldable pub drain_send : ℕ → E → State C E O → State C E O
  drain_send epoch envelope s =
      if epoch == s.sync_epoch
      then record s {
        sync_in_flight = some (record { epoch = epoch; stage = sending });
        events = portfolio_request envelope ∷ s.events;
      }
      else s

  abbrev pub after_drain : ℕ → DrainSummary → State C E O → State C E O
  after_drain epoch summary s = elim (drain_failure summary) [
    | none ↦ with_stage epoch reading_status s
    | some failure ↦ sync_failed failure s
  ]

  unfoldable pub sync_succeeded : State C E O → State C E O
  sync_succeeded s = record s { sync_state = idle; last_failure_code = none; sync_in_flight = none }

-- InternalGatewayStatus of external-router.ts, and `status` with the number of pending requests.
pub record GatewayStatus : Type 0 where
  pub paired : Bool
  pub state : SyncState
  pub pending_encrypted_requests : ℕ
  pub failure_code : Option Text

abbrev is_paired : Option DeviceRegistration → Bool
is_paired none = false
is_paired (some registration) = true

abbrev shown_code : Option Text → Option Text
shown_code none = none
shown_code (some []) = none
shown_code (some (c ∷ code)) = some (c ∷ code)

unfoldable pub status : {C E O : Type 0} → ℕ → State C E O → GatewayStatus
status pending s = record {
  paired = is_paired s.registration;
  state = s.sync_state;
  pending_encrypted_requests = pending;
  failure_code = shown_code s.last_failure_code;
}
