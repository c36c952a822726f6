-- ===== src/Controller/Unpair.antt =====
-- background/gateway-controller.ts: `unpair`, `runUnpair` and `destroyLocalPairingState`.
use csboard_extension.Prelude.{
  suc, Bool, true, false, not, ◌&&◌, Option, none, some, ◌∷◌, if◌then◌else◌,
}
use csboard_extension.Prelude.Text.{Text, codes}
use csboard_extension.Shared.Result.{ok, err}
use csboard_extension.Controller.State.{
  DeviceRegistration, Revocation, not_registered, confirmed, unconfirmed, UnpairStage,
  awaiting_pair, awaiting_sync, reading_registration, sealing, sending, destroying, revoke_request,
  unpaired, State, Settled,
}

-- The fields of `sendEnvelope`'s result that are read.
pub record Delivery : Type 0 where
  pub accepted : Bool
  pub retryable : Bool
  pub device_revoked : Bool

abbrev pub undelivered_code : Bool → Text
undelivered_code true = codes "gateway-unavailable"
undelivered_code false = codes "internal-error"

module _ {C E O : Type 0} where
  abbrev pub with_unpair : UnpairStage → State C E O → State C E O
  with_unpair stage s = record s { unpair_in_flight = some stage }

  -- `unpair`: one run at a time, and the fence is raised at once.
  unfoldable pub unpair : State C E O → State C E O
  unpair s = elim (s.unpair_in_flight) [
    | some stage ↦ s
    | none ↦ record s { sync_epoch = suc s.sync_epoch; unpair_in_flight = some awaiting_pair }
  ]

  -- `await this.pairInFlight?.catch(() => undefined)`, and the same for a sync.
  unfoldable pub unpair_pair_settled : State C E O → State C E O
  unpair_pair_settled s = elim (s.pair_in_flight) [
    | none ↦ with_unpair awaiting_sync s
    | some stage ↦ s
  ]

  unfoldable pub unpair_sync_settled : State C E O → State C E O
  unpair_sync_settled s = elim (s.sync_in_flight) [
    | none ↦ with_unpair reading_registration s
    | some stage ↦ s
  ]

  abbrev pub destroy_local_pairing_state : Revocation → State C E O → State C E O
  destroy_local_pairing_state remote s = with_unpair (destroying remote none none) s

  unfoldable pub unpair_registration_read :
      Settled (Option DeviceRegistration) → State C E O → State C E O
  unpair_registration_read (ok none) s = destroy_local_pairing_state not_registered s
  unpair_registration_read (ok (some registration)) s = with_unpair sealing s
  unpair_registration_read (err failure) s = record s { unpair_in_flight = none }

  unfoldable pub unpair_sealed : Settled (Unit {0}) → State C E O → State C E O
  unpair_sealed (ok envelope) s = record s {
    unpair_in_flight = some sending;
    events = revoke_request ∷ s.events;
  }
  unpair_sealed (err failure) s = destroy_local_pairing_state unconfirmed s

  unfoldable pub unpair_sent : Settled Delivery → State C E O → State C E O
  unpair_sent (ok delivery) s =
      if not delivery.accepted && not delivery.device_revoked
      then record s {
        last_failure_code = some (undelivered_code delivery.retryable);
        unpair_in_flight = some (destroying unconfirmed none none);
      }
      else destroy_local_pairing_state confirmed s
  unpair_sent (err failure) s = destroy_local_pairing_state unconfirmed s

  -- The two deletions, each on its own. `empty` is the outbox that is written.
  unfoldable pub outbox_cleared : O → Revocation → Option Bool → Bool → State C E O → State C E O
  outbox_cleared empty remote deleted true s = record s {
    outbox = empty;
    unpair_in_flight = some (destroying remote (some true) deleted);
  }
  outbox_cleared empty remote deleted false s =
      with_unpair (destroying remote (some false) deleted) s

  unfoldable pub identity_deleted : Revocation → Option Bool → Bool → State C E O → State C E O
  identity_deleted remote cleared true s = record s {
    registration = none;
    has_identity = false;
    unpair_in_flight = some (destroying remote cleared (some true));
  }
  identity_deleted remote cleared false s = with_unpair (destroying remote cleared (some false)) s

  -- What follows once both settled. The event is the promise that is fulfilled.
  unfoldable pub unpair_finished : Revocation → (cleared deleted : Bool) → State C E O → State C E O
  unpair_finished not_registered true true s = record s {
    unpair_in_flight = none;
    events = unpaired ∷ s.events;
  }
  unpair_finished confirmed true true s = record s {
    last_failure_code = none;
    unpair_in_flight = none;
    events = unpaired ∷ s.events;
  }
  unpair_finished unconfirmed true true s = record s { unpair_in_flight = none }
  unpair_finished remote true false s = record s {
    last_failure_code = some (codes "internal-error");
    unpair_in_flight = none;
  }
  unpair_finished remote false deleted s = record s {
    last_failure_code = some (codes "internal-error");
    unpair_in_flight = none;
  }
