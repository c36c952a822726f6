-- ===== src/Controller/Fence/Promises.antt =====
-- background/gateway-controller.ts: no portfolio leaves while an unpairing is in flight, and what an
-- unpairing leaves behind.
use mathlib.Core.Path.{subst}
use csboard_extension.Prelude.{
  ℕ, ◌<◌, ◌≡◌, ◌≢◌, refl, Bool, true, false, not, ◌&&◌, Option, none, some, arith, inl, inr,
  option-cases, if-cases,
}
use csboard_extension.Prelude.Text.{Text}
use csboard_extension.Shared.Result.{Result, ok, err}
use csboard_extension.Gateway.Error.{GatewayPayloadError}
use csboard_extension.Gateway.Identity.{assert_pairing_code}
use csboard_extension.Controller.State.{
  UnpairStage, awaiting_pair, awaiting_sync, reading_registration, sealing, sending, destroying,
  Revocation, not_registered, confirmed, unconfirmed, SyncStage, SyncRun, State,
}
use csboard_extension.Controller.Pair.{
  pair, start_pair, pair_registration_read, pair_identity_created, pair_confirmed, pair_saved,
}
use csboard_extension.Controller.Unpair.{
  unpair, unpair_pair_settled, unpair_sync_settled, unpair_registration_read, unpair_sealed,
  unpair_sent, outbox_cleared, identity_deleted, unpair_finished,
}
use csboard_extension.Controller.Sync.{sync_now}
use csboard_extension.Controller.Steps.{
  PairStep, UnpairStep, Step, of_pair, of_unpair, sync_called, of_sync, Reaches, called,
  registration_read, identity_created, pairing_confirmed, registration_saved, pair_settled,
  sync_settled, revocation_sealed, revocation_sent, outbox_settled, identity_settled, finished,
}
use csboard_extension.Controller.Fence.{IsStale, IsOrdered, IsFenced, portfolio_requests}
use csboard_extension.Controller.Fence.Runs.{SyncStep-IsRunStep}
use csboard_extension.Controller.Fence.Orders.{IsOrdered-at}
use csboard_extension.Controller.Fence.Reached.{Reaches-IsFenced}

module _ {C E O : Type 0} (origin : Text) (empty : O) where
  -- The two states have sent the same portfolios.
  abbrev SendsNone : State C E O → State C E O → Type 0
  SendsNone s t = portfolio_requests t.events ≡ portfolio_requests s.events

  started-SendsNone :
      (s : State C E O) (code : Text) (checked : Result (Unit {0}) GatewayPayloadError)
      → SendsNone s (start_pair code checked s)
  started-SendsNone s code (ok valid) = refl
  started-SendsNone s code (err refused) = refl

  PairStep-SendsNone : (s t : State C E O) → PairStep origin empty s t → SendsNone s t
  unfolding pair pair_registration_read pair_identity_created pair_confirmed pair_saved
  PairStep-SendsNone s _ (called _ code) =
      option-cases (SendsNone s) s.unpair_in_flight
        (λ free.
          option-cases (SendsNone s) s.pair_in_flight
            (λ e. started-SendsNone s code (assert_pairing_code code)) (λ stage e. refl))
        (λ stage e. refl)
  PairStep-SendsNone s _ (registration_read _ code (ok (some r)) at) = refl
  PairStep-SendsNone s _ (registration_read _ code (ok none) at) = refl
  PairStep-SendsNone s _ (registration_read _ code (err x) at) = refl
  PairStep-SendsNone s _ (identity_created _ code (ok id) at) = refl
  PairStep-SendsNone s _ (identity_created _ code (err x) at) = refl
  PairStep-SendsNone s _ (pairing_confirmed _ (ok r) at) = refl
  PairStep-SendsNone s _ (pairing_confirmed _ (err x) at) = refl
  PairStep-SendsNone s _ (registration_saved _ r (ok saved) at) = refl
  PairStep-SendsNone s _ (registration_saved _ r (err x) at) = refl

  finished-SendsNone :
      (s : State C E O) (remote : Revocation) (cleared deleted : Bool)
      → SendsNone s (unpair_finished remote cleared deleted s)
  unfolding unpair_finished
  finished-SendsNone s not_registered true true = refl
  finished-SendsNone s confirmed true true = refl
  finished-SendsNone s unconfirmed true true = refl
  finished-SendsNone s remote true false = refl
  finished-SendsNone s remote false deleted = refl

  UnpairStep-SendsNone : (s t : State C E O) → UnpairStep origin empty s t → SendsNone s t
  unfolding unpair unpair_pair_settled unpair_sync_settled unpair_registration_read unpair_sealed
      unpair_sent outbox_cleared identity_deleted
  UnpairStep-SendsNone s _ (called _) =
      option-cases (SendsNone s) s.unpair_in_flight (λ e. refl) (λ stage e. refl)
  UnpairStep-SendsNone s _ (pair_settled _ at) =
      option-cases (SendsNone s) s.pair_in_flight (λ e. refl) (λ stage e. refl)
  UnpairStep-SendsNone s _ (sync_settled _ at) =
      option-cases (SendsNone s) s.sync_in_flight (λ e. refl) (λ run e. refl)
  UnpairStep-SendsNone s _ (registration_read _ (ok none) at) = refl
  UnpairStep-SendsNone s _ (registration_read _ (ok (some r)) at) = refl
  UnpairStep-SendsNone s _ (registration_read _ (err x) at) = refl
  UnpairStep-SendsNone s _ (revocation_sealed _ (ok envelope) at) = refl
  UnpairStep-SendsNone s _ (revocation_sealed _ (err x) at) = refl
  UnpairStep-SendsNone s _ (revocation_sent _ (ok delivery) at) =
      if-cases (SendsNone s) (not delivery.accepted && not delivery.device_revoked) (λ _. refl)
        (λ _. refl)
  UnpairStep-SendsNone s _ (revocation_sent _ (err x) at) = refl
  UnpairStep-SendsNone s _ (outbox_settled _ remote deleted true at) = refl
  UnpairStep-SendsNone s _ (outbox_settled _ remote deleted false at) = refl
  UnpairStep-SendsNone s _ (identity_settled _ remote cleared true at) = refl
  UnpairStep-SendsNone s _ (identity_settled _ remote cleared false at) = refl
  UnpairStep-SendsNone s _ (finished _ remote cleared deleted at) =
      finished-SendsNone s remote cleared deleted

  -- A run beside an unpairing is of an earlier epoch.
  stale_beside :
      (s : State C E O) (u : UnpairStage) (e : ℕ) (stage : SyncStage C E)
      → s.sync_in_flight ≡ some (record { epoch = e; stage = stage })
      → IsOrdered empty s.sync_epoch s.sync_in_flight s.pair_in_flight s.outbox s.registration
          s.has_identity
          (some u)
      → e < s.sync_epoch
  stale_beside s awaiting_pair e stage at h =
      subst (λ (r : Option (SyncRun C E)). IsStale s.sync_epoch r) at h
  stale_beside s awaiting_sync e stage at (h, p) =
      subst (λ (r : Option (SyncRun C E)). IsStale s.sync_epoch r) at h
  stale_beside s reading_registration e stage at (h, p) = cc
  stale_beside s sealing e stage at (h, p) = cc
  stale_beside s sending e stage at (h, p) = cc
  stale_beside s (destroying _ _ _) e stage at (h, p, _, _) = cc

  Step-SendsNone :
      (s t : State C E O) (u : UnpairStage)
      → IsFenced empty s
      → s.unpair_in_flight ≡ some u
      → Step origin empty s t
      → SendsNone s t
  unfolding sync_now
  Step-SendsNone s t u f at (of_pair _ _ step) = PairStep-SendsNone s t step
  Step-SendsNone s t u f at (of_unpair _ _ step) = UnpairStep-SendsNone s t step
  Step-SendsNone s _ u f at (sync_called _) =
      option-cases (SendsNone s) s.unpair_in_flight
        (λ free. option-cases (SendsNone s) s.sync_in_flight (λ e. refl) (λ run e. refl))
        (λ stage e. refl)
  Step-SendsNone s t u f at (of_sync _ _ e stage on step) =
      let before = stale_beside s u e stage on (IsOrdered-at empty s f (some u) at) in
      elim (SyncStep-IsRunStep origin empty s e stage t on step).sends [
        | inl same ↦ same
        | inr now ↦ ground arith
      ]

  -- From a state without handlers in flight, in whatever order the replies come: once an unpairing is
  -- in flight, no step until its end sends an envelope of a portfolio.
  pub unpair-SendsNone :
      (start s t : State C E O) (u : UnpairStage)
      → start.sync_in_flight ≡ none
      → start.unpair_in_flight ≡ none
      → Reaches origin empty start s
      → s.unpair_in_flight ≡ some u
      → Step origin empty s t
      → portfolio_requests t.events ≡ portfolio_requests s.events
  unpair-SendsNone start s t u no_run no_unpair reached at step =
      Step-SendsNone s t u (Reaches-IsFenced origin empty start s no_run no_unpair reached) at step

  -- Nothing of the pairing is left on the device.
  pub record IsUnpaired (s : State C E O) : Type 0 where
    pub registration : s.registration ≡ none
    pub identity : s.has_identity ≡ false
    pub outbox : s.outbox ≡ empty
    pub no_sync : s.sync_in_flight ≡ none
    pub no_pair : s.pair_in_flight ≡ none

  deleted-IsUnpaired :
      (s : State C E O) (remote : Revocation)
      → IsFenced empty s
      → s.unpair_in_flight ≡ some (destroying remote (some true) (some true))
      → IsUnpaired s
  deleted-IsUnpaired s remote f at =
      let (no_run, no_pair, clear, gone) = IsOrdered-at empty s f _ at in
      record {
        registration = (gone refl).0;
        identity = (gone refl).1;
        outbox = clear refl;
        no_sync = no_run;
        no_pair = no_pair;
      }

  finished-IsUnpaired :
      (s : State C E O) (remote : Revocation) (cleared deleted : Bool)
      → IsFenced empty s
      → s.unpair_in_flight ≡ some (destroying remote (some cleared) (some deleted))
      → (unpair_finished remote cleared deleted s).events ≢ s.events
      → IsUnpaired (unpair_finished remote cleared deleted s)
  unfolding unpair_finished
  finished-IsUnpaired s not_registered true true f at new =
      let c = deleted-IsUnpaired s not_registered f at in
      record {
        registration = c.registration;
        identity = c.identity;
        outbox = c.outbox;
        no_sync = c.no_sync;
        no_pair = c.no_pair;
      }
  finished-IsUnpaired s confirmed true true f at new =
      let c = deleted-IsUnpaired s confirmed f at in
      record {
        registration = c.registration;
        identity = c.identity;
        outbox = c.outbox;
        no_sync = c.no_sync;
        no_pair = c.no_pair;
      }
  finished-IsUnpaired s unconfirmed true true f at new = elim (new refl) [ ]
  finished-IsUnpaired s remote true false f at new = elim (new refl) [ ]
  finished-IsUnpaired s remote false deleted f at new = elim (new refl) [ ]

  -- From a state without handlers in flight: where the end of an unpairing reports success, the
  -- registration and the keys are deleted, the outbox is empty, and no handler is in flight.
  pub unpair_finished-IsUnpaired :
      (start s : State C E O) (remote : Revocation) (cleared deleted : Bool)
      → start.sync_in_flight ≡ none
      → start.unpair_in_flight ≡ none
      → Reaches origin empty start s
      → s.unpair_in_flight ≡ some (destroying remote (some cleared) (some deleted))
      → (unpair_finished remote cleared deleted s).events ≢ s.events
      → IsUnpaired (unpair_finished remote cleared deleted s)
  unpair_finished-IsUnpaired start s remote cleared deleted no_run no_unpair reached at new =
      finished-IsUnpaired s remote cleared deleted
        (Reaches-IsFenced origin empty start s no_run no_unpair reached) at new
