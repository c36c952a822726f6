-- ===== src/Controller/Fence/Reached.antt =====
-- background/gateway-controller.ts: the fence holds in every state that is reached.
use csboard_extension.Prelude.{
  ◌≡◌, refl, Bool, true, false, not, ◌&&◌, Option, none, some, List, arith, option-cases, if-cases,
}
use csboard_extension.Prelude.Text.{Text}
use csboard_extension.Shared.Result.{Result, ok, err}
use csboard_extension.Gateway.Error.{GatewayPayloadError}
use csboard_extension.Gateway.Identity.{assert_pairing_code}
use csboard_extension.Controller.State.{
  creating_identity, confirming, saving, sealing, sending, destroying, Revocation, not_registered,
  confirmed, unconfirmed, Event, State, Settled,
}
use csboard_extension.Controller.Pair.{
  pair, start_pair, pair_registration_read, pair_identity_created, pair_confirmed, pair_saved,
}
use csboard_extension.Controller.Unpair.{
  unpair_registration_read, unpair_sealed, unpair_sent, outbox_cleared, identity_deleted,
  unpair_finished, Delivery,
}
use csboard_extension.Controller.Sync.{sync_now}
use csboard_extension.Controller.Steps.{
  PairStep, UnpairStep, Step, of_pair, of_unpair, sync_called, of_sync, Reaches, here, then, called,
  registration_read, identity_created, pairing_confirmed, registration_saved, pair_settled,
  sync_settled, revocation_sealed, revocation_sent, outbox_settled, identity_settled, finished,
}
use csboard_extension.Controller.Fence.{IsFenced}
use csboard_extension.Controller.Fence.Runs.{SyncStep-IsRunStep}
use csboard_extension.Controller.Fence.Orders.{
  run-IsFenced, pair-IsFenced, unpair-IsFenced, IsOrdered-at, unpair_called-IsFenced,
  pair_settled-IsFenced, sync_settled-IsFenced,
}

module _ {C E O : Type 0} (origin : Text) (empty : O) where
  -- A pairing starts only where there is no unpairing.
  started-IsFenced :
      (s : State C E O) (code : Text) (checked : Result (Unit {0}) GatewayPayloadError)
      → s.unpair_in_flight ≡ none
      → IsFenced empty s
      → IsFenced empty (start_pair code checked s)
  started-IsFenced s code (ok valid) free f = record { of_epoch = f.of_epoch; ordered = rw free tt }
  started-IsFenced s code (err refused) free f = f

  pair_called-IsFenced :
      (s : State C E O) (code : Text) → IsFenced empty s → IsFenced empty (pair code s)
  unfolding pair
  pair_called-IsFenced s code f =
      option-cases (IsFenced empty) s.unpair_in_flight
        (λ free.
          option-cases (IsFenced empty) s.pair_in_flight
            (λ e. started-IsFenced s code (assert_pairing_code code) free f) (λ stage e. f))
        (λ stage e. f)

  PairStep-IsFenced :
      (s t : State C E O) → IsFenced empty s → PairStep origin empty s t → IsFenced empty t
  unfolding pair_registration_read pair_identity_created pair_confirmed pair_saved
  PairStep-IsFenced s _ f (called _ code) = pair_called-IsFenced s code f
  PairStep-IsFenced s _ f (registration_read _ code (ok (some r)) at) =
      pair-IsFenced empty s _ at f s.last_failure_code none s.registration s.has_identity s.events
  PairStep-IsFenced s _ f (registration_read _ code (ok none) at) =
      pair-IsFenced empty s _ at f s.last_failure_code (some (creating_identity code))
        s.registration s.has_identity s.events
  PairStep-IsFenced s _ f (registration_read _ code (err x) at) =
      pair-IsFenced empty s _ at f s.last_failure_code none s.registration s.has_identity s.events
  PairStep-IsFenced s _ f (identity_created _ code (ok id) at) =
      pair-IsFenced empty s _ at f s.last_failure_code (some confirming) s.registration true _
  PairStep-IsFenced s _ f (identity_created _ code (err x) at) =
      pair-IsFenced empty s _ at f s.last_failure_code none s.registration s.has_identity s.events
  PairStep-IsFenced s _ f (pairing_confirmed _ (ok r) at) =
      pair-IsFenced empty s _ at f s.last_failure_code (some (saving r)) s.registration
        s.has_identity s.events
  PairStep-IsFenced s _ f (pairing_confirmed _ (err x) at) =
      pair-IsFenced empty s _ at f _ none s.registration s.has_identity s.events
  PairStep-IsFenced s _ f (registration_saved _ r (ok saved) at) =
      pair-IsFenced empty s _ at f none none (some r) s.has_identity s.events
  PairStep-IsFenced s _ f (registration_saved _ r (err x) at) =
      pair-IsFenced empty s _ at f _ none s.registration s.has_identity s.events

  -- Behind the waits, where nothing is deleted yet.
  destroying-IsFenced :
      (s : State C E O)
      → IsFenced empty s
      → (remote : Revocation) (code : Option Text)
      → (s.sync_in_flight ≡ none) × (s.pair_in_flight ≡ none)
      → IsFenced empty (record s {
        last_failure_code = code;
        unpair_in_flight = some (destroying remote none none);
      })
  destroying-IsFenced s f remote code (no_run, no_pair) =
      unpair-IsFenced empty s f code (some (destroying remote none none)) s.registration
        s.has_identity s.outbox s.events (no_run, no_pair, λ h. cc, λ h. cc)

  sent-IsFenced :
      (s : State C E O)
      → IsFenced empty s
      → s.unpair_in_flight ≡ some sending
      → (reply : Settled Delivery) → IsFenced empty (unpair_sent reply s)
  unfolding unpair_sent
  sent-IsFenced s f at (ok delivery) =
      if-cases (IsFenced empty) (not delivery.accepted && not delivery.device_revoked)
        (λ _. destroying-IsFenced s f unconfirmed _ (IsOrdered-at empty s f _ at))
        (λ _. destroying-IsFenced s f confirmed s.last_failure_code (IsOrdered-at empty s f _ at))
  sent-IsFenced s f at (err failure) =
      destroying-IsFenced s f unconfirmed s.last_failure_code (IsOrdered-at empty s f _ at)

  outbox_settled-IsFenced :
      (s : State C E O)
      → IsFenced empty s
      → (remote : Revocation) (deleted : Option Bool) (done : Bool)
      → s.unpair_in_flight ≡ some (destroying remote none deleted)
      → IsFenced empty (outbox_cleared empty remote deleted done s)
  unfolding outbox_cleared
  outbox_settled-IsFenced s f remote deleted true at =
      let (no_run, no_pair, _, gone) = IsOrdered-at empty s f _ at in
      unpair-IsFenced empty s f s.last_failure_code (some (destroying remote (some true) deleted))
        s.registration s.has_identity empty s.events (no_run, no_pair, λ _. refl, gone)
  outbox_settled-IsFenced s f remote deleted false at =
      let (no_run, no_pair, _, gone) = IsOrdered-at empty s f _ at in
      unpair-IsFenced empty s f s.last_failure_code (some (destroying remote (some false) deleted))
        s.registration s.has_identity s.outbox s.events (no_run, no_pair, λ h. cc, gone)

  identity_settled-IsFenced :
      (s : State C E O)
      → IsFenced empty s
      → (remote : Revocation) (cleared : Option Bool) (done : Bool)
      → s.unpair_in_flight ≡ some (destroying remote cleared none)
      → IsFenced empty (identity_deleted remote cleared done s)
  unfolding identity_deleted
  identity_settled-IsFenced s f remote cleared true at =
      let (no_run, no_pair, clear, _) = IsOrdered-at empty s f _ at in
      unpair-IsFenced empty s f s.last_failure_code (some (destroying remote cleared (some true)))
        none false s.outbox s.events (no_run, no_pair, clear, λ _. (refl, refl))
  identity_settled-IsFenced s f remote cleared false at =
      let (no_run, no_pair, clear, _) = IsOrdered-at empty s f _ at in
      unpair-IsFenced empty s f s.last_failure_code (some (destroying remote cleared (some false)))
        s.registration s.has_identity s.outbox s.events (no_run, no_pair, clear, λ h. cc)

  -- The end of an unpairing, with any outcome.
  over-IsFenced :
      (s : State C E O)
      → IsFenced empty s
      → (code : Option Text) (events : List (Event E))
      → IsFenced empty
          (record s { last_failure_code = code; unpair_in_flight = none; events = events })
  over-IsFenced s f code events =
      unpair-IsFenced empty s f code none s.registration s.has_identity s.outbox events tt

  finished-IsFenced :
      (s : State C E O)
      → IsFenced empty s
      → (remote : Revocation) (cleared deleted : Bool)
      → IsFenced empty (unpair_finished remote cleared deleted s)
  unfolding unpair_finished
  finished-IsFenced s f not_registered true true = over-IsFenced s f s.last_failure_code _
  finished-IsFenced s f confirmed true true = over-IsFenced s f none _
  finished-IsFenced s f unconfirmed true true = over-IsFenced s f s.last_failure_code s.events
  finished-IsFenced s f remote true false = over-IsFenced s f _ s.events
  finished-IsFenced s f remote false deleted = over-IsFenced s f _ s.events

  UnpairStep-IsFenced :
      (s t : State C E O) → IsFenced empty s → UnpairStep origin empty s t → IsFenced empty t
  unfolding unpair_registration_read unpair_sealed
  UnpairStep-IsFenced s _ f (called _) = unpair_called-IsFenced empty s f
  UnpairStep-IsFenced s _ f (pair_settled _ at) = pair_settled-IsFenced empty s f at
  UnpairStep-IsFenced s _ f (sync_settled _ at) = sync_settled-IsFenced empty s f at
  UnpairStep-IsFenced s _ f (registration_read _ (ok none) at) =
      destroying-IsFenced s f not_registered s.last_failure_code (IsOrdered-at empty s f _ at)
  UnpairStep-IsFenced s _ f (registration_read _ (ok (some r)) at) =
      unpair-IsFenced empty s f s.last_failure_code (some sealing) s.registration s.has_identity
        s.outbox s.events (IsOrdered-at empty s f _ at)
  UnpairStep-IsFenced s _ f (registration_read _ (err x) at) =
      over-IsFenced s f s.last_failure_code s.events
  UnpairStep-IsFenced s _ f (revocation_sealed _ (ok envelope) at) =
      unpair-IsFenced empty s f s.last_failure_code (some sending) s.registration s.has_identity
        s.outbox _ (IsOrdered-at empty s f _ at)
  UnpairStep-IsFenced s _ f (revocation_sealed _ (err x) at) =
      destroying-IsFenced s f unconfirmed s.last_failure_code (IsOrdered-at empty s f _ at)
  UnpairStep-IsFenced s _ f (revocation_sent _ reply at) = sent-IsFenced s f at reply
  UnpairStep-IsFenced s _ f (outbox_settled _ remote deleted done at) =
      outbox_settled-IsFenced s f remote deleted done at
  UnpairStep-IsFenced s _ f (identity_settled _ remote cleared done at) =
      identity_settled-IsFenced s f remote cleared done at
  UnpairStep-IsFenced s _ f (finished _ remote cleared deleted at) =
      finished-IsFenced s f remote cleared deleted

  sync_called-IsFenced : (s : State C E O) → IsFenced empty s → IsFenced empty (sync_now s)
  unfolding sync_now
  sync_called-IsFenced s f =
      option-cases (IsFenced empty) s.unpair_in_flight
        (λ free.
          option-cases (IsFenced empty) s.sync_in_flight
            (λ e. record { of_epoch = omega arith; ordered = rw free tt }) (λ run e. f))
        (λ stage e. f)

  -- Every step of the controller keeps the fence.
  pub Step-IsFenced :
      (s t : State C E O) → IsFenced empty s → Step origin empty s t → IsFenced empty t
  Step-IsFenced s t f (of_pair _ _ step) = PairStep-IsFenced s t f step
  Step-IsFenced s t f (of_unpair _ _ step) = UnpairStep-IsFenced s t f step
  Step-IsFenced s _ f (sync_called _) = sync_called-IsFenced s f
  Step-IsFenced s t f (of_sync _ _ e stage at step) =
      run-IsFenced empty s t e stage at f (SyncStep-IsRunStep origin empty s e stage t at step)

  -- From a state without handlers in flight, however the handlers' steps follow one another, an
  -- unpairing in flight is of a later epoch than the synchronisation in flight; behind its waits
  -- there is no synchronisation and no pairing in flight; and what it deleted stays deleted until it
  -- ends.
  pub Reaches-IsFenced :
      (start s : State C E O)
      → start.sync_in_flight ≡ none
      → start.unpair_in_flight ≡ none
      → Reaches origin empty start s
      → IsFenced empty s
  Reaches-IsFenced start _ no_run no_unpair here = record {
    of_epoch = rw no_run tt;
    ordered = rw no_unpair tt;
  }
  Reaches-IsFenced start _ no_run no_unpair (then s t before step) =
      Step-IsFenced s t (Reaches-IsFenced start s no_run no_unpair before) step
