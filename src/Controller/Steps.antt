-- ===== src/Controller/Steps.antt =====
-- background/gateway-controller.ts: the runs of the controller. A step is a call, or the reply to one
-- `await`; the replies are any, in any order.
use csboard_extension.Prelude.{ℕ, Bool, Option, none, some, List, ◌≡◌}
use csboard_extension.Prelude.Text.{Text}
use csboard_extension.Portfolio.Collector.Failure.{Failure}
use csboard_extension.Controller.State.{
  DeviceRegistration, PairStage, reading_registration, creating_identity, confirming, saving,
  Revocation, UnpairStage, awaiting_pair, awaiting_sync, sealing, sending, destroying, DrainSummary,
  SyncStage, creating_provider, reading_sources, collecting, hashing, enqueuing, enqueued, draining,
  drained, reading_status, State, Settled,
}
use csboard_extension.Controller.Pair.{
  pair, pair_registration_read, pair_identity_created, pair_confirmed, pair_saved,
}
use csboard_extension.Controller.Unpair.{
  Delivery, unpair, unpair_pair_settled, unpair_sync_settled, unpair_registration_read,
  unpair_sealed, unpair_sent, outbox_cleared, identity_deleted, unpair_finished,
}
use csboard_extension.Controller.Sync.{
  with_stage, sync_now, sync_failed, in_epoch, on_settled, with_registration, next_chunk,
  drain_send, after_drain, sync_succeeded,
}

-- The gateway's origin, and the stored form of an outbox without requests.
module _ {C E O : Type 0} (origin : Text) (empty : O) where
  abbrev pub Pairs : State C E O → PairStage → Type 0
  Pairs s stage = s.pair_in_flight ≡ some stage

  abbrev pub Unpairs : State C E O → UnpairStage → Type 0
  Unpairs s stage = s.unpair_in_flight ≡ some stage

  abbrev pub Runs : State C E O → ℕ → SyncStage C E → Type 0
  Runs s epoch stage = s.sync_in_flight ≡ some (record { epoch = epoch; stage = stage })

  pub data PairStep : State C E O → State C E O → Type 0 where
    called : (s : State C E O) (code : Text) → PairStep s (pair code s)
    registration_read :
        (s : State C E O) (code : Text) (reply : Settled (Option DeviceRegistration))
        → Pairs s (reading_registration code)
        → PairStep s (pair_registration_read code reply s)
    identity_created :
        (s : State C E O) (code : Text) (reply : Settled (Unit {0}))
        → Pairs s (creating_identity code)
        → PairStep s (pair_identity_created reply s)
    pairing_confirmed :
        (s : State C E O) (reply : Settled DeviceRegistration)
        → Pairs s confirming
        → PairStep s (pair_confirmed reply s)
    registration_saved :
        (s : State C E O) (registration : DeviceRegistration) (reply : Settled (Unit {0}))
        → Pairs s (saving registration)
        → PairStep s (pair_saved registration reply s)

  pub data UnpairStep : State C E O → State C E O → Type 0 where
    called : (s : State C E O) → UnpairStep s (unpair s)
    pair_settled :
        (s : State C E O) → Unpairs s awaiting_pair → UnpairStep s (unpair_pair_settled s)
    sync_settled :
        (s : State C E O) → Unpairs s awaiting_sync → UnpairStep s (unpair_sync_settled s)
    registration_read :
        (s : State C E O) (reply : Settled (Option DeviceRegistration))
        → Unpairs s reading_registration
        → UnpairStep s (unpair_registration_read reply s)
    revocation_sealed :
        (s : State C E O) (reply : Settled (Unit {0}))
        → Unpairs s sealing
        → UnpairStep s (unpair_sealed reply s)
    revocation_sent :
        (s : State C E O) (reply : Settled Delivery)
        → Unpairs s sending
        → UnpairStep s (unpair_sent reply s)
    outbox_settled :
        (s : State C E O) (remote : Revocation) (deleted : Option Bool) (done : Bool)
        → Unpairs s (destroying remote none deleted)
        → UnpairStep s (outbox_cleared empty remote deleted done s)
    identity_settled :
        (s : State C E O) (remote : Revocation) (cleared : Option Bool) (done : Bool)
        → Unpairs s (destroying remote cleared none)
        → UnpairStep s (identity_deleted remote cleared done s)
    finished :
        (s : State C E O) (remote : Revocation) (cleared deleted : Bool)
        → Unpairs s (destroying remote (some cleared) (some deleted))
        → UnpairStep s (unpair_finished remote cleared deleted s)

  -- The step of a run of an epoch, from one of its stages.
  pub data SyncStep (s : State C E O) (e : ℕ) : SyncStage C E → State C E O → Type 0 where
    registration_read :
        (reply : Settled (Option DeviceRegistration))
        → SyncStep s e reading_registration (on_settled e (with_registration e origin) reply s)
    provider_created :
        (r : DeviceRegistration) (reply : Settled (Unit {0}))
        → SyncStep s e
            (creating_provider r)
            (on_settled e (λ _. with_stage e (reading_sources r)) reply s)
    sources_read :
        (r : DeviceRegistration) (reply : Settled (Unit {0}))
        → SyncStep s e (reading_sources r) (on_settled e (λ _. with_stage e (collecting r)) reply s)
    chunks_collected :
        (r : DeviceRegistration) (reply : Settled (List C))
        → SyncStep s e (collecting r) (on_settled e (next_chunk e r) reply s)
    key_hashed :
        (r : DeviceRegistration) (chunk : C) (chunks : List C) (reply : Settled (Unit {0}))
        → SyncStep s e
            (hashing r chunk chunks)
            (on_settled e (λ _. with_stage e (sealing r chunk chunks)) reply s)
    chunk_sealed :
        (r : DeviceRegistration) (chunk : C) (chunks : List C) (reply : Settled E)
        → SyncStep s e
            (sealing r chunk chunks)
            (on_settled e (λ envelope. with_stage e (enqueuing r envelope chunks)) reply s)
    -- The write of the outbox, ahead of the reply to it.
    envelope_stored :
        (r : DeviceRegistration) (envelope : E) (chunks : List C) (stored : O)
        → SyncStep s e
            (enqueuing r envelope chunks)
            (with_stage e (enqueued r chunks) (record s { outbox = stored }))
    envelope_refused :
        (r : DeviceRegistration) (envelope : E) (chunks : List C) (failure : Failure)
        → SyncStep s e (enqueuing r envelope chunks) (sync_failed failure s)
    envelope_enqueued :
        (r : DeviceRegistration) (chunks : List C)
        → SyncStep s e (enqueued r chunks) (in_epoch e (next_chunk e r chunks s) s)
    drain_turn : (envelope : E) → SyncStep s e draining (drain_send e envelope s)
    drain_answered : SyncStep s e sending (with_stage e draining s)
    drain_written :
        (remaining : O) (summary : DrainSummary)
        → SyncStep s e draining (with_stage e (drained summary) (record s { outbox = remaining }))
    drain_refused : (failure : Failure) → SyncStep s e draining (sync_failed failure s)
    drain_settled :
        (summary : DrainSummary)
        → SyncStep s e (drained summary) (in_epoch e (after_drain e summary s) s)
    status_read :
        (reply : Settled (Unit {0}))
        → SyncStep s e reading_status (on_settled e (λ _. sync_succeeded) reply s)

  pub data Step : State C E O → State C E O → Type 0 where
    of_pair : (s t : State C E O) → PairStep s t → Step s t
    of_unpair : (s t : State C E O) → UnpairStep s t → Step s t
    sync_called : (s : State C E O) → Step s (sync_now s)
    of_sync :
        (s t : State C E O) (e : ℕ) (stage : SyncStage C E)
        → Runs s e stage
        → SyncStep s e stage t
        → Step s t

  pub data Reaches (start : State C E O) : State C E O → Type 0 where
    here : Reaches start start
    then : (s t : State C E O) → Reaches start s → Step s t → Reaches start t
