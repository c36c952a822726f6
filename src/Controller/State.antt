-- ===== src/Controller/State.antt =====
-- background/gateway-controller.ts: the controller's fields, the local stores, and where each of the
-- three handlers waits. An `await` is the end of a step, and the reply to it begins the next one.
use csboard_extension.Prelude.{ℕ, Bool, Option, List}
use csboard_extension.Prelude.Int.{ℤ}
use csboard_extension.Prelude.Text.{Text}
use csboard_extension.Shared.Result.{Result}
use csboard_extension.Portfolio.Collector.Failure.{Failure}

pub record DeviceRegistration : Type 0 where
  pub device_id : Text
  pub steam_id : Text
  pub gateway_origin : Text
  pub recipient_key_id : Text
  pub paired_at : ℤ

pub data SyncState : Type 0 where
  idle syncing error : SyncState

-- Where `runPair` waits.
pub data PairStage : Type 0 where
  reading_registration : Text → PairStage
  creating_identity : Text → PairStage
  confirming : PairStage
  saving : DeviceRegistration → PairStage

-- What became of the revocation at the gateway.
pub data Revocation : Type 0 where
  not_registered confirmed unconfirmed : Revocation

-- Where `runUnpair` waits. In `destroying` the flags are how each of the two deletions settled, if it
-- has.
pub data UnpairStage : Type 0 where
  awaiting_pair awaiting_sync reading_registration sealing sending : UnpairStage
  destroying : (remote : Revocation) (cleared deleted : Option Bool) → UnpairStage

pub record DrainSummary : Type 0 where
  pub delivered : ℕ
  pub deferred : ℕ
  pub failed : ℕ
  pub device_revoked : Bool

-- Where `runSync` waits, over the chunks and the envelopes.
pub data SyncStage (C E : Type 0) : Type 0 where
  reading_registration : SyncStage C E
  creating_provider reading_sources collecting : DeviceRegistration → SyncStage C E
  hashing sealing : DeviceRegistration → C → List C → SyncStage C E
  enqueuing : DeviceRegistration → E → List C → SyncStage C E
  enqueued : DeviceRegistration → List C → SyncStage C E
  draining sending : SyncStage C E
  drained : DrainSummary → SyncStage C E
  reading_status : SyncStage C E

-- What leaves the browser, and the end of an unpairing that succeeded.
pub data Event (E : Type 0) : Type 0 where
  pair_request revoke_request unpaired : Event E
  portfolio_request : E → Event E

pub record SyncRun (C E : Type 0) : Type 0 where
  pub epoch : ℕ
  pub stage : SyncStage C E

-- `outbox` is the stored list of the encrypted requests, of any type O.
pub record State (C E O : Type 0) : Type 0 where
  pub sync_state : SyncState
  pub last_failure_code : Option Text
  pub sync_epoch : ℕ
  pub sync_in_flight : Option (SyncRun C E)
  pub pair_in_flight : Option PairStage
  pub unpair_in_flight : Option UnpairStage
  pub registration : Option DeviceRegistration
  pub has_identity : Bool
  pub outbox : O
  pub events : List (Event E)

abbrev pub Settled : Type 0 → Type 0
Settled T = Result T Failure
