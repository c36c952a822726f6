-- ===== src/Controller/Fence.antt =====
-- background/gateway-controller.ts: the fence that unpairing raises against runs of the
-- synchronisation.
pub mod Runs
pub mod Orders
pub mod Reached
pub mod Promises
use csboard_extension.Prelude.{
  ℕ, suc, ◌≤◌, ◌<◌, ◌≡◌, refl, Bool, true, false, Option, none, some, List, [], ◌∷◌, arith, ◌⊎◌,
  inl, inr,
}
use csboard_extension.Controller.State.{
  DeviceRegistration, PairStage, UnpairStage, awaiting_pair, awaiting_sync, reading_registration,
  sealing, sending, destroying, SyncStage, Event, pair_request, revoke_request, unpaired,
  portfolio_request, SyncRun, State,
}

abbrev pub IsCleared : {O : Type 0} → O → O → Option Bool → Type 0
IsCleared empty outbox cleared = cleared ≡ some true → outbox ≡ empty

abbrev pub IsDeleted : Option DeviceRegistration → Bool → Option Bool → Type 0
IsDeleted registration has_identity deleted =
    deleted ≡ some true → (registration ≡ none) × (has_identity ≡ false)

module _ {C E : Type 0} where
  abbrev pub IsOfEpoch : ℕ → Option (SyncRun C E) → Type 0
  IsOfEpoch epoch none = Unit
  IsOfEpoch epoch (some run) = run.epoch ≤ epoch

  abbrev pub IsStale : ℕ → Option (SyncRun C E) → Type 0
  IsStale epoch none = Unit
  IsStale epoch (some run) = run.epoch < epoch

module _ {C E O : Type 0} (empty : O) where
  -- What an unpairing has at each of its stages: the run is of an earlier epoch, and behind the waits
  -- there is no pairing and no run any more.
  abbrev pub IsOrdered :
      ℕ
      → Option (SyncRun C E)
      → Option PairStage
      → O
      → Option DeviceRegistration
      → Bool
      → Option UnpairStage
      → Type 0
  IsOrdered epoch run pairing outbox registration has_identity none = Unit
  IsOrdered epoch run pairing outbox registration has_identity (some awaiting_pair) =
      IsStale epoch run
  IsOrdered epoch run pairing outbox registration has_identity (some awaiting_sync) =
      IsStale epoch run × (pairing ≡ none)
  IsOrdered epoch run pairing outbox registration has_identity (some reading_registration) =
      (run ≡ none) × (pairing ≡ none)
  IsOrdered epoch run pairing outbox registration has_identity (some sealing) =
      (run ≡ none) × (pairing ≡ none)
  IsOrdered epoch run pairing outbox registration has_identity (some sending) =
      (run ≡ none) × (pairing ≡ none)
  IsOrdered epoch run pairing outbox registration has_identity
        (some (destroying remote cleared deleted)) =
      (run ≡ none)
      × (pairing ≡ none)
      × IsCleared empty outbox cleared
      × IsDeleted registration has_identity deleted

  pub record IsFenced (s : State C E O) : Type 0 where
    pub of_epoch : IsOfEpoch s.sync_epoch s.sync_in_flight
    pub ordered :
        IsOrdered s.sync_epoch s.sync_in_flight s.pair_in_flight s.outbox s.registration
          s.has_identity s.unpair_in_flight

-- The envelopes of portfolios that were sent.
abbrev pub portfolio_requests : {E : Type 0} → List (Event E) → List E
portfolio_requests [] = []
portfolio_requests (pair_request ∷ events) = portfolio_requests events
portfolio_requests (revoke_request ∷ events) = portfolio_requests events
portfolio_requests (unpaired ∷ events) = portfolio_requests events
portfolio_requests (portfolio_request envelope ∷ events) = envelope ∷ portfolio_requests events

-- What a step of a run of an epoch leaves as it is. It sends in its own epoch only.
pub record IsRunStep {C E O : Type 0} (epoch : ℕ) (s t : State C E O) : Type 0 where
  pub same_epoch : t.sync_epoch ≡ s.sync_epoch
  pub same_pair : t.pair_in_flight ≡ s.pair_in_flight
  pub same_unpair : t.unpair_in_flight ≡ s.unpair_in_flight
  pub same_registration : t.registration ≡ s.registration
  pub same_identity : t.has_identity ≡ s.has_identity
  pub run :
      (t.sync_in_flight ≡ none)
      ⊎ ((stage : SyncStage C E) × (t.sync_in_flight
            ≡ some (record { epoch = epoch; stage = stage })))
  pub sends : (portfolio_requests t.events ≡ portfolio_requests s.events) ⊎ (epoch ≡ s.sync_epoch)
