-- ===== src/Controller/Fence/Orders.antt =====
-- background/gateway-controller.ts: what the steps of each handler leave of the fence.
use mathlib.Core.Path.{subst}
use csboard_extension.Prelude.{
  ℕ, suc, ◌≡◌, Bool, Option, none, some, List, arith, ◌⊎◌, inl, inr, option-cases,
}
use csboard_extension.Prelude.Text.{Text}
use csboard_extension.Controller.State.{
  DeviceRegistration, PairStage, UnpairStage, awaiting_pair, awaiting_sync, reading_registration,
  sealing, sending, destroying, SyncStage, Event, SyncRun, State,
}
use csboard_extension.Controller.Unpair.{unpair, unpair_pair_settled, unpair_sync_settled}
use csboard_extension.Controller.Fence.{IsOfEpoch, IsStale, IsOrdered, IsFenced, IsRunStep}

module _ {C E O : Type 0} (empty : O) where
  -- The run in flight, before and behind a step of it.
  abbrev AreOfRun : ℕ → Option (SyncRun C E) → Type 0
  AreOfRun e run =
      (run ≡ none) ⊎ ((stage : SyncStage C E) × (run ≡ some (record { epoch = e; stage = stage })))

  of_epoch-run :
      (epoch e : ℕ) (run next : Option (SyncRun C E))
      → AreOfRun e next
      → (stage : SyncStage C E) → run ≡ some (record { epoch = e; stage = stage })
      → IsOfEpoch epoch run
      → IsOfEpoch epoch next
  of_epoch-run epoch e run next (inl ended) stage at h = rw ended tt
  of_epoch-run epoch e run next (inr (later, on)) stage at h =
      rw on (subst (λ (r : Option (SyncRun C E)). IsOfEpoch epoch r) at h)

  stale-run :
      (epoch e : ℕ) (run next : Option (SyncRun C E))
      → AreOfRun e next
      → (stage : SyncStage C E) → run ≡ some (record { epoch = e; stage = stage })
      → IsStale epoch run
      → IsStale epoch next
  stale-run epoch e run next (inl ended) stage at h = rw ended tt
  stale-run epoch e run next (inr (later, on)) stage at h =
      rw on (subst (λ (r : Option (SyncRun C E)). IsStale epoch r) at h)

  -- While there is a run, an unpairing still waits.
  IsOrdered-run :
      (epoch e : ℕ) (run next : Option (SyncRun C E))
      → AreOfRun e next
      → (stage : SyncStage C E) → run ≡ some (record { epoch = e; stage = stage })
      → (pairing : Option PairStage) (outbox outbox' : O) (r : Option DeviceRegistration)
        (id : Bool)
      → (u : Option UnpairStage) → IsOrdered empty epoch run pairing outbox r id u
      → IsOrdered empty epoch next pairing outbox' r id u
  IsOrdered-run epoch e run next n stage at pairing o o' r id none h = tt
  IsOrdered-run epoch e run next n stage at pairing o o' r id (some awaiting_pair) h =
      stale-run epoch e run next n stage at h
  IsOrdered-run epoch e run next n stage at pairing o o' r id (some awaiting_sync) (h, p) =
      (stale-run epoch e run next n stage at h, p)
  IsOrdered-run epoch e run next n stage at pairing o o' r id (some reading_registration) (h, p) =
      cc
  IsOrdered-run epoch e run next n stage at pairing o o' r id (some sealing) (h, p) = cc
  IsOrdered-run epoch e run next n stage at pairing o o' r id (some sending) (h, p) = cc
  IsOrdered-run epoch e run next n stage at pairing o o' r id (some (destroying _ _ _))
        (h, p, _, _) =
      cc

  -- While there is a pairing, an unpairing still waits for it.
  IsOrdered-pair :
      (epoch : ℕ) (run : Option (SyncRun C E)) (pairing next : Option PairStage) (stage : PairStage)
      → pairing ≡ some stage
      → (outbox : O) (r r' : Option DeviceRegistration) (id id' : Bool) (u : Option UnpairStage)
      → IsOrdered empty epoch run pairing outbox r id u
      → IsOrdered empty epoch run next outbox r' id' u
  IsOrdered-pair epoch run pairing next stage at o r r' id id' none h = tt
  IsOrdered-pair epoch run pairing next stage at o r r' id id' (some awaiting_pair) h = h
  IsOrdered-pair epoch run pairing next stage at o r r' id id' (some awaiting_sync) (h, p) = cc
  IsOrdered-pair epoch run pairing next stage at o r r' id id' (some reading_registration) (h, p) =
      cc
  IsOrdered-pair epoch run pairing next stage at o r r' id id' (some sealing) (h, p) = cc
  IsOrdered-pair epoch run pairing next stage at o r r' id id' (some sending) (h, p) = cc
  IsOrdered-pair epoch run pairing next stage at o r r' id id' (some (destroying _ _ _))
        (h, p, _, _) =
      cc

  pub run-IsFenced :
      (s t : State C E O) (e : ℕ) (stage : SyncStage C E)
      → s.sync_in_flight ≡ some (record { epoch = e; stage = stage })
      → IsFenced empty s
      → IsRunStep e s t
      → IsFenced empty t
  run-IsFenced s t e stage at f k = record {
    of_epoch =
        rw k.same_epoch
          (of_epoch-run s.sync_epoch e s.sync_in_flight t.sync_in_flight k.run stage at f.of_epoch);
    ordered =
        rw (k.same_epoch, k.same_pair, k.same_registration, k.same_identity, k.same_unpair)
          (IsOrdered-run s.sync_epoch e s.sync_in_flight t.sync_in_flight k.run stage at
            s.pair_in_flight s.outbox t.outbox s.registration s.has_identity s.unpair_in_flight
            f.ordered);
  }

  -- The states behind a step of the other two handlers.
  pub pair-IsFenced :
      (s : State C E O) (stage : PairStage)
      → s.pair_in_flight ≡ some stage
      → IsFenced empty s
      → (code : Option Text) (next : Option PairStage) (r : Option DeviceRegistration) (id : Bool)
      → (events : List (Event E))
      → IsFenced empty (record s {
        last_failure_code = code;
        pair_in_flight = next;
        registration = r;
        has_identity = id;
        events = events;
      })
  pair-IsFenced s stage at f code next r id events = record {
    of_epoch = f.of_epoch;
    ordered =
        IsOrdered-pair s.sync_epoch s.sync_in_flight s.pair_in_flight next stage at s.outbox
          s.registration r s.has_identity id s.unpair_in_flight f.ordered;
  }

  pub unpair-IsFenced :
      (s : State C E O)
      → IsFenced empty s
      → (code : Option Text) (u : Option UnpairStage) (r : Option DeviceRegistration) (id : Bool)
      → (o : O) (events : List (Event E))
      → IsOrdered empty s.sync_epoch s.sync_in_flight s.pair_in_flight o r id u
      → IsFenced empty (record s {
        last_failure_code = code;
        unpair_in_flight = u;
        registration = r;
        has_identity = id;
        outbox = o;
        events = events;
      })
  unpair-IsFenced s f code u r id o events h = record { of_epoch = f.of_epoch; ordered = h }

  pub IsOrdered-at :
      (s : State C E O)
      → IsFenced empty s
      → (u : Option UnpairStage) → s.unpair_in_flight ≡ u
      → IsOrdered empty s.sync_epoch s.sync_in_flight s.pair_in_flight s.outbox s.registration
          s.has_identity u
  IsOrdered-at s f u at =
      subst
        (λ (u : Option UnpairStage).
          IsOrdered empty s.sync_epoch s.sync_in_flight s.pair_in_flight s.outbox s.registration
            s.has_identity u)
        at f.ordered

  raised :
      (epoch : ℕ) (run : Option (SyncRun C E))
      → IsOfEpoch epoch run
      → IsOfEpoch (suc epoch) run × IsStale (suc epoch) run
  raised epoch none h = (tt, tt)
  raised epoch (some run) h = (omega arith, omega arith)

  pub unpair_called-IsFenced : (s : State C E O) → IsFenced empty s → IsFenced empty (unpair s)
  unfolding unpair
  unpair_called-IsFenced s f =
      option-cases (IsFenced empty) s.unpair_in_flight
        (λ e. record {
          of_epoch = (raised s.sync_epoch s.sync_in_flight f.of_epoch).0;
          ordered = (raised s.sync_epoch s.sync_in_flight f.of_epoch).1;
        })
        (λ stage e. f)

  pub pair_settled-IsFenced :
      (s : State C E O)
      → IsFenced empty s
      → s.unpair_in_flight ≡ some awaiting_pair
      → IsFenced empty (unpair_pair_settled s)
  unfolding unpair_pair_settled
  pair_settled-IsFenced s f at =
      option-cases (IsFenced empty) s.pair_in_flight
        (λ e.
          unpair-IsFenced s f s.last_failure_code (some awaiting_sync) s.registration s.has_identity
            s.outbox s.events (IsOrdered-at s f _ at, e))
        (λ stage e. f)

  pub sync_settled-IsFenced :
      (s : State C E O)
      → IsFenced empty s
      → s.unpair_in_flight ≡ some awaiting_sync
      → IsFenced empty (unpair_sync_settled s)
  unfolding unpair_sync_settled
  sync_settled-IsFenced s f at =
      option-cases (IsFenced empty) s.sync_in_flight
        (λ e.
          unpair-IsFenced s f s.last_failure_code (some reading_registration) s.registration
            s.has_identity s.outbox s.events (e, (IsOrdered-at s f _ at).1))
        (λ run e. f)
