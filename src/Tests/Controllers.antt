-- ===== src/Tests/Controllers.antt =====
-- A device that is unpaired while it begins a synchronisation.
use csboard_extension.Prelude.{ℕ, ◌≡◌, ◌≢◌, refl, true, none, some, List, [], ◌∷◌}
use csboard_extension.Prelude.Text.{Text, codes}
use csboard_extension.Shared.Result.{ok}
use csboard_extension.Controller.State.{
  idle, awaiting_pair, awaiting_sync, reading_registration, destroying, not_registered, State,
}
use csboard_extension.Controller.Unpair.{
  unpair, unpair_pair_settled, unpair_sync_settled, unpair_registration_read, outbox_cleared,
  identity_deleted, unpair_finished,
}
use csboard_extension.Controller.Sync.{sync_now}
use csboard_extension.Controller.Steps.{
  UnpairStep, of_unpair, sync_called, Reaches, here, then, called, registration_read, pair_settled,
  sync_settled, outbox_settled, identity_settled,
}
use csboard_extension.Controller.Fence.{IsFenced, portfolio_requests}
use csboard_extension.Controller.Fence.Reached.{Reaches-IsFenced}
use csboard_extension.Controller.Fence.Promises.{
  IsUnpaired, unpair-SendsNone, unpair_finished-IsUnpaired,
}

abbrev origin : Text
origin = codes "https://gateway.csboard.com"

-- Chunks, envelopes and outboxes are numbers and lists of them.
abbrev Device : Type 0
Device = State ℕ ℕ (List ℕ)

abbrev rest : Device
rest = record {
  sync_state = idle;
  last_failure_code = none;
  sync_epoch = 0;
  sync_in_flight = none;
  pair_in_flight = none;
  unpair_in_flight = none;
  registration = none;
  has_identity = true;
  outbox = 1 ∷ [];
  events = [];
}

abbrev fenced : Device
fenced = unpair (sync_now rest)

fenced-reached : Reaches origin [] rest fenced
fenced-reached =
    then (sync_now rest) (unpair (sync_now rest))
      (then rest (sync_now rest) here (sync_called rest))
      (of_unpair (sync_now rest) (unpair (sync_now rest)) (called (sync_now rest)))

fenced-waits : fenced.unpair_in_flight ≡ some awaiting_pair
unfolding unpair sync_now
fenced-waits = refl

Reaches-IsFenced_example : IsFenced [] fenced
Reaches-IsFenced_example = Reaches-IsFenced origin [] rest fenced refl refl fenced-reached

unpair-SendsNone_example :
    portfolio_requests (unpair_pair_settled fenced).events ≡ portfolio_requests fenced.events
unpair-SendsNone_example =
    unpair-SendsNone origin [] rest fenced (unpair_pair_settled fenced) awaiting_pair refl refl
      fenced-reached fenced-waits
      (of_unpair fenced (unpair_pair_settled fenced) (pair_settled fenced fenced-waits))

-- The unpairing of a device that was never paired, up to its end.
abbrev raised : Device
raised = unpair rest

abbrev alone : Device
alone = unpair_sync_settled (unpair_pair_settled raised)

abbrev unregistered : Device
unregistered = unpair_registration_read (ok none) alone

abbrev emptied : Device
emptied = outbox_cleared [] not_registered none true unregistered

abbrev destroyed : Device
destroyed = identity_deleted not_registered (some true) true emptied

stages :
    (raised.unpair_in_flight ≡ some awaiting_pair)
    × ((unpair_pair_settled raised).unpair_in_flight ≡ some awaiting_sync)
    × (alone.unpair_in_flight ≡ some reading_registration)
    × (unregistered.unpair_in_flight ≡ some (destroying not_registered none none))
    × (emptied.unpair_in_flight ≡ some (destroying not_registered (some true) none))
    × (destroyed.unpair_in_flight ≡ some (destroying not_registered (some true) (some true)))
unfolding unpair unpair_pair_settled unpair_sync_settled unpair_registration_read outbox_cleared
    identity_deleted
stages = (refl, refl, refl, refl, refl, refl)

unpairs :
    (s t : Device) → Reaches origin [] rest s → UnpairStep origin [] s t → Reaches origin [] rest t
unpairs s t reached step = then s t reached (of_unpair s t step)

destroyed-reached : Reaches origin [] rest destroyed
destroyed-reached =
    unpairs emptied destroyed
      (unpairs unregistered emptied
        (unpairs alone unregistered
          (unpairs (unpair_pair_settled raised) alone
            (unpairs raised (unpair_pair_settled raised) (unpairs rest raised here (called rest))
              (pair_settled raised stages.0))
            (sync_settled (unpair_pair_settled raised) stages.1))
          (registration_read alone (ok none) stages.2))
        (outbox_settled unregistered not_registered none true stages.3))
      (identity_settled emptied not_registered (some true) true stages.4)

success_reported : (unpair_finished not_registered true true destroyed).events ≢ destroyed.events
unfolding unpair unpair_pair_settled unpair_sync_settled unpair_registration_read outbox_cleared
    identity_deleted unpair_finished
success_reported h = cc

unpair_finished-IsUnpaired_example :
    IsUnpaired origin [] (unpair_finished not_registered true true destroyed)
unpair_finished-IsUnpaired_example =
    unpair_finished-IsUnpaired origin [] rest destroyed not_registered true true refl refl
      destroyed-reached stages.5 success_reported
