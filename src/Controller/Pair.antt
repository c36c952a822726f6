-- ===== src/Controller/Pair.antt =====
-- background/gateway-controller.ts: `pair` and `runPair`.
use csboard_extension.Prelude.{true, Option, none, some, ◌∷◌}
use csboard_extension.Prelude.Text.{Text}
use csboard_extension.Shared.Result.{Result, ok, err}
use csboard_extension.Gateway.Error.{GatewayPayloadError}
use csboard_extension.Gateway.Identity.{assert_pairing_code}
use csboard_extension.Portfolio.Collector.Failure.{redact_portfolio_failure}
use csboard_extension.Controller.State.{
  DeviceRegistration, PairStage, reading_registration, creating_identity, confirming, saving,
  pair_request, State, Settled,
}

module _ {C E O : Type 0} where
  abbrev pub with_pair : Option PairStage → State C E O → State C E O
  with_pair stage s = record s { pair_in_flight = stage }

  abbrev pub start_pair : Text → Result (Unit {0}) GatewayPayloadError → State C E O → State C E O
  start_pair pairing_code (ok valid) s = with_pair (some (reading_registration pairing_code)) s
  start_pair pairing_code (err invalid_code) s = s

  -- `pair`: refused while an unpairing or a pairing is in flight.
  unfoldable pub pair : Text → State C E O → State C E O
  pair pairing_code s = elim (s.unpair_in_flight) [
    | some stage ↦ s
    | none ↦ elim (s.pair_in_flight) [
      | some stage ↦ s
      | none ↦ start_pair pairing_code (assert_pairing_code pairing_code) s
    ]
  ]

  -- The replies to `getRegistration`, `getOrCreateIdentity`, `confirmPair` and `saveRegistration`.
  unfoldable pub pair_registration_read :
      Text → Settled (Option DeviceRegistration) → State C E O → State C E O
  pair_registration_read code (ok (some existing)) s = with_pair none s
  pair_registration_read code (ok none) s = with_pair (some (creating_identity code)) s
  pair_registration_read code (err failure) s = with_pair none s

  unfoldable pub pair_identity_created : Settled (Unit {0}) → State C E O → State C E O
  pair_identity_created (ok identity) s = record s {
    has_identity = true;
    pair_in_flight = some confirming;
    events = pair_request ∷ s.events;
  }
  pair_identity_created (err failure) s = with_pair none s

  unfoldable pub pair_confirmed : Settled DeviceRegistration → State C E O → State C E O
  pair_confirmed (ok registration) s = with_pair (some (saving registration)) s
  pair_confirmed (err failure) s = record s {
    last_failure_code = some (redact_portfolio_failure failure);
    pair_in_flight = none;
  }

  unfoldable pub pair_saved : DeviceRegistration → Settled (Unit {0}) → State C E O → State C E O
  pair_saved registration (ok saved) s = record s {
    registration = some registration;
    last_failure_code = none;
    pair_in_flight = none;
  }
  pair_saved registration (err failure) s = record s {
    last_failure_code = some (redact_portfolio_failure failure);
    pair_in_flight = none;
  }
