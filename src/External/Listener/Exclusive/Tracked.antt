-- ===== src/External/Listener/Exclusive/Tracked.antt =====
-- background/external-router.ts: a message that reaches a handler is one that the listener tracks.
use csboard_extension.Prelude.{
  ◌≡◌, inl, inr, refl, arith, true, false, Option, none, some, List, [], ◌∷◌,
}
use csboard_extension.Prelude.Text.{Text, ===_refl}
use csboard_extension.Gateway.Payload.{Js}
use csboard_extension.External.Messages.{pair_and_enable_type, reactivate_type}
use csboard_extension.External.Dispatch.{
  Options, has_origin, is_from, Route, answer, activate, route,
}
use csboard_extension.External.Dispatch.Guarded.{IsActivation, route-authorized, IsActivation-type}
use csboard_extension.External.Listener.{stage_of, should_track, is_done}

-- A non-empty allowed origin is an allowed origin.
is_from-has_origin :
    (allowed : List Text) (origin : Option Text)
    → is_from allowed origin ≡ true
    → has_origin allowed origin ≡ true
is_from-has_origin allowed none h = cc
is_from-has_origin allowed (some []) h = cc
is_from-has_origin allowed (some (c ∷ origin)) h = h

-- A message that reaches a handler is tracked.
activation-tracked :
    (options : Options) (message : Js) (origin : Option Text)
    → is_from options.pairing_allowed_origins origin ≡ true
    → IsActivation message
    → should_track options message origin ≡ true
unfolding should_track
activation-tracked options message origin from exact = elim (IsActivation-type message exact) [
  | inl e ↦ rw e (
      ground (
        arith,
        ===_refl pair_and_enable_type,
        is_from-has_origin options.pairing_allowed_origins origin from,
      ))
  | inr e ↦ rw e (
      ground (
        arith,
        ===_refl reactivate_type,
        is_from-has_origin options.pairing_allowed_origins origin from,
      ))
]

-- A message that is not tracked calls no handler.
pub done-of :
    (options : Options) (message : Js) (origin : Option Text) (r : Route)
    → route options message origin ≡ r
    → should_track options message origin ≡ false
    → is_done (stage_of r) ≡ true
done-of options message origin (answer response) e h = refl
done-of options message origin (activate activation) e h =
    let (from, exact, _) = route-authorized options message origin activation e in
    absurd (ground (arith, activation-tracked options message origin from exact))
