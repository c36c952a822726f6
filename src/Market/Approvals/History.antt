-- ===== src/Market/Approvals/History.antt =====
-- shared/market-actions.ts: histories of approvals and their uses, of one of the two kinds.
pub mod Invariant
pub mod Orderly
use csboard_extension.Prelude.{
  ℕ, suc, ◌+◌, ◌≤◌, ◌≡◌, Bool, true, false, ◌&&◌, ◌||◌, Option, none, some, List, [], ◌∷◌, leb, ltb,
  ◌==◌, any, All, length,
}
use csboard_extension.Prelude.Text.{Text, ◌===◌}
use csboard_extension.Shared.Result.{Result, ok, err}
use csboard_extension.Shared.Error.{CsBoardError}
use csboard_extension.Market.Approvals.{
  sell_authorization_ttl_ms, Gesture, is_trusted_user_gesture, has, unique, Registry, no_approvals,
  Policy, authorize, consume,
}

pub data Call : Type 0 where
  authorizes : Gesture → List Text → Text → ℕ → Call
  consumes : ℕ → Text → Option Text → ℕ → Call

-- An approval that was given.
pub record Grant : Type 0 where
  pub handle : ℕ
  pub event : Gesture
  pub ids : List Text
  pub account : Text
  pub time : ℕ

-- A use that was allowed, with the account that was current.
pub record Use : Type 0 where
  pub handle : ℕ
  pub id : Text
  pub account : Option Text
  pub time : ℕ

pub record World : Type 0 where
  pub registry : Registry
  pub grants : List Grant
  pub uses : List Use

abbrev pub start : World
start = record { registry = no_approvals; grants = []; uses = [] }

abbrev pub after_authorize :
    Gesture → List Text → Text → ℕ → World → Result ℕ CsBoardError × Registry → World
after_authorize event ids account now w (ok handle, r) = record w {
  registry = r;
  grants =
      record { handle = handle; event = event; ids = ids; account = account; time = now }
      ∷ w.grants;
}
after_authorize event ids account now w (err error, r) = record w { registry = r }

abbrev pub after_consume :
    ℕ → Text → Option Text → ℕ → World → Result (Unit {0}) CsBoardError × Registry → World
after_consume handle id current now w (ok _, r) = record w {
  registry = r;
  uses = record { handle = handle; id = id; account = current; time = now } ∷ w.uses;
}
after_consume handle id current now w (err error, r) = record w { registry = r }

module _ (policy : Policy) where
  unfoldable pub step : Call → World → World
  step (authorizes event ids account now) w =
      after_authorize event ids account now w (authorize policy event ids account now w.registry)
  step (consumes handle id current now) w =
      after_consume handle id current now w (consume policy handle id current now w.registry)

  unfoldable pub run : List Call → World → World
  run [] w = w
  run (c ∷ cs) w = run cs (step c w)

-- Whether a use was made of this approval and id.
abbrev pub is_use_of : ℕ → Text → Use → Bool
is_use_of handle id u = u.handle == handle && u.id === id

abbrev pub IsOnce : List Use → Type 0
IsOnce [] = Unit
IsOnce (u ∷ us) = (any (is_use_of u.handle u.id) us ≡ false) × IsOnce us

-- Whether an approval allows an id of this account, until this time.
abbrev pub covers : ℕ → Text → Text → ℕ → Grant → Bool
covers handle id account time g =
    g.handle == handle
    && has id g.ids
    && g.account === account
    && leb time (g.time + sell_authorization_ttl_ms)

abbrev pub IsCovered : List Grant → Use → Type 0
IsCovered grants u =
    (account : Text) × (u.account ≡ some account)
    × (any (covers u.handle u.id account u.time) grants ≡ true)

abbrev pub IsGranted : Policy → Grant → Type 0
IsGranted policy g =
    (is_trusted_user_gesture g.event ≡ true) × (length (unique g.ids) ≤ policy.limit)
