-- ===== src/Market/Approvals.antt =====
-- shared/market-actions.ts: approvals of sales and of removals, given by a click and used up by the
-- writes. The two kinds differ in their limits and errors, which a policy holds. An approval is an
-- opaque object that only the map of the module reads: here it is a number that was not used before.
pub mod History
pub mod Texts
pub mod Outcomes
pub mod Usable
use Prim.Native.String.{String}
use csboard_extension.Prelude.{
  ℕ, suc, ◌+◌, ◌*◌, Bool, true, false, not, ◌&&◌, ◌||◌, Option, none, some, List, [], ◌∷◌, ltb,
  ◌==◌, all, any, keep, length, if◌then◌else◌,
}
use csboard_extension.Prelude.Text.{Text, ◌===◌, is_digit, is_run_of}
use csboard_extension.Shared.Result.{Result, ok, err}
use csboard_extension.Shared.Error.{
  CsBoardError, ErrorCode, validation_error, auth_required, auth_expired, StopBatch,
  stop_authentication, stop_account_mismatch, stop_user_gesture,
}

abbrev pub sell_authorization_ttl_ms : ℕ
sell_authorization_ttl_ms = 30 * 60 * 1000

abbrev pub max_sell_batch_size : ℕ
max_sell_batch_size = 20

-- An event: `none` where the browser has no `navigator.userActivation`.
pub record Gesture : Type 0 where
  pub is_trusted : Bool
  pub is_active : Option Bool

unfoldable pub is_trusted_user_gesture : Gesture → Bool
is_trusted_user_gesture event = event.is_trusted && active event.is_active
  where
    active : Option Bool → Bool
    active none = true
    active (some b) = b

-- Set.prototype.has and delete, and `new Set(texts)`.
unfoldable pub has : Text → List Text → Bool
has x xs = any (λ y. y === x) xs

unfoldable pub without : Text → List Text → List Text
without x xs = keep (λ y. not (y === x)) xs

unfoldable pub unique : List Text → List Text
unique [] = []
unique (x ∷ xs) = x ∷ without x (unique xs)

-- SellAuthorizationRecord and ListingRemovalAuthorizationRecord.
pub record Approval : Type 0 where
  pub expected_steam_id : Text
  pub remaining : List Text
  pub expires_at : ℕ

-- The map of approvals.
pub record Registry : Type 0 where
  pub next : ℕ
  pub approval : ℕ → Option Approval

abbrev pub no_approvals : Registry
no_approvals = record { next = 0; approval = λ _. none }

abbrev pub set_approval : ℕ → Approval → Registry → Registry
set_approval handle a r = record r { approval = λ k. if k == handle then some a else r.approval k }

pub record Policy : Type 0 where
  pub limit : ℕ
  pub no_gesture : CsBoardError
  pub no_account : CsBoardError
  pub bad_selection : CsBoardError
  pub expired : CsBoardError
  pub signed_out : CsBoardError
  pub other_account : CsBoardError

abbrev fail : String → ErrorCode → Option StopBatch → CsBoardError
fail message code stop = record {
  message = message;
  code = code;
  retryable = false;
  stop_batch = stop;
}

unfoldable pub sell_policy : Policy
sell_policy = record {
  limit = max_sell_batch_size;
  no_gesture =
      fail "Selling requires a direct click from you" validation_error (some stop_user_gesture);
  no_account =
      fail "Cannot verify the active Steam account" auth_required (some stop_authentication);
  bad_selection = fail "Invalid sell selection" validation_error none;
  expired =
      fail "Sell approval expired — review and confirm again" validation_error
        (some stop_user_gesture);
  signed_out = fail "Steam session is no longer signed in" auth_required (some stop_authentication);
  other_account =
      fail "Steam account changed after review — nothing was listed" auth_expired
        (some stop_account_mismatch);
}

unfoldable pub removal_policy : Policy
removal_policy = record {
  limit = 100;
  no_gesture =
      fail "Removing listings requires a direct click from you" validation_error
        (some stop_user_gesture);
  no_account = fail "Cannot verify the active Steam account" auth_required none;
  bad_selection = fail "Invalid listing removal selection" validation_error none;
  expired =
      fail "Listing removal approval expired — review again" validation_error
        (some stop_user_gesture);
  signed_out = fail "Steam session is no longer signed in" auth_required none;
  other_account =
      fail "Steam account changed after review — no listing was removed" auth_expired
        (some stop_account_mismatch);
}

module _ (policy : Policy) where
  -- Whether the set of ids is refused.
  unfoldable pub is_bad_selection : List Text → Bool
  is_bad_selection ids =
      length ids == 0
      || ltb policy.limit (length ids)
      || any (λ id. not (is_run_of is_digit 1 20 id)) ids

  -- authorizeSellFromUserGesture and authorizeListingRemovalFromUserGesture
  unfoldable pub authorize :
      Gesture → List Text → Text → ℕ → Registry → Result ℕ CsBoardError × Registry
  authorize event ids expected_steam_id now r =
      let a : Approval = record {
        expected_steam_id = expected_steam_id;
        remaining = unique ids;
        expires_at = now + sell_authorization_ttl_ms;
      } in
      if not (is_trusted_user_gesture event)
      then (err policy.no_gesture, r)
      else (if not (is_run_of is_digit 16 20 expected_steam_id)
          then (err policy.no_account, r)
          else (if is_bad_selection (unique ids)
              then (err policy.bad_selection, r)
              else (ok r.next, record (set_approval r.next a r) { next = suc r.next })))

  -- The account's checks, once the record is found to be alive; '' is falsy as null is.
  unfoldable pub consume_for :
      ℕ → Approval → Text → Option Text → Registry → Result (Unit {0}) CsBoardError × Registry
  consume_for handle a id none r = (err policy.signed_out, r)
  consume_for handle a id (some []) r = (err policy.signed_out, r)
  consume_for handle a id (some (c ∷ s)) r =
      if not ((c ∷ s) === a.expected_steam_id)
      then (err policy.other_account, r)
      else (ok tt, set_approval handle (record a { remaining = without id a.remaining }) r)

  unfoldable pub consume_found :
      ℕ
      → Option Approval
      → Text
      → Option Text
      → ℕ
      → Registry
      → Result (Unit {0}) CsBoardError × Registry
  consume_found handle none id current now r = (err policy.expired, r)
  consume_found handle (some a) id current now r =
      if ltb a.expires_at now || not (has id a.remaining)
      then (err policy.expired, r)
      else consume_for handle a id current r

  -- consumeSellAuthorization and consumeListingRemovalAuthorization
  unfoldable pub consume :
      ℕ → Text → Option Text → ℕ → Registry → Result (Unit {0}) CsBoardError × Registry
  consume handle id current now r = consume_found handle (r.approval handle) id current now r
