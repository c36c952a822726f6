-- ===== src/Market/Batch.antt =====
-- shared/market-actions.ts: the state of a batch of sales, and which answers end the batch.
pub mod Counts
pub mod Stops
use csboard_extension.Prelude.{
  ℕ, suc, ◌+◌, Bool, true, false, not, ◌&&◌, ◌||◌, Option, none, some, List, [], ◌∷◌, leb, ◌==◌,
  if◌then◌else◌,
}
use csboard_extension.Prelude.Int.{ℤ, pos_part}
use csboard_extension.Prelude.Text.{Text, codes, ◌===◌}
use csboard_extension.Shared.Error.{
  CsBoardError, ErrorCode, StopBatch, stop_authentication, stop_account_mismatch, stop_user_gesture,
  network_error, auth_expired, auth_required, rate_limited, api_error, validation_error,
  steam_dom_error, storage_error, unknown,
}

pub data ConfirmationStatus : Type 0 where
  listed_live pending_mobile_confirmation pending_email_confirmation pending_confirmation :
      ConfirmationStatus

-- The types that `requires_confirmation` can have.
pub data Flag : Type 0 where
  absent : Flag
  boolean : Bool → Flag
  number : ℕ → Flag
  text : Text → Flag

pub record ConfirmationFields : Type 0 where
  pub requires_confirmation : Flag
  pub needs_mobile_confirmation : Bool
  pub needs_email_confirmation : Bool

abbrev pub is_required : Flag → Bool
is_required absent = false
is_required (boolean b) = b
is_required (number n) = n == 1
is_required (text s) = s === codes "1"

-- A field that is absent is as one that is `false`.
unfoldable pub classify_sell_confirmation : ConfirmationFields → ConfirmationStatus
classify_sell_confirmation fields =
    if fields.needs_mobile_confirmation
    then pending_mobile_confirmation
    else (if fields.needs_email_confirmation
        then pending_email_confirmation
        else (if is_required fields.requires_confirmation
            then pending_confirmation
            else listed_live))

pub data StopReason : Type 0 where
  by_rate_limit by_authentication by_account_mismatch by_price_drift by_user by_user_gesture :
      StopReason

pub data Phase : Type 0 where
  idle running stopped complete : Phase

pub record BatchState : Type 0 where
  pub phase : Phase
  pub total : ℕ
  pub processed : ℕ
  pub listed_live_count : ℕ
  pub pending_mobile : ℕ
  pub pending_email : ℕ
  pub pending_other : ℕ
  pub failed_count : ℕ
  pub stop_reason : Option StopReason

pub data BatchEvent : Type 0 where
  start : ℤ → BatchEvent
  listed : ConfirmationStatus → BatchEvent
  failed : BatchEvent
  stop : StopReason → BatchEvent
  finish : BatchEvent

abbrev pub initial_batch_state : BatchState
initial_batch_state = record {
  phase = idle;
  total = 0;
  processed = 0;
  listed_live_count = 0;
  pending_mobile = 0;
  pending_email = 0;
  pending_other = 0;
  failed_count = 0;
  stop_reason = none;
}

-- `event.status === status`
abbrev pub is_live : ConfirmationStatus → Bool
is_live listed_live = true
is_live _ = false

abbrev pub is_mobile : ConfirmationStatus → Bool
is_mobile pending_mobile_confirmation = true
is_mobile _ = false

abbrev pub is_email : ConfirmationStatus → Bool
is_email pending_email_confirmation = true
is_email _ = false

abbrev pub is_other : ConfirmationStatus → Bool
is_other pending_confirmation = true
is_other _ = false

abbrev one_if : Bool → ℕ
one_if b = if b then 1 else 0

unfoldable pub reduce_batch_sell_state : BatchState → BatchEvent → BatchState
reduce_batch_sell_state s (start total) = record initial_batch_state {
  phase = running;
  total = pos_part total;
}
reduce_batch_sell_state s (listed status) = record s {
  processed = s.processed + 1;
  listed_live_count = s.listed_live_count + one_if (is_live status);
  pending_mobile = s.pending_mobile + one_if (is_mobile status);
  pending_email = s.pending_email + one_if (is_email status);
  pending_other = s.pending_other + one_if (is_other status);
}
reduce_batch_sell_state s failed = record s {
  processed = s.processed + 1;
  failed_count = s.failed_count + 1;
}
reduce_batch_sell_state s (stop reason) = record s { phase = stopped; stop_reason = some reason }
reduce_batch_sell_state s finish = record s { phase = complete }

unfoldable pub reduce_all : BatchState → List BatchEvent → BatchState
reduce_all s [] = s
reduce_all s (event ∷ events) = reduce_all (reduce_batch_sell_state s event) events

abbrev reason_of_code : ErrorCode → Option StopReason
reason_of_code rate_limited = some by_rate_limit
reason_of_code auth_required = some by_authentication
reason_of_code auth_expired = some by_authentication
reason_of_code _ = none

abbrev reason_of : Option StopBatch → ErrorCode → Option StopReason
reason_of (some stop_account_mismatch) code = some by_account_mismatch
reason_of (some stop_user_gesture) code = some by_user_gesture
reason_of (some stop_authentication) code = reason_of_code code
reason_of none code = reason_of_code code

unfoldable pub batch_stop_reason_for_error : CsBoardError → Option StopReason
batch_stop_reason_for_error error = reason_of error.stop_batch error.code

unfoldable pub classify_market_write_http_status : ℕ → Option ErrorCode
classify_market_write_http_status status =
    if status == 401 || status == 403
    then some auth_expired
    else (if status == 429
        then some rate_limited
        else (if leb 500 status
            then some network_error
            else (if leb 400 status then some api_error else none)))
