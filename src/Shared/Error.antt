-- ===== src/Shared/Error.antt =====
-- CSBoardError of shared/types.ts. Of its context the model keeps `stopBatch`, which the code reads.
use Prim.Native.String.{String}
use csboard_extension.Prelude.{Bool, Option}

pub data ErrorCode : Type 0 where
  network_error auth_expired auth_required rate_limited api_error validation_error steam_dom_error
        storage_error unknown :
      ErrorCode

pub data StopBatch : Type 0 where
  stop_authentication stop_account_mismatch stop_user_gesture : StopBatch

pub record CsBoardError : Type 0 where
  pub message : String
  pub code : ErrorCode
  pub retryable : Bool
  pub stop_batch : Option StopBatch
