-- ===== src/Gateway/Error.antt =====
-- GatewayPayloadError of shared/gateway-dto.ts. Of its safe context the model keeps `reason`; paths
-- and counts only serve the display.
use Prim.Native.String.{String}
use csboard_extension.Prelude.{Bool, not, Option, none, some}
use csboard_extension.Shared.Result.{Result, throw_if}

pub data ErrorCode : Type 0 where
  invalid_payload forbidden_secret payload_too_large invalid_key gateway_unconfigured : ErrorCode

pub record GatewayPayloadError : Type 0 where
  pub code : ErrorCode
  pub reason : Option String

abbrev pub Checked : Type 0 → Type 0
Checked T = Result T GatewayPayloadError

abbrev pub invalid : String → GatewayPayloadError
invalid reason = record { code = invalid_payload; reason = some reason }

-- The errors that name a path only.
abbrev pub invalid_at_path : GatewayPayloadError
invalid_at_path = record { code = invalid_payload; reason = none }

abbrev pub secret_at_path : GatewayPayloadError
secret_at_path = record { code = forbidden_secret; reason = none }

abbrev pub too_large : String → GatewayPayloadError
too_large reason = record { code = payload_too_large; reason = some reason }

-- `if (!test) throw error;`
abbrev pub require : Bool → GatewayPayloadError → Checked (Unit {0})
require test error = throw_if (not test) error
