-- ===== src/Portfolio/Collector/Failure.antt =====
-- background/portfolio-collector.ts: what a failed read means, and what is shown of it. A failure is
-- a GatewayPayloadError with its safe context, a GatewayClientError, or another Error.
use Prim.Native.String.{String}
use csboard_extension.Prelude.{
  Bool, true, false, not, ◌&&◌, ◌||◌, Option, none, some, [], ◌∷◌, ◌++◌, ℕ, zero, suc,
  if◌then◌else◌,
}
use csboard_extension.Prelude.Int.{ℤ, pos, is_safe_integer, leb_ℤ, eqb_ℤ}
use csboard_extension.Prelude.Text.{Text, codes, ◌===◌, starts_with}
use csboard_extension.Shared.Result.{Result, ok, err}
use csboard_extension.Gateway.Error.{
  ErrorCode, invalid_payload, forbidden_secret, payload_too_large, invalid_key,
  gateway_unconfigured, GatewayPayloadError,
}

pub record SafeContext : Type 0 where
  pub reason : Option Text
  pub status : Option ℤ
  pub path : Option Text

pub data ClientErrorCode : Type 0 where
  unconfigured discovery_rejected network_error device_revoked gateway_rejected : ClientErrorCode

pub data Failure : Type 0 where
  payload_failure : ErrorCode → SafeContext → Failure
  client_failure : ClientErrorCode → Failure
  plain_failure : (name message : Text) → Failure

abbrev pub payload_code_text : ErrorCode → Text
payload_code_text invalid_payload = codes "INVALID_PAYLOAD"
payload_code_text forbidden_secret = codes "FORBIDDEN_SECRET"
payload_code_text payload_too_large = codes "PAYLOAD_TOO_LARGE"
payload_code_text invalid_key = codes "INVALID_KEY"
payload_code_text gateway_unconfigured = codes "GATEWAY_UNCONFIGURED"

abbrev pub client_code_text : ClientErrorCode → Text
client_code_text unconfigured = codes "UNCONFIGURED"
client_code_text discovery_rejected = codes "DISCOVERY_REJECTED"
client_code_text network_error = codes "NETWORK_ERROR"
client_code_text device_revoked = codes "DEVICE_REVOKED"
client_code_text gateway_rejected = codes "GATEWAY_REJECTED"

-- `error.message`
unfoldable pub message : Failure → Text
message (payload_failure code context) = payload_code_text code
message (client_failure code) = client_code_text code
message (plain_failure name m) = m

abbrev pub has_reason : Text → Option Text → Bool
has_reason reason none = false
has_reason reason (some r) = r === reason

unfoldable pub steam_failure_status : Failure → Option ℤ
steam_failure_status (payload_failure code context) = elim (context.status) [
  | none ↦ none
  | some status ↦ elim (is_safe_integer status) [ true ↦ some status | false ↦ none ]
]
steam_failure_status (client_failure code) = none
steam_failure_status (plain_failure name m) = none

abbrev pub is_status : ℤ → Option ℤ → Bool
is_status n none = false
is_status n (some status) = eqb_ℤ status n

abbrev pub is_payload_session_failure : Failure → Bool
is_payload_session_failure (payload_failure code context) =
    has_reason (codes "steam-session-unavailable") context.reason
    || ((is_status (pos 401) (steam_failure_status (payload_failure code context))
          || is_status (pos 403) (steam_failure_status (payload_failure code context)))
        && has_reason (codes "steam-read-failed") context.reason)
is_payload_session_failure (client_failure code) = false
is_payload_session_failure (plain_failure name m) = false

unfoldable pub is_steam_session_failure : Failure → Bool
is_steam_session_failure error =
    message error === codes "STEAM_SESSION_REQUIRED" || is_payload_session_failure error

pub data SourceFailureCode : Type 0 where
  steam_session_required steam_account_mismatch steam_rate_limited : SourceFailureCode
  steam_unavailable steam_response_invalid steam_read_failed : SourceFailureCode

abbrev pub is_account_mismatch : Failure → Bool
is_account_mismatch (payload_failure code context) =
    has_reason (codes "steam-account-mismatch") context.reason
is_account_mismatch (client_failure code) = false
is_account_mismatch (plain_failure name m) = false

abbrev pub is_invalid_response : Failure → Bool
is_invalid_response (payload_failure invalid_payload context) =
    not (has_reason (codes "steam-read-failed") context.reason)
is_invalid_response _ = false

abbrev pub is_server_status : Option ℤ → Bool
is_server_status none = false
is_server_status (some status) = leb_ℤ (pos 500) status

unfoldable pub portfolio_source_failure_code : Failure → SourceFailureCode
portfolio_source_failure_code error =
    if message error === codes "STEAM_SESSION_REQUIRED" || is_steam_session_failure error
    then steam_session_required
    else if message error === codes "STEAM_ACCOUNT_MISMATCH" || is_account_mismatch error
    then steam_account_mismatch
    else if is_status (pos 429) (steam_failure_status error)
    then steam_rate_limited
    else if is_server_status (steam_failure_status error)
    then steam_unavailable
    else if is_invalid_response error
    then steam_response_invalid
    else steam_read_failed

abbrev pub detail_of : Option Text → Text
detail_of none = []
detail_of (some reason) = b':' ∷ reason

abbrev pub cut : ℕ → Text → Text
cut zero s = []
cut (suc n) [] = []
cut (suc n) (c ∷ s) = c ∷ cut n s

-- The last resort, from the class and the message of an error.
abbrev pub internal_error : Text → Text → Text
internal_error [] [] = codes "internal-error"
internal_error (c ∷ name) [] = codes "internal-error:" ++ cut 40 (c ∷ name)
internal_error name (c ∷ m) = codes "internal-error:" ++ cut 60 (c ∷ m)

abbrev pub with_detail : Option Text → Option Text → Text
with_detail (some []) path = codes "invalid-payload"
with_detail (some (c ∷ reason)) path = codes "invalid-payload:" ++ c ∷ reason
with_detail none none = codes "invalid-payload"
with_detail none (some []) = codes "invalid-payload"
with_detail none (some (c ∷ path)) = codes "invalid-payload:" ++ c ∷ path

abbrev pub is_steam_reason : Option Text → Bool
is_steam_reason none = false
is_steam_reason (some reason) = starts_with (codes "steam-") reason

abbrev pub redact_reason : SafeContext → Text → Text
redact_reason context other =
    if has_reason (codes "steam-session-unavailable") context.reason
    then codes "steam-session-required"
    else if is_steam_reason context.reason
    then codes "steam-read-failed"
    else other

unfoldable pub redact_portfolio_failure : Failure → Text
redact_portfolio_failure (payload_failure forbidden_secret context) =
    codes "unsafe-payload-rejected"
redact_portfolio_failure (payload_failure payload_too_large context) =
    codes "payload-too-large" ++ detail_of context.reason
redact_portfolio_failure (payload_failure gateway_unconfigured context) =
    codes "gateway-unconfigured"
redact_portfolio_failure (payload_failure invalid_payload context) =
    redact_reason context (with_detail context.reason context.path)
redact_portfolio_failure (payload_failure invalid_key context) =
    redact_reason context (internal_error (codes "GatewayPayloadError") (codes "INVALID_KEY"))
redact_portfolio_failure (client_failure network_error) = codes "gateway-unavailable"
redact_portfolio_failure (client_failure device_revoked) = codes "device-revoked"
redact_portfolio_failure (client_failure unconfigured) = codes "gateway-unconfigured"
redact_portfolio_failure (client_failure discovery_rejected) = codes "gateway-unconfigured"
redact_portfolio_failure (client_failure gateway_rejected) =
    internal_error (codes "GatewayClientError") (codes "GATEWAY_REJECTED")
redact_portfolio_failure (plain_failure name m) = internal_error name m

-- A field that is rejected by its path.
abbrev pub invalid_path : String → Failure
invalid_path path =
    payload_failure invalid_payload
      (record { reason = none; status = none; path = some (codes path) })

-- A check that throws. The model of the checks keeps the reason of an error, not the path.
abbrev pub thrown_reason : GatewayPayloadError → Option Text
thrown_reason error = elim (error.reason) [ none ↦ none | some reason ↦ some (codes reason) ]

abbrev pub to_failure : GatewayPayloadError → Failure
to_failure error =
    payload_failure error.code (record { reason = thrown_reason error; status = none; path = none })

abbrev pub checked_result {ℓ} : {T : Type ℓ} → Result T GatewayPayloadError → Result T Failure
checked_result (ok value) = ok value
checked_result (err error) = err (to_failure error)
