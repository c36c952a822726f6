-- ===== src/External/Messages.antt =====
-- background/external-router.ts: the shapes of the messages from web pages, their senders and the
-- answers. A message is JSON, so that `JSON.stringify` does not throw. The URL parser is the
-- browser's, and a parameter.
use csboard_extension.Prelude.{
  ℕ, Bool, true, false, not, ◌&&◌, ◌||◌, Option, none, some, List, [], ◌∷◌, ◌++◌, any, ◌==◌,
  if◌then◌else◌,
}
use csboard_extension.Prelude.Int.{pos}
use csboard_extension.Prelude.Text.{Text, codes, ◌===◌, is_base64url, is_run_of}
use csboard_extension.Prelude.Uuid.{matches, uuid_classes}
use csboard_extension.Shared.Result.{ok, err}
use csboard_extension.Gateway.Error.{Checked}
use csboard_extension.Gateway.Identity.{assert_pairing_code}
use csboard_extension.Gateway.Payload.{Js, str, obj, Fields, end}
use csboard_extension.Portfolio.Order.{compare_text, sort}
use csboard_extension.Client.Body.{object_keys, lookup, is_text, is_integer}

abbrev pub status_type : Text
status_type = codes "GET_EXTENSION_STATUS"

abbrev pub pair_and_enable_type : Text
pair_and_enable_type = codes "PAIR_AND_ENABLE_PORTFOLIO_SYNC"

abbrev pub reactivate_type : Text
reactivate_type = codes "REACTIVATE_PORTFOLIO_SYNC"

abbrev pub max_request_bytes : ℕ
max_request_bytes = 2048

pub data StatusErrorCode : Type 0 where
  unauthorized_origin invalid_message unsupported_version action_in_progress not_paired
        pairing_failed activation_failed sync_trigger_failed :
      StatusErrorCode

-- An activation's answer always has both sources and says that a sync was triggered.
pub data StatusResponse : Type 0 where
  installed : (request_id extension_version : Text) → StatusResponse
  activated : (request_id : Text) → StatusResponse
  refused : (request_id : Option Text) → StatusErrorCode → StatusResponse

-- `keys.join(',')`
unfoldable pub join : List Text → Text
join [] = []
join (key ∷ []) = key
join (key ∷ next ∷ keys) = key ++ b',' ∷ join (next ∷ keys)

-- `Object.keys(record).sort().join(',') === keys`
unfoldable pub has_sorted_keys : Fields → Text → Bool
unfolding join
has_sorted_keys fields keys = join (sort compare_text (object_keys fields)) === keys

unfoldable pub is_safe_text_id : Text → Bool
is_safe_text_id s = matches (uuid_classes (λ c. c == b'4')) s || is_run_of is_base64url 1 64 s

abbrev pub is_safe_external_request_id : Js → Bool
is_safe_external_request_id (str s) = is_safe_text_id s
is_safe_external_request_id _ = false

abbrev pub has_header : Fields → Text → Text → Bool
has_header fields keys type =
    has_sorted_keys fields keys
    && is_integer (pos 1) (lookup (codes "version") fields)
    && is_text type (lookup (codes "type") fields)
    && is_safe_external_request_id (lookup (codes "requestId") fields)

unfoldable pub is_exact_reactivate_message : Js → Bool
is_exact_reactivate_message (obj fields) =
    has_header fields (codes "requestId,type,version") reactivate_type
is_exact_reactivate_message _ = false

abbrev is_empty_object : Js → Bool
is_empty_object (obj end) = true
is_empty_object _ = false

unfoldable pub is_exact_status_message : Js → Bool
is_exact_status_message (obj fields) =
    has_header fields (codes "payload,requestId,type,version") status_type
    && is_empty_object (lookup (codes "payload") fields)
is_exact_status_message _ = false

abbrev pub passes : Checked (Unit {0}) → Bool
passes (ok value) = true
passes (err error) = false

abbrev pub is_pairing_code : Js → Bool
is_pairing_code (str code) = passes (assert_pairing_code code)
is_pairing_code _ = false

unfoldable pub is_exact_pair_and_enable_message : Js → Bool
is_exact_pair_and_enable_message (obj fields) =
    has_header fields (codes "code,requestId,type,version") pair_and_enable_type
    && is_pairing_code (lookup (codes "code") fields)
is_exact_pair_and_enable_message _ = false

pub record ExternalUrl : Type 0 where
  pub protocol : Text
  pub origin : Text
  pub pathname : Text

abbrev pub https_origin : Option ExternalUrl → Option Text
https_origin none = none
https_origin (some url) = if url.protocol === codes "https:" then some url.origin else none

abbrev pub is_exact_origin : ExternalUrl → Text → Bool
is_exact_origin url value =
    url.protocol === codes "https:" && url.origin === value && url.pathname === codes "/"

-- A missing URL of the sender, and an empty one, give no origin.
module _ (parse_url : Text → Option ExternalUrl) where
  unfoldable pub get_sender_origin : Option Text → Option Text
  get_sender_origin none = none
  get_sender_origin (some []) = none
  get_sender_origin (some url) = https_origin (parse_url url)

abbrev pub text_of : Js → Option Text
text_of (str s) = some s
text_of _ = none

abbrev pub safe_id_of : Js → Option Text
safe_id_of (str s) = if is_safe_text_id s then some s else none
safe_id_of _ = none

unfoldable pub safe_external_request_id : Js → Option Text
safe_external_request_id (obj fields) = safe_id_of (lookup (codes "requestId") fields)
safe_external_request_id _ = none

unfoldable pub external_message_type : Js → Option Text
external_message_type (obj fields) = text_of (lookup (codes "type") fields)
external_message_type _ = none

-- `'version' in message && message.version !== 1`
unfoldable pub is_unsupported_version : Js → Bool
is_unsupported_version (obj fields) =
    any (λ key. key === codes "version") (object_keys fields)
    && not (is_integer (pos 1) (lookup (codes "version") fields))
is_unsupported_version _ = false
