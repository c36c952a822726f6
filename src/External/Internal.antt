-- ===== src/External/Internal.antt =====
-- background/external-router.ts: `dispatchInternalGatewayMessage`, the messages of the extension's own
-- pages. The extension's id and root are the browser's, and parameters. A handler gives some value, or
-- rejects.
use csboard_extension.Prelude.{
  Bool, false, not, ◌&&◌, Option, none, some, List, [], ◌∷◌, ◌==◌, length, if◌then◌else◌,
}
use csboard_extension.Prelude.Int.{pos}
use csboard_extension.Prelude.Text.{Text, codes, ◌===◌, starts_with}
use csboard_extension.Gateway.Identity.{assert_pairing_code}
use csboard_extension.Gateway.Payload.{Js, str, obj, Fields}
use csboard_extension.Client.Body.{object_keys, lookup, is_text, is_integer}
use csboard_extension.External.Messages.{has_sorted_keys, passes}

pub data GatewayMessage : Type 0 where
  pair_device : Text → GatewayMessage
  unpair_device run_manual_sync get_portfolio_sync_status : GatewayMessage

pub data InternalAnswer (R : Type 0) : Type 0 where
  handled : R → InternalAnswer R
  not_authorized unsupported_message operation_failed : InternalAnswer R

pub record Sender : Type 0 where
  pub id : Option Text
  pub url : Option Text

abbrev is_own_id : Text → Option Text → Bool
is_own_id own none = false
is_own_id own (some id) = id === own

abbrev is_below : Text → Option Text → Bool
is_below root none = false
is_below root (some []) = false
is_below root (some url) = starts_with root url

unfoldable pub is_internal_extension_page : (own_id root : Text) → Sender → Bool
unfolding starts_with
is_internal_extension_page own_id root sender =
    is_own_id own_id sender.id && is_below root sender.url

-- The two keys of a message without data.
abbrev bare : GatewayMessage → Fields → Option GatewayMessage
bare message fields =
    if has_sorted_keys fields (codes "type,version")
      && is_integer (pos 1) (lookup (codes "version") fields)
    then some message
    else none

abbrev code_message : Js → Option GatewayMessage
code_message (str code) = some (pair_device code)
code_message _ = none

abbrev code_of : Js → Option GatewayMessage
code_of (obj data_) =
    if length (object_keys data_) == 1 then code_message (lookup (codes "code") data_) else none
code_of _ = none

abbrev pair_message : Fields → Option GatewayMessage
pair_message fields =
    if has_sorted_keys fields (codes "data,type,version")
      && is_integer (pos 1) (lookup (codes "version") fields)
    then code_of (lookup (codes "data") fields)
    else none

abbrev typed_message : Js → Fields → Option GatewayMessage
typed_message type fields =
    if is_text (codes "UNPAIR_DEVICE") type
    then bare unpair_device fields
    else if is_text (codes "RUN_MANUAL_SYNC") type
    then bare run_manual_sync fields
    else if is_text (codes "GET_PORTFOLIO_SYNC_STATUS") type
    then bare get_portfolio_sync_status fields
    else if is_text (codes "PAIR_DEVICE") type
    then pair_message fields
    else none

unfoldable pub parse_internal_gateway_message : Js → Option GatewayMessage
parse_internal_gateway_message (obj fields) = typed_message (lookup (codes "type") fields) fields
parse_internal_gateway_message _ = none

module _ {R : Type 0} (own_id root : Text) (handle : GatewayMessage → Option R) where
  abbrev settled : Option R → InternalAnswer R
  settled none = operation_failed
  settled (some result) = handled result

  -- The code of a pairing is checked before its handler is called.
  abbrev call_handler : GatewayMessage → List GatewayMessage × InternalAnswer R
  call_handler (pair_device code) =
      if passes (assert_pairing_code code)
      then (pair_device code ∷ [], settled (handle (pair_device code)))
      else ([], operation_failed)
  call_handler message = (message ∷ [], settled (handle message))

  abbrev dispatch_parsed : Option GatewayMessage → List GatewayMessage × InternalAnswer R
  dispatch_parsed none = ([], unsupported_message)
  dispatch_parsed (some message) = call_handler message

  -- The calls of handlers, and the answer.
  unfoldable pub dispatch_internal_gateway_message :
      Js → Sender → List GatewayMessage × InternalAnswer R
  dispatch_internal_gateway_message message sender =
      if not (is_internal_extension_page own_id root sender)
      then ([], not_authorized)
      else dispatch_parsed (parse_internal_gateway_message message)
