-- ===== src/External/Dispatch.antt =====
-- background/external-router.ts: `dispatchExternalStatus` and `dispatchExternalMessage`. An activation
-- is cut at the handlers that it waits for; each settles, `isPaired` with its answer.
pub mod Guarded
use csboard_extension.Prelude.{
  ℕ, zero, suc, Bool, true, false, not, ◌&&◌, ◌||◌, Option, none, some, List, [], ◌∷◌, ◌++◌, ltb,
  if◌then◌else◌,
}
use csboard_extension.Prelude.Text.{Text, codes, ◌===◌, includes}
use csboard_extension.Gateway.Payload.{Js, str, obj}
use csboard_extension.Gateway.Payload.Size.{json_bytes}
use csboard_extension.Client.Body.{lookup}
use csboard_extension.External.Messages.{
  status_type, pair_and_enable_type, reactivate_type, max_request_bytes, StatusErrorCode,
  unauthorized_origin, invalid_message, unsupported_version, not_paired, pairing_failed,
  activation_failed, sync_trigger_failed, StatusResponse, installed, activated, refused,
  is_exact_status_message, is_exact_pair_and_enable_message, is_exact_reactivate_message, text_of,
  safe_external_request_id, external_message_type, is_unsupported_version,
}

pub record Options : Type 0 where
  pub status_allowed_origins : List Text
  pub pairing_allowed_origins : List Text
  pub extension_version : Text

-- `senderOrigin !== null && allowed.has(senderOrigin)`, and `senderOrigin && allowed.has(senderOrigin)`.
abbrev pub has_origin : List Text → Option Text → Bool
has_origin allowed none = false
has_origin allowed (some origin) = includes allowed origin

abbrev pub is_from : List Text → Option Text → Bool
is_from allowed none = false
is_from allowed (some []) = false
is_from allowed (some (c ∷ origin)) = has_origin allowed (some (c ∷ origin))

-- A field that an exact message has.
abbrev pub field_text : Text → Js → Text
field_text key (obj fields) = or_empty (text_of (lookup key fields))
  where
    or_empty : Option Text → Text
    or_empty none = []
    or_empty (some s) = s
field_text key _ = []

abbrev pub request_id_of : Js → Text
request_id_of message = field_text (codes "requestId") message

-- What both dispatchers check ahead of the shape of a message.
abbrev pub is_too_large : Js → Bool
is_too_large message = ltb max_request_bytes (json_bytes message)

unfoldable pub dispatch_external_status : Js → Option Text → List Text → Text → StatusResponse
dispatch_external_status message origin allowed version =
    let id = safe_external_request_id message in
    if not (is_from allowed origin)
    then refused id unauthorized_origin
    else if is_too_large message
    then refused id invalid_message
    else if is_unsupported_version message
    then refused id unsupported_version
    else if not (is_exact_status_message message)
    then refused id invalid_message
    else installed (request_id_of message) version

pub data Activation : Type 0 where
  fresh_pair : (request_id code : Text) → Activation
  reactivation : (request_id : Text) → Activation

-- What becomes of a message before any handler is called.
pub data Route : Type 0 where
  answer : StatusResponse → Route
  activate : Activation → Route

abbrev pub is_type : Text → Option Text → Bool
is_type type none = false
is_type type (some t) = t === type

-- The origins that may send a message of this type.
abbrev pub allowed_for : Options → Option Text → List Text
allowed_for options type =
    if is_type status_type type
    then options.status_allowed_origins
    else if is_type pair_and_enable_type type || is_type reactivate_type type
    then options.pairing_allowed_origins
    else options.status_allowed_origins ++ options.pairing_allowed_origins

unfoldable pub route : Options → Js → Option Text → Route
unfolding dispatch_external_status
route options message origin =
    let id = safe_external_request_id message in
    let type = external_message_type message in
    if not (is_from (allowed_for options type) origin)
    then answer (refused id unauthorized_origin)
    else if is_too_large message
    then answer (refused id invalid_message)
    else if is_unsupported_version message
    then answer (refused id unsupported_version)
    else if is_type status_type type
    then answer (
        dispatch_external_status message origin options.status_allowed_origins
          options.extension_version)
    else if is_exact_pair_and_enable_message message
    then activate (fresh_pair (request_id_of message) (field_text (codes "code") message))
    else if is_exact_reactivate_message message
    then activate (reactivation (request_id_of message))
    else answer (refused id invalid_message)

-- The calls of the handlers, and how they settle.
pub data Call : Type 0 where
  pair : Text → Call
  ask_paired enable sync disable : Call

pub data Reply : Type 0 where
  rejected : Reply
  resolved : Bool → Reply

-- Where an activation waits.
pub data Stage : Type 0 where
  pairing : (request_id code : Text) → Stage
  asking enabling syncing : (request_id : Text) → Stage
  disabling : (request_id : Text) → StatusErrorCode → Stage
  done : StatusResponse → Stage

unfoldable pub begin : Activation → Stage
begin (fresh_pair id code) = pairing id code
begin (reactivation id) = asking id

-- The call that a stage waits for, made when it is entered.
unfoldable pub call_of : Stage → Option Call
call_of (pairing id code) = some (pair code)
call_of (asking id) = some ask_paired
call_of (enabling id) = some enable
call_of (syncing id) = some sync
call_of (disabling id code) = some disable
call_of (done response) = none

-- `isPaired` answers; of the other handlers it only matters whether they reject.
unfoldable pub next : Stage → Reply → Stage
next (pairing id code) (resolved _) = enabling id
next (pairing id code) rejected = done (refused (some id) pairing_failed)
next (asking id) (resolved true) = enabling id
next (asking id) (resolved false) = done (refused (some id) not_paired)
next (asking id) rejected = done (refused (some id) activation_failed)
next (enabling id) (resolved _) = syncing id
next (enabling id) rejected = disabling id activation_failed
next (syncing id) (resolved _) = done (activated id)
next (syncing id) rejected = disabling id sync_trigger_failed
next (disabling id code) _ = done (refused (some id) code)
next (done response) _ = done response

-- The calls of an activation and its answer, where each call settles as `replies` says. No handler
-- is called twice, and four steps reach the end.
unfoldable pub run : ℕ → (Call → Reply) → Stage → List Call × Option StatusResponse
unfolding call_of next
run fuel replies (done response) = ([], some response)
run zero replies stage = ([], none)
run (suc fuel) replies (pairing id code) =
    let (calls, response) = run fuel replies (next (pairing id code) (replies (pair code))) in
    (pair code ∷ calls, response)
run (suc fuel) replies (asking id) =
    let (calls, response) = run fuel replies (next (asking id) (replies ask_paired)) in
    (ask_paired ∷ calls, response)
run (suc fuel) replies (enabling id) =
    let (calls, response) = run fuel replies (next (enabling id) (replies enable)) in
    (enable ∷ calls, response)
run (suc fuel) replies (syncing id) =
    let (calls, response) = run fuel replies (next (syncing id) (replies sync)) in
    (sync ∷ calls, response)
run (suc fuel) replies (disabling id code) =
    let (calls, response) = run fuel replies (next (disabling id code) (replies disable)) in
    (disable ∷ calls, response)

unfoldable pub follow : Route → (Call → Reply) → List Call × Option StatusResponse
unfolding run begin
follow (answer response) replies = ([], some response)
follow (activate activation) replies = run 4 replies (begin activation)

unfoldable pub dispatch_external_message :
    Options → (Call → Reply) → Js → Option Text → List Call × Option StatusResponse
unfolding follow route
dispatch_external_message options replies message origin =
    follow (route options message origin) replies
