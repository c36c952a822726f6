-- ===== src/Tests/Externals.antt =====
-- background/external-router.ts: a page pairs the device while another page asks for the same.
use csboard_extension.Prelude.{◌≡◌, ℕ, refl, true, false, some, [], ◌∷◌}
use csboard_extension.Prelude.Int.{pos}
use csboard_extension.Prelude.Text.{Text, codes, ◌===◌, includes, is_run_of}
use csboard_extension.Prelude.Pattern.{test, word}
use csboard_extension.Prelude.Uuid.{matches}
use csboard_extension.Gateway.Identity.{assert_pairing_code}
use csboard_extension.Gateway.Payload.{Js, num, int, str, obj, end, field}
use csboard_extension.Gateway.Payload.Size.{json_bytes, fields_bytes, string_bytes, number_bytes}
use csboard_extension.Portfolio.Order.{compare_text, insert, sort}
use csboard_extension.Client.Body.{object_keys, lookup, is_text, is_integer}
use csboard_extension.External.Messages.{
  pair_and_enable_type, StatusResponse, has_sorted_keys, is_safe_text_id,
  is_exact_pair_and_enable_message, external_message_type, is_unsupported_version,
}
use csboard_extension.External.Dispatch.{
  Options, Call, pair, enable, sync, disable, Reply, rejected, resolved, Stage, pairing, begin,
  call_of, next, run, follow, route, request_id_of, dispatch_external_message,
}
use csboard_extension.External.Dispatch.Guarded.{
  IsAuthorized, IsClosed, IsPaired, dispatch_external_message-IsGuarded,
}
use csboard_extension.External.Listener.{
  State, should_track, listen, enter, start_dispatch, handler_settled, registered, is_done, Reaches,
  here, later, received, replied,
}
use csboard_extension.External.Listener.Exclusive.{IsSerial, Reaches-IsSerial}

abbrev folder : Text
folder = codes "https://csfolder.com"

abbrev options : Options
options = record {
  status_allowed_origins = codes "https://csboard.com" ∷ [];
  pairing_allowed_origins = folder ∷ [];
  extension_version = codes "1.2.3";
}

abbrev code : Text
code = codes "CSF-ABCD-2345-EFGH-6789"

abbrev pairing_message : Js
pairing_message = obj (
    field (codes "version") (num (int (pos 1))) (
      field (codes "type") (str pair_and_enable_type)
        (field (codes "requestId") (str (codes "r-1")) (field (codes "code") (str code) end))))

-- The sync cannot be started.
abbrev no_sync : Call → Reply
no_sync sync = rejected
no_sync call = resolved true

failed_calls :
    (dispatch_external_message options no_sync pairing_message (some folder)).0
    ≡ pair code ∷ enable ∷ sync ∷ disable ∷ []
unfolding dispatch_external_message follow route run next begin includes ◌===◌ json_bytes
    fields_bytes string_bytes number_bytes is_exact_pair_and_enable_message has_sorted_keys sort
    insert compare_text object_keys lookup is_text is_integer is_safe_text_id matches is_run_of
    assert_pairing_code test word external_message_type is_unsupported_version
failed_calls = refl

dispatch_external_message-IsGuarded_example :
    let (calls, response) =
      dispatch_external_message options no_sync pairing_message (some folder) in
    IsAuthorized options pairing_message (some folder) calls
    × IsClosed (request_id_of pairing_message) calls response
    × IsPaired no_sync calls
    × ((r : StatusResponse) × (response ≡ some r))
dispatch_external_message-IsGuarded_example =
    dispatch_external_message-IsGuarded options no_sync pairing_message (some folder)

abbrev first_page : State
first_page = (listen options pairing_message (some folder) registered).0

abbrev second_page : State
second_page = (listen options pairing_message (some folder) first_page).0

abbrev paired : State
paired = handler_settled 0 (pairing (codes "r-1") code) (resolved true) second_page

both_pages : Reaches options paired
unfolding listen should_track start_dispatch enter route begin call_of includes ◌===◌ json_bytes
    fields_bytes string_bytes number_bytes is_exact_pair_and_enable_message has_sorted_keys sort
    insert compare_text object_keys lookup is_text is_integer is_safe_text_id matches is_run_of
    assert_pairing_code test word external_message_type is_unsupported_version
both_pages =
    later
      (later (later here (received pairing_message (some folder)))
        (received pairing_message (some folder)))
      (replied 0 (pairing (codes "r-1") code) (resolved true) refl refl)

Reaches-IsSerial_example :
    IsSerial paired.calls
    × ((m n : ℕ) (a b : Stage)
        → paired.tasks m ≡ some a
        → is_done a ≡ false
        → paired.tasks n ≡ some b
        → is_done b ≡ false
        → m ≡ n)
Reaches-IsSerial_example = Reaches-IsSerial options paired both_pages
