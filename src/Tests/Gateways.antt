-- ===== src/Tests/Gateways.antt =====
-- shared/gateway-dto.ts and background/gateway-crypto.ts on concrete values.
use csboard_extension.Prelude.{◌≡◌, ◌↔◌}
use csboard_extension.Prelude.Text.{codes}
use csboard_extension.Gateway.Payload.{Js, str, obj, end, field}
use csboard_extension.Gateway.Payload.Contents.{IsSafe}
use csboard_extension.Gateway.Payload.Complete.{assert-IsSafe_iff}
use csboard_extension.Gateway.Payload.{assert_safe_gateway_payload}
use csboard_extension.Shared.Result.{ok}
use csboard_extension.Gateway.Envelope.Facts.{IsWellFormed, assert_gateway_encrypted_envelope_sound}
use csboard_extension.Tests.Samples.{chunk, samples_pass}

abbrev market_name : Js
market_name = obj (field (codes "market_hash_name") (str (codes "AK-47 | Redline")) end)

assert-IsSafe_iff_example : (assert_safe_gateway_payload market_name ≡ ok tt) ↔ IsSafe 0 market_name
assert-IsSafe_iff_example = assert-IsSafe_iff market_name

assert_gateway_encrypted_envelope_sound_example : IsWellFormed chunk
assert_gateway_encrypted_envelope_sound_example =
    assert_gateway_encrypted_envelope_sound chunk samples_pass.1
