-- ===== src/Gateway/Envelope/Facts.antt =====
-- background/gateway-crypto.ts: what `assertGatewayEncryptedEnvelope` establishes of an envelope.
use csboard_extension.Prelude.{◌≡◌, ◌≤◌, true, false, Option, some, none, arith, ltb}
use csboard_extension.Prelude.Int.{ℤ, pos, ◌≤ℤ◌, ◌<ℤ◌, ◌-ℤ◌}
use csboard_extension.Prelude.Text.{===_iff}
use csboard_extension.Shared.Result.{ok, throw_if-eq-ok, AllPass, in_order-AllPass}
use csboard_extension.Gateway.Payload.Contents.{IsSafe}
use csboard_extension.Gateway.Payload.Complete.{assert-IsSafe_iff}
use csboard_extension.Gateway.Payload.Size.{json_bytes}
use csboard_extension.Gateway.Message.{
  ProtectedMetadata, EncryptedEnvelope, protected_js, envelope_js, portfolio_sync,
  max_gateway_ttl_seconds, max_gateway_plaintext_bytes, max_gateway_chunks_per_run,
  max_gateway_serialized_body_bytes,
}
use csboard_extension.Gateway.Envelope.{
  assert_limits, assert_sync_binding, envelope_checks, assert_gateway_encrypted_envelope,
  is_sync_position,
}

assert_limits_facts :
    (p : ProtectedMetadata)
    → assert_limits p ≡ ok tt
    → (p.issued_at <ℤ p.expires_at)
      × (p.expires_at -ℤ p.issued_at ≤ℤ pos max_gateway_ttl_seconds)
      × (pos 0 ≤ℤ p.plaintext_bytes)
      × (p.plaintext_bytes ≤ℤ pos max_gateway_plaintext_bytes)
unfolding assert_limits
assert_limits_facts p h = ground arith

-- A chunk's place among those of its run.
abbrev pub IsSyncPosition : Option ℤ → Option ℤ → Type 0
IsSyncPosition (some index) (some count) =
    (pos 0 ≤ℤ index) × (index <ℤ count) × (count ≤ℤ pos max_gateway_chunks_per_run)
IsSyncPosition _ _ = ⊥

is_sync_position_facts :
    (index count : Option ℤ) → is_sync_position index count ≡ true → IsSyncPosition index count
unfolding is_sync_position
is_sync_position_facts (some index) (some count) h = ground arith
is_sync_position_facts (some index) none h = cc
is_sync_position_facts none count h = cc

assert_sync_binding_facts :
    (p : ProtectedMetadata)
    → assert_sync_binding p ≡ ok tt
    → p.operation ≡ portfolio_sync
    → IsSyncPosition p.chunk_index p.chunk_count
unfolding assert_sync_binding
assert_sync_binding_facts p h e =
    is_sync_position_facts _ _ (ground (arith, ===_iff p.operation portfolio_sync))

pub record IsWellFormed (e : EncryptedEnvelope) : Type 0 where
  pub safe : IsSafe 0 (protected_js e.protected)
  pub lives : e.protected.issued_at <ℤ e.protected.expires_at
  pub briefly : e.protected.expires_at -ℤ e.protected.issued_at ≤ℤ pos max_gateway_ttl_seconds
  pub plaintext : e.protected.plaintext_bytes ≤ℤ pos max_gateway_plaintext_bytes
  pub position :
      e.protected.operation ≡ portfolio_sync
      → IsSyncPosition e.protected.chunk_index e.protected.chunk_count
  pub body : json_bytes (envelope_js e) ≤ max_gateway_serialized_body_bytes

AllPass-IsWellFormed : (e : EncryptedEnvelope) → AllPass (envelope_checks e) → IsWellFormed e
unfolding envelope_checks
AllPass-IsWellFormed e
      (
        safe,
        (
          _,
          (_, (_, (_, (_, (_, (_, (limits, (_, (_, (_, (_, (_, (_, (sync, (size, _))))))))))))))),
        ),
      ) =
    let facts = assert_limits_facts e.protected limits in
    record {
      safe = (assert-IsSafe_iff _).0 safe;
      lives = facts.0;
      briefly = facts.1;
      plaintext = facts.3;
      position = assert_sync_binding_facts e.protected sync;
      body = within (throw_if-eq-ok _ _ size);
    }
  where
    within :
        ltb max_gateway_serialized_body_bytes (json_bytes (envelope_js e)) ≡ false
        → json_bytes (envelope_js e) ≤ max_gateway_serialized_body_bytes
    within h = ground arith

-- An envelope that passes the check carries no secret in its clear part, is valid for at least one
-- second and at most five minutes, speaks of a plaintext of at most 192 KiB, names a chunk index
-- from 0 up to but not including a chunk count of at most 64 if it belongs to a portfolio sync, and
-- its JSON takes at most 320 KiB.
pub assert_gateway_encrypted_envelope_sound :
    (e : EncryptedEnvelope) → assert_gateway_encrypted_envelope e ≡ ok tt → IsWellFormed e
unfolding assert_gateway_encrypted_envelope
assert_gateway_encrypted_envelope_sound e h =
    AllPass-IsWellFormed e (in_order-AllPass (envelope_checks e) h)
