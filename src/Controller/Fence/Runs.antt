-- ===== src/Controller/Fence/Runs.antt =====
-- background/gateway-controller.ts: every step of `runSync` stays in its run.
use csboard_extension.Prelude.{
  ℕ, ◌≡◌, refl, Bool, true, false, Option, none, some, List, [], ◌∷◌, inl, inr, ◌==◌, ==_iff,
  if◌then◌else◌, Bool-cases,
}
use csboard_extension.Prelude.Text.{Text, ◌===◌}
use csboard_extension.Shared.Result.{ok, err}
use csboard_extension.Gateway.Identity.{is_steam_id_64}
use csboard_extension.Portfolio.Collector.Failure.{Failure, invalid_path, redact_portfolio_failure}
use csboard_extension.Controller.State.{
  DeviceRegistration, SyncState, idle, error, syncing, reading_sources, collecting, sealing,
  enqueuing, enqueued, sending, drained, SyncStage, draining, hashing, creating_provider,
  reading_status, State, Settled,
}
use csboard_extension.Controller.Sync.{
  with_stage, sync_cancelled, sync_failed, in_epoch, on_settled, with_owner, not_paired,
  with_registration, next_chunk, drain_send, drain_failure, after_drain, sync_succeeded,
}
use csboard_extension.Controller.Steps.{
  Runs, SyncStep, registration_read, provider_created, sources_read, chunks_collected, key_hashed,
  chunk_sealed, envelope_stored, envelope_refused, envelope_enqueued, drain_turn, drain_answered,
  drain_written, drain_refused, drain_settled, status_read,
}
use csboard_extension.Controller.Fence.{IsRunStep}

module _ {C E O : Type 0} (e : ℕ) (s : State C E O) where
  -- A run that goes on, and one that ends.
  goes_on :
      (state : SyncState) (outbox : O) (stage : SyncStage C E)
      → IsRunStep e s (with_stage e stage (record s { sync_state = state; outbox = outbox }))
  goes_on state outbox stage = record {
    same_epoch = refl;
    same_pair = refl;
    same_unpair = refl;
    same_registration = refl;
    same_identity = refl;
    run = inr (stage, refl);
    sends = inl refl;
  }

  ends :
      (state : SyncState) (code : Option Text)
      → IsRunStep e s
          (record s { sync_state = state; last_failure_code = code; sync_in_flight = none })
  ends state code = record {
    same_epoch = refl;
    same_pair = refl;
    same_unpair = refl;
    same_registration = refl;
    same_identity = refl;
    run = inl refl;
    sends = inl refl;
  }

  with_stage-IsRunStep : (stage : SyncStage C E) → IsRunStep e s (with_stage e stage s)
  with_stage-IsRunStep stage = goes_on s.sync_state s.outbox stage

  sync_cancelled-IsRunStep : IsRunStep e s (sync_cancelled s)
  unfolding sync_cancelled
  sync_cancelled-IsRunStep = ends idle s.last_failure_code

  sync_failed-IsRunStep : (failure : Failure) → IsRunStep e s (sync_failed failure s)
  unfolding sync_failed
  sync_failed-IsRunStep failure = ends error (some (redact_portfolio_failure failure))

  sync_succeeded-IsRunStep : IsRunStep e s (sync_succeeded s)
  unfolding sync_succeeded
  sync_succeeded-IsRunStep = ends idle none

  if_IsRunStep :
      (test : Bool) (x y : State C E O)
      → IsRunStep e s x
      → IsRunStep e s y
      → IsRunStep e s (if test then x else y)
  if_IsRunStep true x y hx hy = hx
  if_IsRunStep false x y hx hy = hy

  in_epoch-IsRunStep : (t : State C E O) → IsRunStep e s t → IsRunStep e s (in_epoch e t s)
  unfolding in_epoch
  in_epoch-IsRunStep t h =
      if_IsRunStep (e == s.sync_epoch) t (sync_cancelled s) h sync_cancelled-IsRunStep

  on_settled-IsRunStep :
      {T : Type 0} (next : T → State C E O → State C E O)
      → ((value : T) → IsRunStep e s (next value s))
      → (reply : Settled T) → IsRunStep e s (on_settled e next reply s)
  unfolding on_settled
  on_settled-IsRunStep next h (ok value) = in_epoch-IsRunStep (next value s) (h value)
  on_settled-IsRunStep next h (err failure) = sync_failed-IsRunStep failure

  next_chunk-IsRunStep :
      (r : DeviceRegistration) (chunks : List C) → IsRunStep e s (next_chunk e r chunks s)
  unfolding next_chunk
  next_chunk-IsRunStep r [] =
      in_epoch-IsRunStep (with_stage e draining s) (with_stage-IsRunStep draining)
  next_chunk-IsRunStep r (chunk ∷ chunks) = with_stage-IsRunStep (hashing r chunk chunks)

  with_registration-IsRunStep :
      (origin : Text) (registration : Option DeviceRegistration)
      → IsRunStep e s (with_registration e origin registration s)
  with_registration-IsRunStep origin none = sync_failed-IsRunStep not_paired
  with_registration-IsRunStep origin (some r) =
      if_IsRunStep (r.gateway_origin === origin) (with_owner e r s) (sync_failed not_paired s)
        (if_IsRunStep (is_steam_id_64 r.steam_id) _ _
          (goes_on syncing s.outbox (creating_provider r))
          (sync_failed-IsRunStep (invalid_path "$.steamId")))
        (sync_failed-IsRunStep not_paired)

  drain_send-IsRunStep :
      (envelope : E)
      → s.sync_in_flight ≡ some (record { epoch = e; stage = draining })
      → IsRunStep e s (drain_send e envelope s)
  unfolding drain_send
  drain_send-IsRunStep envelope at = elim (Bool-cases (e == s.sync_epoch)) [
    | inl h ↦ rw h (record {
      same_epoch = refl;
      same_pair = refl;
      same_unpair = refl;
      same_registration = refl;
      same_identity = refl;
      run = inr (sending, refl);
      sends = inr ((==_iff e s.sync_epoch).0 h);
    })
    | inr h ↦ rw h (record {
      same_epoch = refl;
      same_pair = refl;
      same_unpair = refl;
      same_registration = refl;
      same_identity = refl;
      run = inr (draining, at);
      sends = inl refl;
    })
  ]

  drained-IsRunStep :
      (failure : Option Failure)
      → IsRunStep e s
          (elim failure [ none ↦ with_stage e reading_status s | some f ↦ sync_failed f s ])
  drained-IsRunStep none = with_stage-IsRunStep reading_status
  drained-IsRunStep (some f) = sync_failed-IsRunStep f

pub SyncStep-IsRunStep :
    {C E O : Type 0} (origin : Text) (empty : O) (s : State C E O) (e : ℕ) (stage : SyncStage C E)
    (t : State C E O)
    → Runs origin empty s e stage
    → SyncStep origin empty s e stage t
    → IsRunStep e s t
SyncStep-IsRunStep origin empty s e _ _ at (registration_read reply) =
    on_settled-IsRunStep e s (with_registration e origin) (with_registration-IsRunStep e s origin)
      reply
SyncStep-IsRunStep origin empty s e _ _ at (provider_created r reply) =
    on_settled-IsRunStep e s _ (λ _. with_stage-IsRunStep e s (reading_sources r)) reply
SyncStep-IsRunStep origin empty s e _ _ at (sources_read r reply) =
    on_settled-IsRunStep e s _ (λ _. with_stage-IsRunStep e s (collecting r)) reply
SyncStep-IsRunStep origin empty s e _ _ at (chunks_collected r reply) =
    on_settled-IsRunStep e s (next_chunk e r) (next_chunk-IsRunStep e s r) reply
SyncStep-IsRunStep origin empty s e _ _ at (key_hashed r chunk chunks reply) =
    on_settled-IsRunStep e s _ (λ _. with_stage-IsRunStep e s (sealing r chunk chunks)) reply
SyncStep-IsRunStep origin empty s e _ _ at (chunk_sealed r chunk chunks reply) =
    on_settled-IsRunStep e s _ (λ x. with_stage-IsRunStep e s (enqueuing r x chunks)) reply
SyncStep-IsRunStep origin empty s e _ _ at (envelope_stored r envelope chunks stored) =
    goes_on e s s.sync_state stored (enqueued r chunks)
SyncStep-IsRunStep origin empty s e _ _ at (envelope_refused r envelope chunks failure) =
    sync_failed-IsRunStep e s failure
SyncStep-IsRunStep origin empty s e _ _ at (envelope_enqueued r chunks) =
    in_epoch-IsRunStep e s (next_chunk e r chunks s) (next_chunk-IsRunStep e s r chunks)
SyncStep-IsRunStep origin empty s e _ _ at (drain_turn envelope) =
    drain_send-IsRunStep e s envelope at
SyncStep-IsRunStep origin empty s e _ _ at drain_answered = with_stage-IsRunStep e s draining
SyncStep-IsRunStep origin empty s e _ _ at (drain_written remaining summary) =
    goes_on e s s.sync_state remaining (drained summary)
SyncStep-IsRunStep origin empty s e _ _ at (drain_refused failure) =
    sync_failed-IsRunStep e s failure
SyncStep-IsRunStep origin empty s e _ _ at (drain_settled summary) =
    in_epoch-IsRunStep e s (after_drain e summary s) (drained-IsRunStep e s (drain_failure summary))
SyncStep-IsRunStep origin empty s e _ _ at (status_read reply) =
    on_settled-IsRunStep e s _ (λ _. sync_succeeded-IsRunStep e s) reply
