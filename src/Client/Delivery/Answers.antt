-- ===== src/Client/Delivery/Answers.antt =====
-- background/gateway-client.ts: what the answer of `sendEnvelope` says of the gateway's response.
use mathlib.Core.Path.{subst}
use csboard_extension.Prelude.{
  zero, suc, ◌*◌, ◌≤◌, ◌≡◌, refl, ap, Bool, true, false, ◌⊎◌, inl, inr, Option, none, some, arith,
  if-cases,
}
use csboard_extension.Prelude.Int.{ℤ, pos, negsuc, leb_ℤ}
use csboard_extension.Prelude.Text.{Text, codes, ===_iff}
use csboard_extension.Shared.Millis.{
  Millis, IsPast, IsUpTo, whole_ms, decimal_ms, decimal_ms-IsPast,
}
use csboard_extension.Shared.Result.{ok, err}
use csboard_extension.Gateway.Error.{Checked}
use csboard_extension.Gateway.Payload.{Js, str, num, int, Fields, Number, fraction, non_finite}
use csboard_extension.Gateway.Message.{EncryptedEnvelope, portfolio_sync}
use csboard_extension.Outbox.Records.{DeliveryFailureCode}
use csboard_extension.Outbox.Drain.{SenderResult}
use csboard_extension.Client.Body.{
  lookup, is_optional_text, is_optional_integer, is_text_sound, is_integer_sound,
}
use csboard_extension.Client.Delivery.{
  max_response_body_bytes, Response, bounded_object, is_sync_ack, is_successful_envelope_ack,
  acknowledges, accepted_answer, at_most_half_an_hour, retry_after_ms_of, refused_answer, answer_of,
  checks_before_send, send_checked, send_envelope,
}

-- The body speaks of the request and of the chunk of the envelope.
pub record IsBound (envelope : EncryptedEnvelope) (body : Fields) : Type 0 where
  pub request : lookup (codes "requestId") body ≡ str envelope.protected.request_id
  pub run :
      (run : Text)
      → envelope.protected.sync_run_id ≡ some run
      → lookup (codes "syncRunId") body ≡ str run
  pub index :
      (index : ℤ)
      → envelope.protected.chunk_index ≡ some index
      → lookup (codes "chunkIndex") body ≡ num (int index)

is_optional_text_sound :
    (o : Option Text) (text : Text) (value : Js)
    → o ≡ some text
    → is_optional_text o value ≡ true
    → value ≡ str text
unfolding is_optional_text
is_optional_text_sound none text value e h = cc
is_optional_text_sound (some t) text value e h = is_text_sound text value (ground arith)

is_optional_integer_sound :
    (o : Option ℤ) (n : ℤ) (value : Js)
    → o ≡ some n
    → is_optional_integer o value ≡ true
    → value ≡ num (int n)
unfolding is_optional_integer
is_optional_integer_sound none n value e h = cc
is_optional_integer_sound (some m) n value e h = is_integer_sound n value (ground arith)

module _ (is_date : Text → Bool) (envelope : EncryptedEnvelope) where
  is_sync_ack-IsBound :
      (body : Fields) → is_sync_ack is_date envelope body ≡ true → IsBound envelope body
  unfolding is_sync_ack
  is_sync_ack-IsBound body h = record {
    request =
        is_text_sound envelope.protected.request_id (lookup (codes "requestId") body)
          (ground arith);
    run = λ run e.
        is_optional_text_sound envelope.protected.sync_run_id run (lookup (codes "syncRunId") body)
          e (ground arith);
    index = λ index e.
        is_optional_integer_sound envelope.protected.chunk_index index
          (lookup (codes "chunkIndex") body) e (ground arith);
  }

  -- An acknowledgement in a response of 2xx, which for a chunk names its request and its place.
  pub record IsAcknowledged (response : Response) (body : Fields) : Type 0 where
    pub ok_status : response.ok_status ≡ true
    pub read : bounded_object max_response_body_bytes response ≡ some body
    pub ack : is_successful_envelope_ack is_date envelope body ≡ true
    pub bound : envelope.protected.operation ≡ portfolio_sync → IsBound envelope body

  -- Accepted where the response acknowledges the envelope; to be retried where there was no response,
  -- or one of status 429 or from 500 on; with a reason where it is not accepted; and with a wait of
  -- more than nothing and at most half an hour.
  pub record IsAnswer (response : Option Response) (r : SenderResult) : Type 0 where
    pub accepted :
        r.accepted ≡ true
        → (res : Response) × (body : Fields) × (response ≡ some res) × IsAcknowledged res body
    pub retryable :
        r.retryable ≡ true
        → (response ≡ none)
          ⊎ ((res : Response) × (response ≡ some res)
              × (res.ok_status ≡ false)
              × ((res.status ≡ 429) ⊎ (500 ≤ res.status)))
    pub exclusive : r.accepted ≡ true → r.retryable ≡ false
    pub reason : r.accepted ≡ false → (code : DeliveryFailureCode) × (r.failure_code ≡ some code)
    pub wait :
        (ms : Millis) → r.retry_after_ms ≡ some ms → IsPast (pos 0) ms × IsUpTo (pos 1800000) ms

  ack-IsBound :
      (body : Fields)
      → is_successful_envelope_ack is_date envelope body ≡ true
      → envelope.protected.operation ≡ portfolio_sync
      → IsBound envelope body
  unfolding is_successful_envelope_ack
  ack-IsBound body h e =
      let same = (===_iff envelope.protected.operation portfolio_sync).1 e in
      is_sync_ack-IsBound body (ground arith)

  accepted_answer-IsAnswer :
      (response : Response) (body : Option Fields)
      → response.ok_status ≡ true
      → bounded_object max_response_body_bytes response ≡ body
      → (ack : Bool) → acknowledges is_date envelope body ≡ ack
      → IsAnswer (some response) (accepted_answer ack)
  accepted_answer-IsAnswer response (some body) good read true h = record {
    accepted = λ _. (
      response,
      body,
      refl,
      record { ok_status = good; read = read; ack = h; bound = ack-IsBound body h },
    );
    retryable = λ e. cc;
    exclusive = λ _. refl;
    reason = λ e. cc;
    wait = λ ms e. cc;
  }
  accepted_answer-IsAnswer response none good read true h = cc
  accepted_answer-IsAnswer response body good read false h = record {
    accepted = λ e. cc;
    retryable = λ e. cc;
    exclusive = λ _. refl;
    reason = λ _. (_, refl);
    wait = λ ms e. cc;
  }

  wait_bounded :
      (m ms : Millis)
      → IsPast (pos 0) m
      → some (at_most_half_an_hour m) ≡ some ms
      → IsPast (pos 0) ms × IsUpTo (pos 1800000) ms
  wait_bounded m ms h e =
      subst (λ x. IsPast (pos 0) x × IsUpTo (pos 1800000) x) same
        (if-cases (λ x. IsPast (pos 0) x × IsUpTo (pos 1800000) x)
          (leb_ℤ (pos (30 * 60 * 1000)) m.whole) (λ _. (inl (omega arith), inr (omega arith, refl)))
          λ low. (h, inl (ground arith)))
    where
      same : at_most_half_an_hour m ≡ ms
      same = ground arith

  retry_after_bounded :
      (header : Number) (ms : Millis)
      → retry_after_ms_of header ≡ some ms
      → IsPast (pos 0) ms × IsUpTo (pos 1800000) ms
  retry_after_bounded (int (pos zero)) ms e = cc
  retry_after_bounded (int (pos (suc n))) ms e =
      wait_bounded (whole_ms (pos (suc n * 1000))) ms (inl (omega arith)) e
  retry_after_bounded (int (negsuc n)) ms e = cc
  retry_after_bounded (fraction (pos zero) places) ms e = cc
  retry_after_bounded (fraction (pos (suc n)) places) ms e =
      wait_bounded (decimal_ms (suc n * 1000) places) ms
        (decimal_ms-IsPast (suc n * 1000) places (omega arith)) e
  retry_after_bounded (fraction (negsuc n) places) ms e = cc
  retry_after_bounded non_finite ms e = cc

  refused_answer-IsAnswer :
      (response : Response)
      → response.ok_status ≡ false
      → IsAnswer (some response) (refused_answer response)
  refused_answer-IsAnswer response bad = record {
    accepted = λ e. cc;
    retryable = λ e. inr (response, refl, bad, ground arith);
    exclusive = λ e. cc;
    reason = λ _. (_, refl);
    wait = λ ms e. retry_after_bounded response.retry_after ms e;
  }

  answer_of-IsAnswer :
      (response : Option Response) → IsAnswer response (answer_of is_date envelope response)
  unfolding answer_of
  answer_of-IsAnswer none = record {
    accepted = λ e. cc;
    retryable = λ _. inl refl;
    exclusive = λ e. cc;
    reason = λ _. (_, refl);
    wait = λ ms e. cc;
  }
  answer_of-IsAnswer (some response) =
      if-cases (IsAnswer (some response)) response.ok_status
        (λ good. accepted_answer-IsAnswer response _ good refl _ refl)
        (λ bad. refused_answer-IsAnswer response bad)

  module _ {W : Type 0} (fetch : EncryptedEnvelope → W → Option Response × W) where
    send_checked-IsAnswer :
        (checked : Checked (Unit {0})) (w w' : W) (r : SenderResult)
        → send_checked is_date fetch envelope checked w ≡ (ok r, w')
        → (response : Option Response) × (fetch envelope w ≡ (response, w')) × IsAnswer response r
    send_checked-IsAnswer (err error) w w' r e = cc
    send_checked-IsAnswer (ok passed) w w' r e =
        let response = (fetch envelope w).0 in
        let same : (fetch envelope w).1 ≡ w' = ap (λ (p : Checked SenderResult × W). p.1) e in
        let result : ok (answer_of is_date envelope response) ≡ ok r =
          ap (λ (p : Checked SenderResult × W). p.0) e in
        let answer : answer_of is_date envelope response ≡ r = ground arith in
        (
          response,
          ap (λ (v : W). (response, v)) same,
          subst (λ (a : SenderResult). IsAnswer response a) answer (answer_of-IsAnswer response),
        )

    -- The result of a send is that of the one request it makes: accepted only with a bounded
    -- acknowledgement of the envelope's operation, which for a chunk names its request, run and place;
    -- to be retried only where there was no response, or one of status 429 or from 500 on; never
    -- both; with a reason where it is not accepted; and with a wait of at most half an hour.
    pub send_envelope-IsAnswer :
        (w w' : W) (r : SenderResult)
        → send_envelope is_date fetch envelope w ≡ (ok r, w')
        → (response : Option Response) × (fetch envelope w ≡ (response, w')) × IsAnswer response r
    unfolding send_envelope
    send_envelope-IsAnswer w w' r e = send_checked-IsAnswer (checks_before_send envelope) w w' r e
