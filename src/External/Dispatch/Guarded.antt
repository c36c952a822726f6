-- ===== src/External/Dispatch/Guarded.antt =====
-- background/external-router.ts: what holds of the calls and of the answer of every message.
use mathlib.Core.Path.{subst}
use csboard_extension.Prelude.{
  ◌≡◌, ◌≢◌, ◌⊎◌, inl, inr, refl, sym, arith, Bool, true, false, not, Option, none, some, List, [],
  ◌∷◌, ◌++◌, any, if◌then◌else◌,
}
use csboard_extension.Prelude.Text.{Text, codes, ◌===◌}
use csboard_extension.Gateway.Payload.{
  Js, undefined, null, instance_of, opaque, bool, num, str, arr, obj, Fields,
}
use csboard_extension.Client.Body.{lookup, is_text_sound}
use csboard_extension.External.Messages.{
  status_type, pair_and_enable_type, reactivate_type, StatusResponse, activated, has_header,
  is_exact_pair_and_enable_message, is_exact_reactivate_message, external_message_type,
  is_unsupported_version,
}
use csboard_extension.External.Dispatch.{
  Options, is_from, is_too_large, Activation, fresh_pair, reactivation, Route, answer, activate,
  is_type, allowed_for, route, request_id_of, field_text, Call, pair, ask_paired, enable, sync,
  disable, Reply, rejected, resolved, pairing, asking, enabling, syncing, begin, next, run, follow,
  dispatch_external_message,
}

abbrev pub last_call : List Call → Option Call
last_call [] = none
last_call (call ∷ []) = some call
last_call (call ∷ next_call ∷ calls) = last_call (next_call ∷ calls)

abbrev pub is_enable : Call → Bool
is_enable enable = true
is_enable _ = false

abbrev pub IsActivation : Js → Type 0
IsActivation message =
    (is_exact_pair_and_enable_message message ≡ true) ⊎ (is_exact_reactivate_message message ≡ true)

abbrev pub IsAuthorized : Options → Js → Option Text → List Call → Type 0
IsAuthorized options message origin calls =
    (calls ≡ []) ⊎ ((is_from options.pairing_allowed_origins origin ≡ true) × IsActivation message)

abbrev pub activation_id : Activation → Text
activation_id (fresh_pair id code) = id
activation_id (reactivation id) = id

-- Where the sync was enabled, the last call started it and the answer says so, or the last call
-- disabled it.
abbrev pub IsClosed : Text → List Call → Option StatusResponse → Type 0
IsClosed id calls response =
    (any is_enable calls ≡ false)
    ⊎ ((last_call calls ≡ some sync) × (response ≡ some (activated id)))
    ⊎ ((last_call calls ≡ some disable) × (response ≢ some (activated id)))

-- The sync is enabled only behind a pairing that succeeded, or where the device is paired.
abbrev pub IsPaired : (Call → Reply) → List Call → Type 0
IsPaired replies [] = Unit
IsPaired replies (enable ∷ calls) = ⊥
IsPaired replies (pair code ∷ calls) =
    (any is_enable calls ≡ false) ⊎ ((b : Bool) × (replies (pair code) ≡ resolved b))
IsPaired replies (ask_paired ∷ calls) =
    (any is_enable calls ≡ false) ⊎ (replies ask_paired ≡ resolved true)
IsPaired replies (sync ∷ calls) = any is_enable calls ≡ false
IsPaired replies (disable ∷ calls) = any is_enable calls ≡ false

-- The calls, seen behind those of before, and the answer.
abbrev Ends : (Call → Reply) → Text → List Call → List Call × Option StatusResponse → Type 0
Ends replies id before (calls, response) =
    IsClosed id (before ++ calls) response
    × IsPaired replies (before ++ calls)
    × ((r : StatusResponse) × (response ≡ some r))

module _ (replies : Call → Reply) (id : Text) where
  after_sync :
      (first : Call)
      → IsPaired replies (first ∷ enable ∷ sync ∷ [])
      → IsPaired replies (first ∷ enable ∷ sync ∷ disable ∷ [])
      → (r : Reply)
      → Ends replies id (first ∷ enable ∷ sync ∷ []) (run 1 replies (next (syncing id) r))
  unfolding run next
  after_sync first short long rejected = (inr (inr (refl, λ e. cc)), long, (_, refl))
  after_sync first short long (resolved b) = (inr (inl (refl, refl)), short, (_, refl))

  after_enable :
      (first : Call)
      → IsPaired replies (first ∷ enable ∷ disable ∷ [])
      → IsPaired replies (first ∷ enable ∷ sync ∷ [])
      → IsPaired replies (first ∷ enable ∷ sync ∷ disable ∷ [])
      → (r : Reply) → Ends replies id (first ∷ enable ∷ []) (run 2 replies (next (enabling id) r))
  unfolding run next
  after_enable first failed short long rejected = (inr (inr (refl, λ e. cc)), failed, (_, refl))
  after_enable first failed short long (resolved b) = after_sync first short long (replies sync)

  after_pair :
      (code : Text) (r : Reply)
      → replies (pair code) ≡ r
      → Ends replies id (pair code ∷ []) (run 3 replies (next (pairing id code) r))
  unfolding run next
  after_pair code rejected e = (inl refl, inl refl, (_, refl))
  after_pair code (resolved b) e =
      after_enable (pair code) (inr (b, e)) (inr (b, e)) (inr (b, e)) (replies enable)

  after_question :
      (r : Reply)
      → replies ask_paired ≡ r
      → Ends replies id (ask_paired ∷ []) (run 3 replies (next (asking id) r))
  unfolding run next
  after_question rejected e = (inl refl, inl refl, (_, refl))
  after_question (resolved false) e = (inl refl, inl refl, (_, refl))
  after_question (resolved true) e =
      after_enable ask_paired (inr e) (inr e) (inr e) (replies enable)

  begin-Ends :
      (activation : Activation)
      → activation_id activation ≡ id
      → Ends replies id [] (run 4 replies (begin activation))
  unfolding run begin
  begin-Ends (fresh_pair own code) same =
      subst (λ i. Ends replies id [] (run 4 replies (pairing i code))) (sym same)
        (after_pair code (replies (pair code)) refl)
  begin-Ends (reactivation own) same =
      subst (λ i. Ends replies id [] (run 4 replies (asking i))) (sym same)
        (after_question (replies ask_paired) refl)

-- An exact activation is of one of the two types.
has_header-type :
    (fields : Fields) (keys type : Text)
    → has_header fields keys type ≡ true
    → external_message_type (obj fields) ≡ some type
unfolding external_message_type
has_header-type fields keys type h =
    rw (is_text_sound type (lookup (codes "type") fields) (ground arith)) refl

pub IsActivation-type :
    (message : Js)
    → IsActivation message
    → (external_message_type message ≡ some pair_and_enable_type)
      ⊎ (external_message_type message ≡ some reactivate_type)
unfolding is_exact_pair_and_enable_message is_exact_reactivate_message
IsActivation-type (obj fields) (inl h) = inl (
    has_header-type fields (codes "code,requestId,type,version") pair_and_enable_type
      (ground arith))
IsActivation-type (obj fields) (inr h) =
    inr (has_header-type fields (codes "requestId,type,version") reactivate_type h)
IsActivation-type undefined h = ground arith
IsActivation-type null h = ground arith
IsActivation-type instance_of h = ground arith
IsActivation-type (opaque t) h = ground arith
IsActivation-type (bool b) h = ground arith
IsActivation-type (num n) h = ground arith
IsActivation-type (str s) h = ground arith
IsActivation-type (arr items) h = ground arith

allowed_for-activation :
    (options : Options) (message : Js)
    → IsActivation message
    → allowed_for options (external_message_type message) ≡ options.pairing_allowed_origins
unfolding ◌===◌
allowed_for-activation options message h = elim (IsActivation-type message h) [
  | inl e ↦ rw e refl
  | inr e ↦ rw e refl
]

else_of :
    (test : Bool) (first : StatusResponse) (rest : Route) (activation : Activation)
    → (if test then answer first else rest) ≡ activate activation
    → (test ≡ false) × (rest ≡ activate activation)
else_of true first rest activation h = cc
else_of false first rest activation h = (refl, h)

shape_of :
    (message : Js) (activation : Activation) (first second : StatusResponse) (status : Bool)
    → (if status
        then answer first
        else if is_exact_pair_and_enable_message message
        then activate (fresh_pair (request_id_of message) (field_text (codes "code") message))
        else if is_exact_reactivate_message message
        then activate (reactivation (request_id_of message))
        else answer second)
      ≡ activate activation
    → IsActivation message × (activation_id activation ≡ request_id_of message)
shape_of message activation first second status h = ground arith

pub route-authorized :
    (options : Options) (message : Js) (origin : Option Text) (activation : Activation)
    → route options message origin ≡ activate activation
    → (is_from options.pairing_allowed_origins origin ≡ true)
      × IsActivation message
      × (activation_id activation ≡ request_id_of message)
unfolding route
route-authorized options message origin activation h =
    let (from, h_1) =
      else_of (not (is_from (allowed_for options (external_message_type message)) origin)) _ _
        activation h in
    let (_, h_2) = else_of (is_too_large message) _ _ activation h_1 in
    let (_, h_3) = else_of (is_unsupported_version message) _ _ activation h_2 in
    let (exact, same) =
      shape_of message activation _ _ (is_type status_type (external_message_type message)) h_3 in
    let allowed = allowed_for-activation options message exact in
    (subst (λ l. is_from l origin ≡ true) allowed (ground arith), exact, same)

follow-Ends :
    (options : Options) (replies : Call → Reply) (message : Js) (origin : Option Text) (r : Route)
    → route options message origin ≡ r
    → IsAuthorized options message origin (follow r replies).0
      × Ends replies (request_id_of message) [] (follow r replies)
unfolding follow
follow-Ends options replies message origin (answer response) e =
    (inl refl, (inl refl, tt, (response, refl)))
follow-Ends options replies message origin (activate activation) e =
    let (from, exact, same) = route-authorized options message origin activation e in
    (inr (from, exact), begin-Ends replies (request_id_of message) activation same)

-- Every message is answered. A handler is called only where the sender is an origin that may pair
-- and the message is exactly an activation. The sync is enabled only behind a pairing that
-- succeeded or where the device is paired; and where it was enabled, either the last call started
-- a sync and the answer says that it is active, or the last call disabled it and the answer does not.
pub dispatch_external_message-IsGuarded :
    (options : Options) (replies : Call → Reply) (message : Js) (origin : Option Text)
    → let (calls, response) = dispatch_external_message options replies message origin in
      IsAuthorized options message origin calls
      × IsClosed (request_id_of message) calls response
      × IsPaired replies calls
      × ((r : StatusResponse) × (response ≡ some r))
unfolding dispatch_external_message
dispatch_external_message-IsGuarded options replies message origin =
    let (authorized, (closed, paired, answered)) =
      follow-Ends options replies message origin (route options message origin) refl in
    (authorized, closed, paired, answered)
