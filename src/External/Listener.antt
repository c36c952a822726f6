-- ===== src/External/Listener.antt =====
-- background/external-router.ts: `registerExternalStatusRouter`, whose listener takes messages while
-- earlier ones are under way. Tasks are numbered in the order of their messages, and a task is the
-- promise of one dispatch. An answered message without an activation settles like any other promise.
-- The log has the calls of the handlers, each with its task.
pub mod Exclusive
use csboard_extension.Prelude.{
  ℕ, zero, suc, ◌+◌, ◌≡◌, Bool, true, false, not, ◌&&◌, ◌||◌, Option, none, some, List, [], ◌∷◌,
  map, ◌==◌, if◌then◌else◌,
}
use csboard_extension.Prelude.Text.{Text}
use csboard_extension.Shared.Result.{Result, ok, err, ◌>>=◌, ◌>>◌, throw_if}
use csboard_extension.Gateway.Error.{Checked, invalid}
use csboard_extension.Gateway.Payload.{Js}
use csboard_extension.External.Messages.{
  pair_and_enable_type, reactivate_type, action_in_progress, StatusResponse, refused, ExternalUrl,
  is_exact_origin, get_sender_origin, is_exact_pair_and_enable_message, is_exact_reactivate_message,
  safe_external_request_id, external_message_type,
}
use csboard_extension.External.Dispatch.{
  Options, has_origin, Route, answer, activate, is_type, route, Call, Reply, Stage, done, begin,
  call_of, next,
}

-- `exactHttpsOrigins`: any other entry of the configuration throws.
abbrev pub origin_of : Text → Option ExternalUrl → Checked Text
origin_of value none = err (invalid "invalid-url")
origin_of value (some url) =
    throw_if (not (is_exact_origin url value)) (invalid "invalid-external-origin") >> ok url.origin

module _ (parse_url : Text → Option ExternalUrl) where
  unfoldable pub exact_https_origins : List Text → Checked (List Text)
  exact_https_origins [] = ok []
  exact_https_origins (value ∷ values) = do
    origin ← origin_of value (parse_url value)
    origins ← exact_https_origins values
    ok (origin ∷ origins)

pub record State : Type 0 where
  pub activation_in_flight : Option ℕ
  pub tasks : ℕ → Option Stage
  pub next_task : ℕ
  pub calls : List (ℕ × Call)

abbrev pub with_task : ℕ → Option Stage → State → State
with_task n stage s = record s { tasks = λ k. if n == k then stage else s.tasks k }

-- Enter a stage: its call is made at once.
abbrev pub log_call : ℕ → Option Call → List (ℕ × Call) → List (ℕ × Call)
log_call n none calls = calls
log_call n (some call) calls = (n, call) ∷ calls

unfoldable pub enter : ℕ → Stage → State → State
enter n stage s = record (with_task n (some stage) s) { calls = log_call n (call_of stage) s.calls }

abbrev pub stage_of : Route → Stage
stage_of (answer response) = done response
stage_of (activate activation) = begin activation

unfoldable pub should_track : Options → Js → Option Text → Bool
should_track options message origin =
    let type = external_message_type message in
    (is_type pair_and_enable_type type || is_type reactivate_type type)
    && has_origin options.pairing_allowed_origins origin
    && (is_exact_pair_and_enable_message message || is_exact_reactivate_message message)

abbrev pub is_busy : Option ℕ → Bool
is_busy none = false
is_busy (some n) = true

-- The new task is in flight where it is tracked.
abbrev pub track : Bool → State → State
track true s = record s { activation_in_flight = some s.next_task }
track false s = s

unfoldable pub start_dispatch : Bool → Stage → State → State
unfolding enter
start_dispatch tracked stage s =
    let t = track tracked (enter s.next_task stage s) in record t { next_task = suc t.next_task }

-- The listener, with the answer that it sends at once.
unfoldable pub listen : Options → Js → Option Text → State → State × Option StatusResponse
unfolding start_dispatch
listen options message origin s =
    let tracked = should_track options message origin in
    if tracked && is_busy s.activation_in_flight
    then (s, some (refused (safe_external_request_id message) action_in_progress))
    else (start_dispatch tracked (stage_of (route options message origin)) s, none)

-- A handler settles, and the dispatch goes on.
unfoldable pub handler_settled : ℕ → Stage → Reply → State → State
unfolding enter
handler_settled n stage reply s = enter n (next stage reply) s

abbrev pub clear_if : ℕ → Option ℕ → Option ℕ
clear_if n none = none
clear_if n (some m) = if m == n then none else some m

-- `finally`, once the promise has settled.
unfoldable pub dispatch_settled : ℕ → State → State
dispatch_settled n s =
    let t = with_task n none s in
    record t { activation_in_flight = clear_if n s.activation_in_flight }

abbrev pub registered : State
registered = record { activation_in_flight = none; tasks = λ k. none; next_task = 0; calls = [] }

abbrev pub is_done : Stage → Bool
is_done (done response) = true
is_done _ = false

module _ (options : Options) where
  pub data Step (s : State) : State → Type 0 where
    received : (message : Js) (origin : Option Text) → Step s (listen options message origin s).0
    replied :
        (n : ℕ) (stage : Stage) (reply : Reply)
        → s.tasks n ≡ some stage
        → is_done stage ≡ false
        → Step s (handler_settled n stage reply s)
    finished :
        (n : ℕ) (response : StatusResponse)
        → s.tasks n ≡ some (done response)
        → Step s (dispatch_settled n s)

  pub data Reaches : State → Type 0 where
    here : Reaches registered
    later : {s t : State} → Reaches s → Step s t → Reaches t
