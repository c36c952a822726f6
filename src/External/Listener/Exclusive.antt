-- ===== src/External/Listener/Exclusive.antt =====
-- background/external-router.ts: activations do not overlap, in whatever order messages and replies
-- come.
pub mod Tracked
use mathlib.Core.Path.{subst}
use csboard_extension.Prelude.{
  ℕ, suc, ◌≤◌, ◌<◌, ◌≡◌, ◌≢◌, ◌⊎◌, inl, inr, refl, ap, arith, true, false, Option, none, some, List,
  [], ◌∷◌, All, All-map, ◌==◌, ==_iff, Bool-cases, if-cases,
}
use csboard_extension.Prelude.Text.{Text, ===_refl}
use csboard_extension.Gateway.Payload.{Js}
use csboard_extension.External.Messages.{pair_and_enable_type, reactivate_type, StatusResponse}
use csboard_extension.External.Dispatch.{
  Options, has_origin, is_from, Route, answer, activate, route, Call, Reply, Stage, call_of, next,
}
use csboard_extension.External.Dispatch.Guarded.{IsActivation, route-authorized, IsActivation-type}
use csboard_extension.External.Listener.Exclusive.Tracked.{done-of}
use csboard_extension.External.Listener.{
  State, with_task, log_call, enter, stage_of, should_track, is_busy, start_dispatch, listen,
  handler_settled, clear_if, dispatch_settled, registered, is_done, Step, received, replied,
  finished, Reaches, here, later,
}

abbrev AtMost : ℕ → List (ℕ × Call) → Type 0
AtMost n calls = All (λ (c : ℕ × Call). c.0 ≤ n) calls

abbrev Below : ℕ → List (ℕ × Call) → Type 0
Below n calls = All (λ (c : ℕ × Call). c.0 < n) calls

-- The latest call first, no call is of a later task than the calls behind it in time.
abbrev pub IsSerial : List (ℕ × Call) → Type 0
IsSerial [] = Unit
IsSerial ((n, call) ∷ calls) = AtMost n calls × IsSerial calls

record IsSound (s : State) : Type 0 where
  alone :
      (n : ℕ) (stage : Stage)
      → s.tasks n ≡ some stage
      → is_done stage ≡ false
      → s.activation_in_flight ≡ some n
  latest : (n : ℕ) → s.activation_in_flight ≡ some n → (n < s.next_task) × AtMost n s.calls
  below : Below s.next_task s.calls
  serial : IsSerial s.calls

Below-AtMost : (n : ℕ) (calls : List (ℕ × Call)) → Below n calls → AtMost n calls
Below-AtMost n calls h = All-map (λ (c : ℕ × Call) (l : c.0 < n). omega arith) calls h

AtMost-Below-suc : (n : ℕ) (calls : List (ℕ × Call)) → AtMost n calls → Below (suc n) calls
AtMost-Below-suc n calls h = All-map (λ (c : ℕ × Call) (l : c.0 ≤ n). omega arith) calls h

AtMost-Below : (n m : ℕ) (calls : List (ℕ × Call)) → n < m → AtMost n calls → Below m calls
AtMost-Below n m calls lt h = All-map (λ (c : ℕ × Call) (l : c.0 ≤ n). omega arith) calls h

log_call-AtMost :
    (n : ℕ) (call : Option Call) (calls : List (ℕ × Call))
    → AtMost n calls
    → IsSerial calls
    → AtMost n (log_call n call calls) × IsSerial (log_call n call calls)
log_call-AtMost n none calls h s = (h, s)
log_call-AtMost n (some call) calls h s = ((omega arith, h), (h, s))

task-cases :
    (n k : ℕ) (stage found : Option Stage) (s : State)
    → (with_task n stage s).tasks k ≡ found
    → ((n ≡ k) × (stage ≡ found)) ⊎ ((n ≢ k) × (s.tasks k ≡ found))
task-cases n k stage found s h = elim (Bool-cases (n == k)) [
  | inl same ↦ inl ((==_iff n k).0 same, ground arith)
  | inr other ↦ inr ((λ e. ground (arith, (==_iff n k).1 e)), ground arith)
]

done-call : (stage : Stage) → is_done stage ≡ true → call_of stage ≡ none
unfolding call_of
done-call stage h = ground arith

untracked-IsSound :
    (stage : Stage) (s : State)
    → IsSound s
    → is_done stage ≡ true
    → IsSound (start_dispatch false stage s)
unfolding start_dispatch enter
untracked-IsSound stage s i quiet = rw (done-call stage quiet) (record {
  alone = λ n at h busy. elim (task-cases s.next_task n (some stage) (some at) s h) [
    | inl (_, e) ↦ absurd (ground arith)
    | inr (_, e) ↦ i.alone n at e busy
  ];
  latest = λ n h. let (lt, most) = i.latest n h in (omega arith, most);
  below = AtMost-Below-suc s.next_task s.calls (Below-AtMost s.next_task s.calls i.below);
  serial = i.serial;
})

tracked-IsSound :
    (stage : Stage) (s : State)
    → IsSound s
    → s.activation_in_flight ≡ none
    → IsSound (start_dispatch true stage s)
unfolding start_dispatch enter
tracked-IsSound stage s i free =
    let (most, serial) =
      log_call-AtMost s.next_task (call_of stage) s.calls (Below-AtMost s.next_task s.calls i.below)
        i.serial in
    record {
      alone = λ n at h busy. elim (task-cases s.next_task n (some stage) (some at) s h) [
        | inl (same, _) ↦ ap some same
        | inr (_, e) ↦ absurd (cc (i.alone n at e busy))
      ];
      latest = λ n h.
          let same : s.next_task ≡ n = cc in
          subst
            (λ m. (m < suc s.next_task) × AtMost m (log_call s.next_task (call_of stage) s.calls))
            same (omega arith, most);
      below = AtMost-Below-suc s.next_task (log_call s.next_task (call_of stage) s.calls) most;
      serial = serial;
    }

not_busy : (o : Option ℕ) → is_busy o ≡ false → o ≡ none
not_busy none h = refl
not_busy (some n) h = cc

listen-IsSound :
    (options : Options) (message : Js) (origin : Option Text) (s : State)
    → IsSound s
    → IsSound (listen options message origin s).0
unfolding listen
listen-IsSound options message origin s i =
    elim (Bool-cases (should_track options message origin)) [
      | inl tracked ↦ rw tracked (
          if-cases (λ (r : State × Option StatusResponse). IsSound r.0)
            (is_busy s.activation_in_flight) (λ _. i)
            (λ free.
              tracked-IsSound (stage_of (route options message origin)) s i
                (not_busy s.activation_in_flight free)))
      | inr free ↦ rw free (
          untracked-IsSound (stage_of (route options message origin)) s i
            (done-of options message origin (route options message origin) refl free))
    ]

handler_settled-IsSound :
    (n : ℕ) (stage : Stage) (reply : Reply) (s : State)
    → IsSound s
    → s.tasks n ≡ some stage
    → is_done stage ≡ false
    → IsSound (handler_settled n stage reply s)
unfolding handler_settled enter
handler_settled-IsSound n stage reply s i at busy =
    let mine = i.alone n stage at busy in
    let (lt, before) = i.latest n mine in
    let (most, serial) = log_call-AtMost n (call_of (next stage reply)) s.calls before i.serial in
    record {
      alone = λ k found h active. elim (task-cases n k (some (next stage reply)) (some found) s h) [
        | inl (same, _) ↦ subst (λ j. s.activation_in_flight ≡ some j) same mine
        | inr (_, e) ↦ i.alone k found e active
      ];
      latest = λ k h.
          let same : n ≡ k = cc in
          subst
            (λ m. (m < s.next_task) × AtMost m (log_call n (call_of (next stage reply)) s.calls))
            same (lt, most);
      below = AtMost-Below n s.next_task (log_call n (call_of (next stage reply)) s.calls) lt most;
      serial = serial;
    }

clear_if-other : (n k : ℕ) → n ≢ k → clear_if n (some k) ≡ some k
clear_if-other n k h = ground arith

clear_if-from : (n k : ℕ) (o : Option ℕ) → clear_if n o ≡ some k → o ≡ some k
clear_if-from n k none h = cc
clear_if-from n k (some m) h = ground arith

dispatch_settled-IsSound : (n : ℕ) (s : State) → IsSound s → IsSound (dispatch_settled n s)
unfolding dispatch_settled
dispatch_settled-IsSound n s i = record {
  alone = λ k found h active. elim (task-cases n k none (some found) s h) [
    | inl (_, e) ↦ cc
    | inr (other, e) ↦ rw (i.alone k found e active) (clear_if-other n k other)
  ];
  latest = λ k h. i.latest k (clear_if-from n k s.activation_in_flight h);
  below = i.below;
  serial = i.serial;
}

registered-IsSound : IsSound registered
registered-IsSound = record {
  alone = λ n stage h busy. cc;
  latest = λ n h. cc;
  below = tt;
  serial = tt;
}

module _ (options : Options) where
  Step-IsSound : {s t : State} → Step options s t → IsSound s → IsSound t
  Step-IsSound {s} (received message origin) i = listen-IsSound options message origin s i
  Step-IsSound {s} (replied n stage reply at busy) i =
      handler_settled-IsSound n stage reply s i at busy
  Step-IsSound {s} (finished n response at) i = dispatch_settled-IsSound n s i

  Reaches-IsSound : {s : State} → Reaches options s → IsSound s
  Reaches-IsSound here = registered-IsSound
  Reaches-IsSound (later before step) = Step-IsSound step (Reaches-IsSound before)

  -- Whatever messages arrive, and in whatever order the handlers settle: no two dispatches wait for
  -- a handler at once, and no handler is called for an earlier message once one has been called for a
  -- later message.
  pub Reaches-IsSerial :
      (s : State)
      → Reaches options s
      → IsSerial s.calls
        × ((m n : ℕ) (a b : Stage)
            → s.tasks m ≡ some a
            → is_done a ≡ false
            → s.tasks n ≡ some b
            → is_done b ≡ false
            → m ≡ n)
  Reaches-IsSerial s reached =
      let i = Reaches-IsSound reached in
      (
        i.serial,
        λ m n a b at_m busy_m at_n busy_n. cc (i.alone m a at_m busy_m, i.alone n b at_n busy_n),
      )
