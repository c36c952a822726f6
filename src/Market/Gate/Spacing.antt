-- ===== src/Market/Gate/Spacing.antt =====
-- shared/market-actions.ts and shared/market-orders.ts: the runs of a chain keep their distance.
use csboard_extension.Prelude.{ℕ, ◌+◌, ◌≤◌, max, List, [], ◌∷◌, arith}
use csboard_extension.Market.Gate.{Request, Run, gated, gated_chain}

-- A run after one that began at `last` and ended at `free`.
pub record IsSpacedRun (gap last free : ℕ) (request : Request) (run : Run) : Type 0 where
  pub apart : last + gap ≤ run.begins
  pub alone : free ≤ run.begins
  pub in_time : request.made_at ≤ run.begins
  pub prompt : run.begins ≤ max (max request.made_at free) (last + gap) + request.late

pub data IsSpaced (gap : ℕ) : ℕ → ℕ → List Request → List Run → Type 0 where
  over : {last free : ℕ} → IsSpaced gap last free [] []
  then_run :
      {last free : ℕ} {request : Request} {run : Run} {requests : List Request} {runs : List Run}
      → IsSpacedRun gap last free request run
      → IsSpaced gap run.begins run.ends requests runs
      → IsSpaced gap last free (request ∷ requests) (run ∷ runs)

gated-IsSpacedRun :
    (gap last free : ℕ) (request : Request)
    → IsSpacedRun gap last free request (gated gap last free request)
unfolding gated
gated-IsSpacedRun gap last free request = record {
  apart = ground arith;
  alone = ground arith;
  in_time = ground arith;
  prompt = ground arith;
}

-- Each request of a chain runs once, in the order of the chain; its run begins when the one before
-- has ended and at least the gap after that one began, and not later than these two, its own time
-- and the lateness of the timer require.
pub gated_chain-IsSpaced :
    (gap last free : ℕ) (requests : List Request)
    → IsSpaced gap last free requests (gated_chain gap last free requests)
unfolding gated_chain
gated_chain-IsSpaced gap last free [] = over
gated_chain-IsSpaced gap last free (request ∷ requests) =
    then_run (gated-IsSpacedRun gap last free request) (
      gated_chain-IsSpaced gap (gated gap last free request).begins
        (gated gap last free request).ends requests)
