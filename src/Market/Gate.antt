-- ===== src/Market/Gate.antt =====
-- shared/market-actions.ts (`gatedWrite`) and shared/market-orders.ts (`gated`): the chain on which
-- requests wait for each other. Of a request the chain sees when it is made, how much later than
-- asked the timer wakes it, and how long the request then takes; a request that fails ends too.
pub mod Spacing
use csboard_extension.Prelude.{ℕ, ◌+◌, ◌-◌, max, List, [], ◌∷◌, ltb, if◌then◌else◌}

abbrev pub min_write_gap_ms : ℕ
min_write_gap_ms = 1500

abbrev pub min_request_gap_ms : ℕ
min_request_gap_ms = 1200

pub record Request : Type 0 where
  pub made_at : ℕ
  pub late : ℕ
  pub takes : ℕ

pub record Run : Type 0 where
  pub begins : ℕ
  pub ends : ℕ

-- One link of the chain: `last` is when the last run began, `free` when it ended. `wait` is 0 where
-- the source's is negative, and neither sleeps.
unfoldable pub gated : ℕ → ℕ → ℕ → Request → Run
gated gap last free request =
    let now = max request.made_at free in
    let wait = last + gap - now in
    let begins = if ltb 0 wait then now + wait + request.late else now in
    record { begins = begins; ends = begins + request.takes }

unfoldable pub gated_chain : ℕ → ℕ → ℕ → List Request → List Run
gated_chain gap last free [] = []
gated_chain gap last free (request ∷ requests) =
    let run = gated gap last free request in run ∷ gated_chain gap run.begins run.ends requests
