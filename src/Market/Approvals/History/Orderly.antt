-- ===== src/Market/Approvals/History/Orderly.antt =====
-- shared/market-actions.ts: histories of clicks and writes from a page that has just loaded.
use csboard_extension.Prelude.{inl, inr, List, [], ◌∷◌}
use csboard_extension.Market.Approvals.{Policy}
use csboard_extension.Market.Approvals.Outcomes.{authorize-cases, consume-cases}
use csboard_extension.Market.Approvals.History.{Call, authorizes, consumes, World, start, step, run}
use csboard_extension.Market.Approvals.History.Invariant.{IsOrderly, use-IsOrderly, grant-IsOrderly}

same_registry :
    (policy : Policy) (w : World)
    → IsOrderly policy w
    → IsOrderly policy (record w { registry = w.registry })
same_registry policy w v = record {
  known = v.known;
  older = v.older;
  spent = v.spent;
  origin = v.origin;
  once = v.once;
  covered = v.covered;
  granted = v.granted;
}

start-IsOrderly : (policy : Policy) → IsOrderly policy start
start-IsOrderly policy = record {
  known = λ k a e. cc;
  older = tt;
  spent = λ k a id e used. cc;
  origin = λ k a id e held. cc;
  once = tt;
  covered = tt;
  granted = tt;
}

step-IsOrderly :
    (policy : Policy) (c : Call) (w : World)
    → IsOrderly policy w
    → IsOrderly policy (step policy c w)
unfolding step
step-IsOrderly policy (authorizes event ids account now) w v =
    elim (authorize-cases policy event ids account now w.registry) [
      | inl (e, refused) ↦ rw refused (same_registry policy w v)
      | inr (given, done) ↦ rw done (grant-IsOrderly policy w v event ids account now given)
    ]
step-IsOrderly policy (consumes handle id current now) w v =
    elim (consume-cases policy handle id current now w.registry) [
      | inl (e, refused) ↦ rw refused (same_registry policy w v)
      | inr (a, allowed, done) ↦ rw done (use-IsOrderly policy w v handle id current now a allowed)
    ]

IsOrderly-after :
    (policy : Policy) (cs : List Call) (w : World)
    → IsOrderly policy w
    → IsOrderly policy (run policy cs w)
unfolding run
IsOrderly-after policy [] w v = v
IsOrderly-after policy (c ∷ cs) w v =
    IsOrderly-after policy cs (step policy c w) (step-IsOrderly policy c w v)

-- In every history of approvals and uses from the first one on, each id of an approval is used once
-- at most; each use is covered by an approval for that id and for the account that was current at
-- the use, not later than thirty minutes after it was given; and each approval was given by a
-- trusted click and for no more ids than the policy's limit.
pub run-IsOrderly : (policy : Policy) (cs : List Call) → IsOrderly policy (run policy cs start)
run-IsOrderly policy cs = IsOrderly-after policy cs start (start-IsOrderly policy)
