-- ===== src/Listing/Confirm/History/Orderly.antt =====
-- background/p2p-listing-client.ts: what holds of the log of every run of the controller.
use csboard_extension.Prelude.{ℕ, ◌≡◌, refl, arith, true, false, not, Option, none, some, if-cases}
use csboard_extension.Prelude.Int.{ℤ, pos, leb_ℤ}
use csboard_extension.Prelude.Text.{Text}
use csboard_extension.Shared.Result.{ok, err, ◌>>=◌}
use csboard_extension.Listing.Records.{Checked, StoredReview, is_review_id}
use csboard_extension.Listing.Request.{is_terminal_commit_error}
use csboard_extension.Listing.Prepare.{prepare}
use csboard_extension.Listing.Confirm.{
  CommitResult, Stage, reading_base, State, delete_review, has_stage, cancel, start_confirm,
  join_or_start, confirm, commit_settled, base_read, commit_answered, commit_result,
  confirmation_removed,
}
use csboard_extension.Listing.Confirm.History.{
  fresh, Step, prepared, cancelled, confirm_called, base_arrived, answer_arrived, removed, Reaches,
  here, then, IsOrderly,
}
use csboard_extension.Listing.Confirm.History.Sound.{
  at_rest, IsSound, review_stored-IsSound, delete_review-IsSound, settled-IsSound, begun-IsSound,
  sent-IsSound, ended-IsSound,
}

commit_settled-IsSound :
    (id : Text) (outcome : Checked CommitResult) (s : State)
    → IsSound s
    → IsSound (commit_settled id outcome s)
unfolding commit_settled
commit_settled-IsSound id (ok result) s i = ended-IsSound id (ok result) s i true
commit_settled-IsSound id (err error) s i =
    ended-IsSound id (err error) s i (is_terminal_commit_error error)

base_read-IsSound :
    (id : Text) (stored : StoredReview) (base : Checked Text) (s : State)
    → IsSound s
    → s.confirmations id ≡ some (reading_base stored)
    → IsSound (base_read id stored base s)
unfolding base_read
base_read-IsSound id stored (ok base) s i at = sent-IsSound id stored s i at
base_read-IsSound id stored (err error) s i at = commit_settled-IsSound id (err error) s i

start_confirm-IsSound :
    (id : Text) (now : ℕ) (found : Option StoredReview) (s : State)
    → IsSound s
    → s.confirmations id ≡ none
    → s.reviews id ≡ found
    → IsSound (start_confirm id now found s)
unfolding start_confirm
start_confirm-IsSound id now none s i free kept = settled-IsSound id _ s i refl (ground arith)
start_confirm-IsSound id now (some stored) s i free kept =
    if-cases IsSound (leb_ℤ stored.review.expires_at (pos now))
      (λ _.
        settled-IsSound id _ (delete_review id s) (delete_review-IsSound id s i (ground arith)) refl
          (ground arith))
      (λ late. begun-IsSound id stored now s i free kept (ground arith))

join_or_start-IsSound :
    (id : Text) (now : ℕ) (stage : Option Stage) (s : State)
    → IsSound s
    → s.confirmations id ≡ stage
    → IsSound (join_or_start id now stage s)
join_or_start-IsSound id now (some stage) s i at = i
join_or_start-IsSound id now none s i at = start_confirm-IsSound id now (s.reviews id) s i at refl

cancel-IsSound : (id : Text) (s : State) → IsSound s → IsSound (cancel id s).0
unfolding cancel
cancel-IsSound id s i =
    if-cases (λ (r : State × Checked (Unit {0})). IsSound r.0) (not (is_review_id id)) (λ _. i)
      (λ _.
        if-cases (λ (r : State × Checked (Unit {0})). IsSound r.0) (has_stage (s.confirmations id))
          (λ _. i) (λ free. delete_review-IsSound id s i (free_rests (s.confirmations id) free)))
  where
    free_rests : (o : Option Stage) → has_stage o ≡ false → at_rest o ≡ true
    free_rests none h = refl
    free_rests (some stage) h = cc

fresh-IsSound : IsSound fresh
fresh-IsSound = record {
  opens = λ k stored h. cc;
  starts = λ k stored h. cc;
  quiets = λ k stage h r. tt;
  orderly = tt;
}

module _ (parse_date : Text → Option ℤ) where
  Step-IsSound : {s t : State} → Step parse_date s t → IsSound s → IsSound t
  unfolding confirm commit_answered confirmation_removed
  Step-IsSound {s} (prepared raw eligible key answer id now) i =
      review_stored-IsSound id (prepare parse_date raw eligible key answer id now) s i
  Step-IsSound {s} (cancelled id) i = cancel-IsSound id s i
  Step-IsSound {s} (confirm_called id now) i =
      if-cases IsSound (not (is_review_id id)) (λ _. i)
        (λ _. join_or_start-IsSound id now (s.confirmations id) s i refl)
  Step-IsSound {s} (base_arrived id stored base at) i = base_read-IsSound id stored base s i at
  Step-IsSound {s} (answer_arrived id stored answer at) i =
      commit_settled-IsSound id (answer >>= commit_result stored.intent) s i
  Step-IsSound {s} (removed id outcome at) i = settled-IsSound id none s i refl (ground arith)

  -- In any run, with the answers in any order: a confirmation starts only before the review's
  -- expiry, for a review that was prepared under its id and has since been neither cancelled nor
  -- closed, and while no other confirmation of the id is under way; and a commit carries the
  -- intent of the confirmation that started last for its id, which had sent no commit before.
  pub Reaches-IsOrderly : (s : State) → Reaches parse_date s → IsOrderly s.log
  Reaches-IsOrderly s r = (sound r).orderly
    where
      sound : {t : State} → Reaches parse_date t → IsSound t
      sound here = fresh-IsSound
      sound (then before step) = Step-IsSound step (sound before)
