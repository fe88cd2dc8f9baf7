-- ===== src/Examples/Polling/Answers.antt =====
-- What the polling example's script says to its reader, walked entry by entry, with a table of
-- its own for what decides a poll.
use relentless.Prelude.{
  ℕ, zero, suc, min, ◌≡◌, refl, ap, ◌∙◌, Option, none, some, List, [], ◌∷◌, arith,
}
use relentless.Decision.{ok, err, Verdict}
use relentless.Engine.Error.{RetryError}
use relentless.Examples.Scripted.{Script, last_index, entry}
use relentless.Examples.Scripted.Decisive.{Answer, outcome_of, poll_at, first_decisive}
use relentless.Examples.Polling.{JobStatus, JobError, PollOutcome, sort_out}

abbrev pub JobAnswer : Type 0
JobAnswer = Answer PollOutcome JobStatus JobError

-- A job that is done is returned, one that failed for good aborts, and the others are polled again.
abbrev pub decisive : PollOutcome → Option JobAnswer
decisive (ok JobStatus.done) = some (ok JobStatus.done)
decisive (ok JobStatus.pending) = none
decisive (err JobError.transient) = none
decisive (err (JobError.fatal msg)) = some (err (RetryError.aborted (JobError.fatal msg)))

abbrev pub or_else : Option JobAnswer → JobAnswer → JobAnswer
or_else none later = later
or_else (some answer) later = answer

-- The answer of a script that goes on with `x` and then `rest`, with `more` polls after that of `x`.
abbrev pub answered : (more : ℕ) → PollOutcome → List PollOutcome → JobAnswer
answered zero x rest = or_else (decisive x) (err (RetryError.exhausted x))
answered (suc more) x [] = or_else (decisive x) (answered more x [])
answered (suc more) x (y ∷ ys) = or_else (decisive x) (answered more y ys)

outcome_of-sort_out :
    (next : PollOutcome → JobAnswer) (x : PollOutcome)
    → outcome_of next (sort_out x) ≡ or_else (decisive x) (next x)
unfolding sort_out
outcome_of-sort_out next (ok JobStatus.done) = refl
outcome_of-sort_out next (ok JobStatus.pending) = refl
outcome_of-sort_out next (err JobError.transient) = refl
outcome_of-sort_out next (err (JobError.fatal msg)) = refl

module _ {O R A : Type 0} (classify : O → Verdict R A O) where
  poll_at-tail :
      (x y : O) (ys : List O) (i : ℕ)
      → poll_at classify (record { first = x; rest = y ∷ ys }) (suc i)
        ≡ poll_at classify (record { first = y; rest = ys }) i
  unfolding poll_at entry last_index
  poll_at-tail x y ys i =
      let whole : Script O = record { first = x; rest = y ∷ ys } in
      let tail : Script O = record { first = y; rest = ys } in
      let next : min (suc i) (last_index whole) ≡ suc (min i (last_index tail)) = omega arith in
      ap (entry whole) next

  poll_at-single : (x : O) (i : ℕ) → poll_at classify (record { first = x; rest = [] }) i ≡ x
  unfolding poll_at entry last_index
  poll_at-single x i =
      let only : min i 0 ≡ 0 = omega arith in ap (entry (record { first = x; rest = [] })) only

  -- A script that has been read once goes on as its tail.
  first_decisive-tail :
      (x y : O) (ys : List O) (more i : ℕ)
      → first_decisive classify (record { first = x; rest = y ∷ ys }) more (suc i)
        ≡ first_decisive classify (record { first = y; rest = ys }) more i
  unfolding first_decisive
  first_decisive-tail x y ys zero i = rw (poll_at-tail x y ys i) refl
  first_decisive-tail x y ys (suc more) i =
      rw (poll_at-tail x y ys i, first_decisive-tail x y ys more (suc i)) refl

  first_decisive-single :
      (x : O) (more i j : ℕ)
      → first_decisive classify (record { first = x; rest = [] }) more i
        ≡ first_decisive classify (record { first = x; rest = [] }) more j
  unfolding first_decisive
  first_decisive-single x zero i j = rw (poll_at-single x i, poll_at-single x j) refl
  first_decisive-single x (suc more) i j =
      rw (poll_at-single x i, poll_at-single x j, first_decisive-single x more (suc i) (suc j)) refl

abbrev from_start : (more : ℕ) → PollOutcome → List PollOutcome → JobAnswer
from_start more x rest = first_decisive sort_out (record { first = x; rest = rest }) more 0

poll_at-first :
    (x : PollOutcome) (rest : List PollOutcome)
    → poll_at sort_out (record { first = x; rest = rest }) 0 ≡ x
unfolding poll_at entry last_index
poll_at-first x rest =
    let script : Script PollOutcome = record { first = x; rest = rest } in
    let none_skipped : min 0 (last_index script) ≡ 0 = omega arith in ap (entry script) none_skipped

pub first_decisive-answered :
    (more : ℕ) (x : PollOutcome) (rest : List PollOutcome)
    → from_start more x rest ≡ answered more x rest
unfolding first_decisive
first_decisive-answered zero x rest =
    rw (poll_at-first x rest) (outcome_of-sort_out (λ o. err (RetryError.exhausted o)) x)
first_decisive-answered (suc more) x [] =
    let later : first_decisive sort_out (record { first = x; rest = [] }) more 1
        ≡ answered more x [] =
      first_decisive-single sort_out x more 1 0 ∙ first_decisive-answered more x [] in
    rw (poll_at-first x [], later) (outcome_of-sort_out (λ o. answered more x []) x)
first_decisive-answered (suc more) x (y ∷ ys) =
    let later : first_decisive sort_out (record { first = x; rest = y ∷ ys }) more 1
        ≡ answered more y ys =
      first_decisive-tail sort_out x y ys more 0 ∙ first_decisive-answered more y ys in
    rw (poll_at-first x (y ∷ ys), later) (outcome_of-sort_out (λ o. answered more y ys) x)
