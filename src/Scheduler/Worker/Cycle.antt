-- ===== src/Scheduler/Worker/Cycle.antt =====
-- internal/scheduler/persistent.go: `scanCandidates`, `processDueJobs` with one goroutine (the
-- default concurrency, which the server uses), and `runCycle`.
use cert_keeper.Prelude.{
  ℕ, zero, suc, ◌+◌, ◌/◌, ◌==◌, text_eq, Text, Bool, true, false, Option, none, some, ok, err, List,
  [], ◌∷◌, ◌++◌, length, if◌then◌else◌, codes,
}
use cert_keeper.Scheduler.Worker.{
  Candidate, Task, Answer, PersistentWorker, PersistentSummary, empty_summary, add_error,
  add_scanned, add_created, add_skipped, add_claimed, scan_failed, claim_failed, context_done,
  skip_failed, create_failed,
}
use cert_keeper.Scheduler.Worker.Execute.{execute_job}

-- What one turn of the loop of `processDueJobs` does: it returns, or goes on.
pub data Progress (S : Type 0) : Type 0 where
  returns goes_on : S × PersistentSummary → Progress S

module _ {S : Type 0} (w : PersistentWorker S) where
  -- `scheduler:<interval>:<window>`.
  unfoldable pub scan_idempotency_key : ℕ → Text
  scan_idempotency_key now =
      codes "scheduler:"
      ++ w.print w.config.interval
      ++ codes ":"
      ++ w.print (now / w.config.interval)

  abbrev pub after_skip : Text → PersistentSummary → Answer S (Unit {0}) → S × PersistentSummary
  after_skip domain t (s, err e) = (s, add_skipped (add_error (skip_failed domain e) t))
  after_skip domain t (s, ok u) = (s, add_skipped t)

  abbrev pub after_create :
      Text → PersistentSummary → Answer S (Task × Bool) → S × PersistentSummary
  after_create domain t (s, err e) = (s, add_error (create_failed domain e) t)
  after_create domain t (s, ok (job, true)) = (s, add_created t)
  after_create domain t (s, ok (job, false)) = (s, t)

  -- One candidate that the loop reaches; `at` is when the scan began.
  unfoldable pub scan_candidate : ℕ → Candidate → S × PersistentSummary → S × PersistentSummary
  scan_candidate at c (s, t) =
      if c.challenge_mode == codes "dns_api"
      then after_create c.domain t (
          w.store.create_job
            (record {
              candidate = c;
              actor = w.actor;
              idempotency_key = scan_idempotency_key at;
              max_attempts = w.config.max_attempts;
              created_at = at;
            })
            s)
      else after_skip c.domain t (
          w.store.record_skipped_candidate
            (record { candidate = c; actor = w.actor; created_at = w.now s }) s)

  abbrev pub scan_unless :
      ℕ
      → Candidate
      → (S × PersistentSummary → S × PersistentSummary)
      → S × PersistentSummary
      → Option Text
      → S × PersistentSummary
  scan_unless at c rest (s, t) (some e) = (s, add_error (context_done e) t)
  scan_unless at c rest x none = rest (scan_candidate at c x)

  -- The loop; it ends early once the context is done.
  unfoldable pub scan_rest : ℕ → List Candidate → S × PersistentSummary → S × PersistentSummary
  scan_rest at [] x = x
  scan_rest at (c ∷ cs) (s, t) = scan_unless at c (scan_rest at cs) (s, t) (w.canceled s)

  abbrev pub after_list : PersistentSummary → Answer S (List Candidate) → S × PersistentSummary
  after_list t (s, err e) = (s, add_error (scan_failed e) t)
  after_list t (s, ok cs) = scan_rest (w.now s) cs (s, add_scanned (length cs) t)

  unfoldable pub scan_candidates : S × PersistentSummary → S × PersistentSummary
  scan_candidates (s, t) = after_list t (w.store.list_candidates s)

  abbrev pub after_claim : PersistentSummary → Answer S (Option Task) → Progress S
  after_claim t (s, err e) = returns (s, add_error (claim_failed e) t)
  after_claim t (s, ok none) = returns (s, t)
  after_claim t (s, ok (some job)) = goes_on (execute_job w job (s, add_claimed t))

  abbrev pub claim_unless : S → PersistentSummary → Option Text → Progress S
  claim_unless s t (some e) = returns (s, t)
  claim_unless s t none = after_claim t (
      w.store.claim_job
        (record { owner = w.owner; now = w.now s; lease_until = w.now s + w.config.lease_duration })
        s)

  unfoldable pub process_turn : S × PersistentSummary → Progress S
  process_turn (s, t) = claim_unless s t (w.canceled s)

  abbrev pub resume :
      (S × PersistentSummary → Option (S × PersistentSummary))
      → Progress S
      → Option (S × PersistentSummary)
  resume rest (returns x) = some x
  resume rest (goes_on x) = rest x

  -- The loop, on fuel; `none` is out of fuel.
  unfoldable pub process_due_jobs : ℕ → S × PersistentSummary → Option (S × PersistentSummary)
  process_due_jobs zero x = none
  process_due_jobs (suc fuel) x = resume (process_due_jobs fuel) (process_turn x)

  abbrev pub process_unless :
      ℕ → S × PersistentSummary → Option Text → Option (S × PersistentSummary)
  process_unless fuel x (some e) = some x
  process_unless fuel x none = process_due_jobs fuel x

  abbrev pub scanned_if : Bool → S × PersistentSummary → S × PersistentSummary
  scanned_if true x = scan_candidates x
  scanned_if false x = x

  -- A cycle of a worker that runs no other, without its observer.
  unfoldable pub run_cycle : ℕ → Bool → S → Option (S × PersistentSummary)
  run_cycle fuel scan s =
      let x = scanned_if scan (s, empty_summary) in process_unless fuel x (w.canceled x.0)
