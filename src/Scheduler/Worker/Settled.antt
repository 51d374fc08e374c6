-- ===== src/Scheduler/Worker/Settled.antt =====
-- The execution of a job settles it in the counters of its cycle.
use cert_keeper.Prelude.{
  ℕ, ◌+◌, ◌≤◌, text_eq, Text, Bool, true, false, Option, none, some, Result, ok, err, List, [], ◌∷◌,
  ◌++◌, ◌≡◌, arith, if_either,
}
use cert_keeper.Scheduler.Worker.{
  CycleError, context_done, renewal_failed, update_failed, will_retry, has_stopped, release_failed,
  update_lost, release_lost, Task, Failure, Answer, Reconciliation, PersistentWorker,
  PersistentSummary, add_error, add_claimed, add_succeeded, add_retried, add_failed, add_released,
}
use cert_keeper.Scheduler.Worker.Execute.{
  Renewal, actor_of, after_update, update_claimed_job, after_release, release_canceled_job,
  with_error, may_retry, finish_failed, finish, after_ending, job_canceled, renewal_of, after_turns,
  take_turns, execute_job,
}

-- How many of the errors a test picks.
unfoldable pub tally : (CycleError → ℕ) → List CycleError → ℕ
tally f [] = 0
tally f (e ∷ es) = f e + tally f es

-- The errors that leave a job unsettled.
abbrev pub is_lost : CycleError → ℕ
is_lost (renewal_failed id e) = 1
is_lost (update_failed id e) = 1
is_lost (update_lost id) = 1
is_lost (release_failed id e) = 1
is_lost (release_lost id) = 1
is_lost e = 0

-- The errors of a write that ends a job and fails.
abbrev pub is_unwritten : CycleError → ℕ
is_unwritten (update_failed id e) = 1
is_unwritten (update_lost id) = 1
is_unwritten e = 0

abbrev pub is_retry : CycleError → ℕ
is_retry (will_retry domain e) = 1
is_retry e = 0

abbrev pub is_stop : CycleError → ℕ
is_stop (has_stopped domain e) = 1
is_stop e = 0

abbrev pub is_done : CycleError → ℕ
is_done (context_done e) = 1
is_done e = 0

-- Every job claimed, but those in hand, is counted once, under how it ended or by the one error
-- that left it unsettled; a job counted as retried, failed or released has its error, and an error
-- of a failed attempt has its job, counted or with an end that could not be written.
pub record IsAccounted (in_hand : ℕ) (t : PersistentSummary) : Type 0 where
  pub jobs :
      t.succeeded + t.retried + t.failed + t.released + tally is_lost t.errors + in_hand ≡ t.claimed
  pub retries : t.retried ≤ tally is_retry t.errors
  pub stops : t.failed ≤ tally is_stop t.errors
  pub attempts :
      tally is_retry t.errors + tally is_stop t.errors
      ≤ t.retried + t.failed + tally is_unwritten t.errors
  pub releases : t.released ≤ tally is_done t.errors

tally-snoc :
    (f : CycleError → ℕ) (es : List CycleError) (e : CycleError)
    → tally f (es ++ e ∷ []) ≡ tally f es + f e
unfolding tally
tally-snoc f [] e = omega arith
tally-snoc f (x ∷ es) e = ground (arith, tally-snoc f es e)

-- The same of numbers.
abbrev IsBalanced : ℕ → ℕ → ℕ → ℕ → ℕ → ℕ → PersistentSummary → Type 0
IsBalanced lost unwritten retry stop done n t =
    (t.succeeded + t.retried + t.failed + t.released + lost + n ≡ t.claimed)
    × (t.retried ≤ retry)
    × (t.failed ≤ stop)
    × (retry + stop ≤ t.retried + t.failed + unwritten)
    × (t.released ≤ done)

one_more :
    (n : ℕ) (e : CycleError) (t : PersistentSummary)
    → IsBalanced
        (tally is_lost t.errors + is_lost e)
        (tally is_unwritten t.errors + is_unwritten e)
        (tally is_retry t.errors + is_retry e)
        (tally is_stop t.errors + is_stop e)
        (tally is_done t.errors + is_done e)
        n
        t
    → IsAccounted n (add_error e t)
unfolding add_error
one_more n e t (p, q, r, u, v) = record {
  jobs = rw (tally-snoc is_lost t.errors e) p;
  retries = rw (tally-snoc is_retry t.errors e) q;
  stops = rw (tally-snoc is_stop t.errors e) r;
  attempts =
      rw
        (
          tally-snoc is_retry t.errors e,
          tally-snoc is_stop t.errors e,
          tally-snoc is_unwritten t.errors e,
        )
        u;
  releases = rw (tally-snoc is_done t.errors e) v;
}

two_more :
    (n : ℕ) (d e : CycleError) (t : PersistentSummary)
    → IsBalanced
        (tally is_lost t.errors + is_lost d + is_lost e)
        (tally is_unwritten t.errors + is_unwritten d + is_unwritten e)
        (tally is_retry t.errors + is_retry d + is_retry e)
        (tally is_stop t.errors + is_stop d + is_stop e)
        (tally is_done t.errors + is_done d + is_done e)
        n
        t
    → IsAccounted n (add_error e (add_error d t))
unfolding add_error
two_more n d e t h = one_more n e (add_error d t) (
    rw
      (
        tally-snoc is_lost t.errors d,
        tally-snoc is_retry t.errors d,
        tally-snoc is_stop t.errors d,
        tally-snoc is_unwritten t.errors d,
        tally-snoc is_done t.errors d,
      )
      h)

-- An error that tells nothing of a job.
pub other_error-IsAccounted :
    (n : ℕ) (e : CycleError) (t : PersistentSummary)
    → is_lost e + is_retry e + is_stop e ≡ 0
    → IsAccounted n t
    → IsAccounted n (add_error e t)
other_error-IsAccounted n e t other h = one_more n e t (
  ground (arith, h.jobs, other),
  ground (arith, h.retries),
  ground (arith, h.stops),
  ground (arith, h.attempts, other),
  ground (arith, h.releases),
)

module _ {S : Type 0} (w : PersistentWorker S) where
  -- The end of a failed attempt, written or not.
  after_retry-IsAccounted :
      (id domain message : Text) (t : PersistentSummary) (a : Answer S Bool)
      → IsAccounted 1 t
      → IsAccounted 0
          (with_error w (will_retry domain message) (after_update w id add_retried t a)).1
  unfolding add_retried
  after_retry-IsAccounted id domain message t (s, err x) h = two_more 0 _ _ t (
    ground (arith, h.jobs),
    ground (arith, h.retries),
    ground (arith, h.stops),
    ground (arith, h.attempts),
    ground (arith, h.releases),
  )
  after_retry-IsAccounted id domain message t (s, ok false) h = two_more 0 _ _ t (
    ground (arith, h.jobs),
    ground (arith, h.retries),
    ground (arith, h.stops),
    ground (arith, h.attempts),
    ground (arith, h.releases),
  )
  after_retry-IsAccounted id domain message t (s, ok true) h = one_more 0 _ (add_retried t) (
    ground (arith, h.jobs),
    ground (arith, h.retries),
    ground (arith, h.stops),
    ground (arith, h.attempts),
    ground (arith, h.releases),
  )

  after_stop-IsAccounted :
      (id domain message : Text) (t : PersistentSummary) (a : Answer S Bool)
      → IsAccounted 1 t
      → IsAccounted 0
          (with_error w (has_stopped domain message) (after_update w id add_failed t a)).1
  unfolding add_failed
  after_stop-IsAccounted id domain message t (s, err x) h = two_more 0 _ _ t (
    ground (arith, h.jobs),
    ground (arith, h.retries),
    ground (arith, h.stops),
    ground (arith, h.attempts),
    ground (arith, h.releases),
  )
  after_stop-IsAccounted id domain message t (s, ok false) h = two_more 0 _ _ t (
    ground (arith, h.jobs),
    ground (arith, h.retries),
    ground (arith, h.stops),
    ground (arith, h.attempts),
    ground (arith, h.releases),
  )
  after_stop-IsAccounted id domain message t (s, ok true) h = one_more 0 _ (add_failed t) (
    ground (arith, h.jobs),
    ground (arith, h.retries),
    ground (arith, h.stops),
    ground (arith, h.attempts),
    ground (arith, h.releases),
  )

  after_release-IsAccounted :
      (id cause : Text) (t : PersistentSummary) (a : Answer S Bool)
      → IsAccounted 1 t
      → IsAccounted 0 (with_error w (context_done cause) (after_release w id t a)).1
  unfolding add_released
  after_release-IsAccounted id cause t (s, err x) h = two_more 0 _ _ t (
    ground (arith, h.jobs),
    ground (arith, h.retries),
    ground (arith, h.stops),
    ground (arith, h.attempts),
    ground (arith, h.releases),
  )
  after_release-IsAccounted id cause t (s, ok false) h = two_more 0 _ _ t (
    ground (arith, h.jobs),
    ground (arith, h.retries),
    ground (arith, h.stops),
    ground (arith, h.attempts),
    ground (arith, h.releases),
  )
  after_release-IsAccounted id cause t (s, ok true) h = one_more 0 _ (add_released t) (
    ground (arith, h.jobs),
    ground (arith, h.retries),
    ground (arith, h.stops),
    ground (arith, h.attempts),
    ground (arith, h.releases),
  )

  after_success-IsAccounted :
      (id : Text) (t : PersistentSummary) (a : Answer S Bool)
      → IsAccounted 1 t
      → IsAccounted 0 (after_update w id add_succeeded t a).1
  unfolding add_succeeded
  after_success-IsAccounted id t (s, err x) h = one_more 0 _ t (
    ground (arith, h.jobs),
    ground (arith, h.retries),
    ground (arith, h.stops),
    ground (arith, h.attempts),
    ground (arith, h.releases),
  )
  after_success-IsAccounted id t (s, ok false) h = one_more 0 _ t (
    ground (arith, h.jobs),
    ground (arith, h.retries),
    ground (arith, h.stops),
    ground (arith, h.attempts),
    ground (arith, h.releases),
  )
  after_success-IsAccounted id t (s, ok true) h = record {
    jobs = ground (arith, h.jobs);
    retries = h.retries;
    stops = h.stops;
    attempts = h.attempts;
    releases = h.releases;
  }

  finish-IsAccounted :
      (job : Task) (canceled renewal : Option Text) (r : Result Failure (Unit {0})) (s : S)
      (t : PersistentSummary)
      → IsAccounted 1 t
      → IsAccounted 0 (finish w job canceled renewal r (s, t)).1
  unfolding release_canceled_job update_claimed_job finish_failed
  finish-IsAccounted job (some cause) renewal r s t h = after_release-IsAccounted job.id cause t _ h
  finish-IsAccounted job none (some e) r s t h = one_more 0 (renewal_failed job.id e) t (
    ground (arith, h.jobs),
    ground (arith, h.retries),
    ground (arith, h.stops),
    ground (arith, h.attempts),
    ground (arith, h.releases),
  )
  finish-IsAccounted job none none (ok u) s t h = after_success-IsAccounted job.id t _ h
  finish-IsAccounted job none none (err e) s t h =
      if_either (λ (x : S × PersistentSummary). IsAccounted 0 x.1) (may_retry w job e)
        (after_retry-IsAccounted job.id job.candidate.domain e.message t _ h)
        (after_stop-IsAccounted job.id job.candidate.domain e.message t _ h)

  after_ending-IsAccounted :
      (job : Task) (renewal : Renewal) (t : PersistentSummary) (x : S × Result Failure (Unit {0}))
      → IsAccounted 1 t
      → IsAccounted 0 (after_ending w job renewal t x).1
  after_ending-IsAccounted job renewal t (s, result) h =
      finish-IsAccounted (record job { lease_version = renewal.version }) (w.canceled s)
        renewal.error result s t h

  after_turns-IsAccounted :
      (job : Task) (r : Reconciliation S) (t : PersistentSummary) (x : S × Renewal)
      → IsAccounted 1 t
      → IsAccounted 0 (after_turns w job r t x).1
  after_turns-IsAccounted job r t (s, renewal) h =
      after_ending-IsAccounted job renewal t (r.ending (job_canceled w s renewal) s) h

  pub execute_job-IsAccounted :
      (job : Task) (s : S) (t : PersistentSummary)
      → IsAccounted 1 t
      → IsAccounted 0 (execute_job w job (s, t)).1
  unfolding execute_job
  execute_job-IsAccounted job s t h =
      let r = w.reconcile_job (actor_of w job) job s in
      after_turns-IsAccounted job r t (take_turns w job.id r.turns (s, renewal_of w job)) h

  pub add_claimed-IsAccounted :
      (t : PersistentSummary) → IsAccounted 0 t → IsAccounted 1 (add_claimed t)
  unfolding add_claimed
  add_claimed-IsAccounted t h = record {
    jobs = ground (arith, h.jobs);
    retries = h.retries;
    stops = h.stops;
    attempts = h.attempts;
    releases = h.releases;
  }
