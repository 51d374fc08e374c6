-- ===== src/Scheduler/Worker/Execute.antt =====
-- internal/scheduler/persistent.go: `executeJob` with the renewal of its lease, and how its result
-- is written back.
use cert_keeper.Prelude.{
  ℕ, ◌+◌, ◌==◌, nat_eq, Text, Bool, true, false, ◌&&◌, ◌||◌, ltb, Option, none, some, Result, ok,
  err, List, [], ◌∷◌, is_empty, if◌then◌else◌,
}
use cert_keeper.Store.Schema.{JobStatus, queued, succeeded, failed}
use cert_keeper.Scheduler.{
  ErrorClass, temporary, permanent_challenge, permanent, classify_error, backoff,
}
use cert_keeper.Scheduler.Worker.{
  CycleError, Actor, Task, JobUpdate, Answer, Failure, Turn, tick, work, Reconciliation,
  PersistentWorker, PersistentSummary, add_error, add_succeeded, add_retried, add_failed,
  add_released, context_done, renewal_failed, update_failed, update_lost, release_failed,
  release_lost, will_retry, has_stopped, retrying,
}

-- `currentVersion` of the goroutine that renews a lease, and the error that ended it.
pub record Renewal : Type 0 where
  pub version : ℕ
  pub error : Option Text

abbrev pub is_set : Option Text → Bool
is_set none = false
is_set (some e) = true

-- A class that is worth another attempt.
abbrev pub is_transient : ErrorClass → Bool
is_transient temporary = true
is_transient permanent_challenge = true
is_transient permanent = false

-- "lease 已丢失", in UTF-8.
abbrev pub lease_lost : Text
lease_lost =
    108 ∷ 101 ∷ 97 ∷ 115 ∷ 101 ∷ 32 ∷ 229 ∷ 183 ∷ 178 ∷ 228 ∷ 184 ∷ 162 ∷ 229 ∷ 164 ∷ 177 ∷ []

module _ {S : Type 0} (w : PersistentWorker S) where
  -- What the answer to a renewal makes of the goroutine's state.
  abbrev pub after_renewal : Renewal → Answer S (ℕ × Bool) → S × Renewal
  after_renewal r (s, err e) = (s, record r { error = some e })
  after_renewal r (s, ok (version, true)) = (s, record { version = version; error = none })
  after_renewal r (s, ok (version, false)) = (s, record r { error = some lease_lost })

  -- A tick for a goroutine that still runs: a context that is done ends it.
  abbrev pub renew : Text → Renewal → S → Option Text → S × Renewal
  renew id r s (some e) = (s, record r { error = some e })
  renew id r s none = after_renewal r (
      w.store.renew_lease
        (record {
          id = id;
          owner = w.owner;
          now = w.now s;
          lease_version = r.version;
          lease_until = w.now s + w.config.lease_duration;
        })
        s)

  abbrev pub on_tick : Text → S → Renewal → S × Renewal
  on_tick id s r = if is_set r.error then (s, r) else renew id r s (w.canceled s)

  -- Whether the context of the job is cancelled: by its parent, or by a renewal that failed.
  abbrev pub job_canceled : S → Renewal → Bool
  job_canceled s r = is_set (w.canceled s) || is_set r.error

  abbrev pub take_turn : Text → Turn S → S × Renewal → S × Renewal
  take_turn id tick (s, r) = on_tick id s r
  take_turn id (work f) (s, r) = (f (job_canceled s r) s, r)

  unfoldable pub take_turns : Text → List (Turn S) → S × Renewal → S × Renewal
  take_turns id [] x = x
  take_turns id (turn ∷ turns) x = take_turns id turns (take_turn id turn x)

  -- `updateClaimedJob` after the store's answer.
  abbrev pub after_update :
      Text
      → (PersistentSummary → PersistentSummary)
      → PersistentSummary
      → Answer S Bool
      → S × PersistentSummary
  after_update id applied t (s, err e) = (s, add_error (update_failed id e) t)
  after_update id applied t (s, ok false) = (s, add_error (update_lost id) t)
  after_update id applied t (s, ok true) = (s, applied t)

  unfoldable pub update_claimed_job :
      JobUpdate
      → (PersistentSummary → PersistentSummary)
      → S × PersistentSummary
      → S × PersistentSummary
  update_claimed_job update applied (s, t) =
      after_update update.id applied t (w.store.update_job update s)

  abbrev pub after_release : Text → PersistentSummary → Answer S Bool → S × PersistentSummary
  after_release id t (s, err e) = (s, add_error (release_failed id e) t)
  after_release id t (s, ok false) = (s, add_error (release_lost id) t)
  after_release id t (s, ok true) = (s, add_released t)

  abbrev pub update_of : Task → S → JobStatus → Option ℕ → Text → JobUpdate
  update_of job s status available_at last_error = record {
    id = job.id;
    owner = w.owner;
    now = w.now s;
    lease_version = job.lease_version;
    status = status;
    available_at = available_at;
    last_error = last_error;
  }

  unfoldable pub release_canceled_job : Task → Text → S × PersistentSummary → S × PersistentSummary
  release_canceled_job job cause (s, t) =
      after_release job.id t (w.store.update_job (update_of job s queued (some (w.now s)) cause) s)

  abbrev pub with_error : CycleError → S × PersistentSummary → S × PersistentSummary
  with_error e (s, t) = (s, add_error e t)

  abbrev pub attempts_allowed : Task → ℕ
  attempts_allowed job = if job.max_attempts == 0 then w.config.max_attempts else job.max_attempts

  -- `job.Attempts < maxAttempts` and the class of the error.
  unfoldable pub may_retry : Task → Failure → Bool
  may_retry job e =
      ltb job.attempts (attempts_allowed job) && is_transient (classify_error (some e.evidence))

  -- The end of `executeJob` on an error of the reconciler.
  unfoldable pub finish_failed : Task → Failure → S × PersistentSummary → S × PersistentSummary
  finish_failed job e (s, t) =
      if may_retry job e
      then with_error (will_retry job.candidate.domain e.message) (
          update_claimed_job
            (update_of job s retrying (some (w.now s + backoff w.config job.attempts)) e.message)
            add_retried (s, t))
      else with_error (has_stopped job.candidate.domain e.message)
          (update_claimed_job (update_of job s failed none e.message) add_failed (s, t))

  abbrev pub finish :
      Task
      → Option Text
      → Option Text
      → Result Failure (Unit {0})
      → S × PersistentSummary
      → S × PersistentSummary
  finish job (some cause) e result x =
      with_error (context_done cause) (release_canceled_job job cause x)
  finish job none (some e) result x = with_error (renewal_failed job.id e) x
  finish job none none (ok u) (s, t) =
      update_claimed_job (update_of job s succeeded none []) add_succeeded (s, t)
  finish job none none (err e) x = finish_failed job e x

  -- The job's actor, or the worker's.
  abbrev pub actor_of : Task → Actor
  actor_of job = if is_empty job.actor.id then w.actor else job.actor

  abbrev pub after_ending :
      Task → Renewal → PersistentSummary → S × Result Failure (Unit {0}) → S × PersistentSummary
  after_ending job renewal t (s, result) =
      finish (record job { lease_version = renewal.version }) (w.canceled s) renewal.error result
        (s, t)

  abbrev pub after_turns :
      Task → Reconciliation S → PersistentSummary → S × Renewal → S × PersistentSummary
  after_turns job r t (s, renewal) =
      after_ending job renewal t (r.ending (job_canceled s renewal) s)

  -- How the goroutine that renews the job's lease starts.
  abbrev pub renewal_of : Task → Renewal
  renewal_of job = record { version = job.lease_version; error = none }

  unfoldable pub execute_job : Task → S × PersistentSummary → S × PersistentSummary
  execute_job job (s, t) =
      let r = w.reconcile_job (actor_of job) job s in
      after_turns job r t (take_turns job.id r.turns (s, renewal_of job))
