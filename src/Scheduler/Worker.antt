-- ===== src/Scheduler/Worker.antt =====
-- internal/scheduler/persistent.go: the jobs of the persistent worker, the contract of its store,
-- and the counters and errors of a cycle. Instants and durations are in nanoseconds.
pub mod Execute
pub mod Cycle
pub mod Settled
pub mod Accounts
pub mod Ends
use cert_keeper.Prelude.{ℕ, ◌+◌, Text, Bool, Option, none, some, Result, List, [], ◌∷◌, ◌++◌, codes}
use cert_keeper.Store.Schema.{JobStatus, other}
use cert_keeper.Scheduler.{Config, Evidence}

-- The worker's statuses are strings of the store's statuses, and this one.
abbrev pub retrying : JobStatus
retrying = other (codes "retrying")

pub record Actor : Type 0 where
  pub id : Text
  pub kind : Text

pub record Candidate : Type 0 where
  pub domain : Text
  pub challenge_mode : Text

pub record JobSpec : Type 0 where
  pub candidate : Candidate
  pub actor : Actor
  pub idempotency_key : Text
  pub max_attempts : ℕ
  pub created_at : ℕ

-- `Job`, without the fields that the worker does not read.
pub record Task : Type 0 where
  pub id : Text
  pub candidate : Candidate
  pub actor : Actor
  pub status : JobStatus
  pub attempts : ℕ
  pub max_attempts : ℕ
  pub lease_owner : Text
  pub lease_version : ℕ

pub record ClaimRequest : Type 0 where
  pub owner : Text
  pub now : ℕ
  pub lease_until : ℕ

pub record LeaseRenewal : Type 0 where
  pub id : Text
  pub owner : Text
  pub now : ℕ
  pub lease_version : ℕ
  pub lease_until : ℕ

-- `available_at` is `none` where the field is left at the zero time.
pub record JobUpdate : Type 0 where
  pub id : Text
  pub owner : Text
  pub now : ℕ
  pub lease_version : ℕ
  pub status : JobStatus
  pub available_at : Option ℕ
  pub last_error : Text

pub record SkipRecord : Type 0 where
  pub candidate : Candidate
  pub actor : Actor
  pub created_at : ℕ

-- An operation of the store, its error by its text.
abbrev pub Answer : Type 0 → Type 0 → Type 0
Answer S A = S × Result Text A

-- The store's state is part of `S`.
pub record PersistentStore (S : Type 0) : Type 0 where
  pub list_candidates : S → Answer S (List Candidate)
  pub create_job : JobSpec → S → Answer S (Task × Bool)
  pub claim_job : ClaimRequest → S → Answer S (Option Task)
  pub renew_lease : LeaseRenewal → S → Answer S (ℕ × Bool)
  pub update_job : JobUpdate → S → Answer S Bool
  pub record_skipped_candidate : SkipRecord → S → Answer S (Unit {0})

-- An error of the reconciler: what `ClassifyError` finds in it, and its text.
pub record Failure : Type 0 where
  pub evidence : Evidence
  pub message : Text

-- What happens while a job is reconciled: the ticker of the lease fires, or the reconciler does a
-- part of its work, knowing whether its context is cancelled.
pub data Turn (S : Type 0) : Type 0 where
  tick : Turn S
  work : (Bool → S → S) → Turn S

-- A reconciliation is its turns, in the order in which they happen, and the work that ends it. The
-- value of a result, which the worker hands to the store unread, is left out.
pub record Reconciliation (S : Type 0) : Type 0 where
  pub turns : List (Turn S)
  pub ending : Bool → S → S × Result Failure (Unit {0})

-- The worker with what it is given: store, reconciler, configuration and clock. `canceled` is
-- `ctx.Err()`, and `print` writes a number in decimal.
pub record PersistentWorker (S : Type 0) : Type 0 where
  pub store : PersistentStore S
  pub reconcile_job : Actor → Task → S → Reconciliation S
  pub config : Config
  pub owner : Text
  pub actor : Actor
  pub now : S → ℕ
  pub canceled : S → Option Text
  pub print : ℕ → Text

-- The errors that a cycle collects, with the domain or the id that they name.
pub data CycleError : Type 0 where
  scan_failed claim_failed context_done : Text → CycleError
  skip_failed create_failed renewal_failed update_failed will_retry has_stopped release_failed :
      Text → Text → CycleError
  update_lost release_lost : Text → CycleError

-- `PersistentSummary` and the errors of the recorder, without the instants.
pub record PersistentSummary : Type 0 where
  pub scanned : ℕ
  pub created : ℕ
  pub skipped : ℕ
  pub claimed : ℕ
  pub succeeded : ℕ
  pub retried : ℕ
  pub failed : ℕ
  pub released : ℕ
  pub errors : List CycleError

abbrev pub empty_summary : PersistentSummary
empty_summary = record {
  scanned = 0;
  created = 0;
  skipped = 0;
  claimed = 0;
  succeeded = 0;
  retried = 0;
  failed = 0;
  released = 0;
  errors = [];
}

unfoldable pub add_error : CycleError → PersistentSummary → PersistentSummary
add_error e t = record t { errors = t.errors ++ e ∷ [] }

unfoldable pub add_scanned : ℕ → PersistentSummary → PersistentSummary
add_scanned count t = record t { scanned = t.scanned + count }

unfoldable pub add_created : PersistentSummary → PersistentSummary
add_created t = record t { created = t.created + 1 }

unfoldable pub add_skipped : PersistentSummary → PersistentSummary
add_skipped t = record t { skipped = t.skipped + 1 }

unfoldable pub add_claimed : PersistentSummary → PersistentSummary
add_claimed t = record t { claimed = t.claimed + 1 }

unfoldable pub add_succeeded : PersistentSummary → PersistentSummary
add_succeeded t = record t { succeeded = t.succeeded + 1 }

unfoldable pub add_retried : PersistentSummary → PersistentSummary
add_retried t = record t { retried = t.retried + 1 }

unfoldable pub add_failed : PersistentSummary → PersistentSummary
add_failed t = record t { failed = t.failed + 1 }

unfoldable pub add_released : PersistentSummary → PersistentSummary
add_released t = record t { released = t.released + 1 }
