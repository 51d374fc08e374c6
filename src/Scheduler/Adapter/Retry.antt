-- ===== src/Scheduler/Adapter/Retry.antt =====
-- What the server's worker makes of a job that the service gave another try.
use cert_keeper.Prelude.{
  ℕ, Text, Bool, true, false, ◌==◌, nat_eq, text_eq, Option, none, some, Result, ok, err, List, [],
  ◌∷◌, any, is_empty, ◌≡◌, refl, ap, ◌∙◌, arith, All, if_either, Bool-cases, inl, inr,
}
use cert_keeper.Store.Sql.{update}
use cert_keeper.Store.Schema.{Db, Job, failed, Outcome}
use cert_keeper.Store.Jobs.Status.{with_status, update_certificate_job_status, get_certificate_job}
use cert_keeper.Service.Execute.{Answers, execute_claimed_v2_job}
use cert_keeper.Scheduler.{Config, classify_error}
use cert_keeper.Scheduler.Worker.{Task, Failure, JobUpdate, Answer, Turn, PersistentSummary}
use cert_keeper.Scheduler.Worker.Execute.{
  Renewal, take_turns, execute_job, finish, finish_failed, may_retry, update_claimed_job,
  after_update, after_ending, renewal_of,
}
use cert_keeper.Scheduler.Adapter.{
  World, Certs, on_db, answer, update_job, plain, server_worker, reconcile_job, seconds, executed,
  reconcile_read, no_owner_message, unread_message,
}

-- Every row with the id is failed.
abbrev pub IsFailed : Text → Db → Type 0
IsFailed id db = All (λ (j : Job). (j.id == id) ≡ true → j.status ≡ failed) db.jobs

update-IsFailed :
    (id : Text) (now : ℕ) (message : Text) (js : List Job)
    → All
        (λ (j : Job). (j.id == id) ≡ true → j.status ≡ failed)
        (update (λ j. j.id == id) (with_status now failed message) js)
unfolding with_status
update-IsFailed id now message [] = tt
update-IsFailed id now message (j ∷ js) = (ground arith, update-IsFailed id now message js)

none-IsFailed :
    (id : Text) (js : List Job)
    → any (λ (j : Job). j.id == id) js ≡ false
    → All (λ (j : Job). (j.id == id) ≡ true → j.status ≡ failed) js
none-IsFailed id [] h = tt
none-IsFailed id (j ∷ js) h = (λ e. absurd (ground arith), none-IsFailed id js (ground arith))

update_status-IsFailed :
    (db : Db) (now : ℕ) (id message : Text)
    → IsFailed id (update_certificate_job_status db now id failed message).0
unfolding update_certificate_job_status
update_status-IsFailed db now id message = elim (Bool-cases (any (λ j. j.id == id) db.jobs)) [
  | inl found ↦ rw found (update-IsFailed id now message db.jobs)
  | inr missing ↦ rw missing (none-IsFailed id db.jobs missing)
]

answer-db :
    {A B : Type 0} (certs : Certs) (s : World) (f : A → B) (out : Outcome A)
    → (answer f (on_db certs s out)).0.db ≡ out.0
answer-db certs s f (db, ok a) = refl
answer-db certs s f (db, err e) = refl

update_job-IsFailed :
    (certs : Certs) (u : JobUpdate) (s : World)
    → u.status ≡ failed
    → IsFailed u.id (update_job certs u s).0.db
unfolding update_job
update_job-IsFailed certs u s e =
    rw
      (
        e,
        answer-db certs s (λ (x : Unit {0}). true)
            (update_certificate_job_status s.db (seconds s) u.id failed u.last_error),
      )
      (update_status-IsFailed s.db (seconds s) u.id u.last_error)

-- The errors of the service, and that it does not touch the cancellation.
executed-plain :
    (s : World) (out : Db × Result Text (Unit {0})) {e : Failure}
    → (executed s out).1 ≡ err e
    → (m : Text) × (e ≡ plain m)
executed-plain s (db, ok u) h = absurd cc
executed-plain s (db, err m) h = (m, cc)

executed-canceled :
    (s : World) (out : Db × Result Text (Unit {0})) → (executed s out).0.canceled ≡ s.canceled
executed-canceled s (db, ok u) = refl
executed-canceled s (db, err m) = refl

reconcile_read-plain :
    (a : Answers) (owner : Text) (s : World) (row : Option Job) {e : Failure}
    → (reconcile_read a owner s row).1 ≡ err e
    → (m : Text) × (e ≡ plain m)
reconcile_read-plain a owner s none h = (unread_message, cc)
reconcile_read-plain a owner s (some job) {e} h = elim (Bool-cases (is_empty owner)) [
  | inl blank ↦ let h' = rw blank at h in (no_owner_message, cc)
  | inr given ↦
      let h' = rw given at h in
      executed-plain s (execute_claimed_v2_job a (seconds s) owner job s.db) {e = e} h'
]

reconcile_read-canceled :
    (a : Answers) (owner : Text) (s : World) (row : Option Job)
    → (reconcile_read a owner s row).0.canceled ≡ s.canceled
reconcile_read-canceled a owner s none = refl
reconcile_read-canceled a owner s (some job) =
    if_either (λ (x : World × Result Failure (Unit {0})). x.0.canceled ≡ s.canceled)
      (is_empty owner) refl
      (executed-canceled s (execute_claimed_v2_job a (seconds s) owner job s.db))

module _ (certs : Certs) (config : Config) (owner : Text) (print : ℕ → Text)
    (meanwhile : Task → World → List (Turn World)) (answers : Task → World → Answers) where
  after_update-same :
      (id : Text) (f : PersistentSummary → PersistentSummary) (t : PersistentSummary)
      (a : Answer World Bool)
      → (after_update (server_worker certs config owner print meanwhile answers) id f t a).0 ≡ a.0
  after_update-same id f t (s, ok true) = refl
  after_update-same id f t (s, ok false) = refl
  after_update-same id f t (s, err e) = refl

  may_retry-plain :
      (job : Task) (m : Text)
      → may_retry (server_worker certs config owner print meanwhile answers) job (plain m) ≡ false
  unfolding may_retry classify_error
  may_retry-plain job m = ground arith

  finish-IsFailed :
      (job : Task) (m : Text) (s : World) (t : PersistentSummary)
      → IsFailed job.id
          (finish_failed
            (server_worker certs config owner print meanwhile answers)
            job
            (plain m)
            (s, t)).0.db
  unfolding finish_failed update_claimed_job server_worker
  finish-IsFailed job m s t =
      rw (may_retry-plain job m)
        (rw (after_update-same job.id _ t _) (update_job-IsFailed certs _ s refl))

  ended-IsFailed :
      (job : Task) (m : Text) (s : World) (t : PersistentSummary) (canceled renewal : Option Text)
      (r : Result Failure (Unit {0}))
      → canceled ≡ none
      → renewal ≡ none
      → r ≡ err (plain m)
      → IsFailed job.id
          (finish
            (server_worker certs config owner print meanwhile answers)
            job
            canceled
            renewal
            r
            (s, t)).0.db
  ended-IsFailed job m s t none none (err e) h k l =
      let same : e ≡ plain m = cc in rw same (finish-IsFailed job m s t)
  ended-IsFailed job m s t none none (ok u) h k l = absurd cc
  ended-IsFailed job m s t none (some x) r h k l = absurd cc
  ended-IsFailed job m s t (some x) renewal r h k l = absurd cc

  after_ending-IsFailed :
      (job : Task) (renewal : Renewal) (t : PersistentSummary)
      (x : World × Result Failure (Unit {0})) {e : Failure}
      → renewal.error ≡ none
      → x.0.canceled ≡ none
      → x.1 ≡ err e
      → ((m : Text) × (e ≡ plain m))
      → IsFailed job.id
          (after_ending
            (server_worker certs config owner print meanwhile answers)
            job
            renewal
            t
            x).0.db
  unfolding server_worker
  after_ending-IsFailed job renewal t (s, result) no_error going failing (m, is_plain) =
      ended-IsFailed (record job { lease_version = renewal.version }) m s t s.canceled renewal.error
        result going no_error (failing ∙ ap err is_plain)

  -- When the lease was renewed without an error and nothing cancelled the context, a job whose
  -- execution by the service returns an error is failed when the server's worker is done with it:
  -- also if the error is one that the service retries, and has queued the job again for.
  pub execute_job-IsFailed :
      (job : Task) (s s' : World) (renewal : Renewal) (t : PersistentSummary) (e : Failure)
      → take_turns
          (server_worker certs config owner print meanwhile answers)
          job.id
          (meanwhile job s)
          (s, renewal_of (server_worker certs config owner print meanwhile answers) job)
        ≡ (s', renewal)
      → renewal.error ≡ none
      → s'.canceled ≡ none
      → (reconcile_job (answers job s') job s').1 ≡ err e
      → IsFailed job.id
          (execute_job (server_worker certs config owner print meanwhile answers) job (s, t)).0.db
  unfolding execute_job server_worker reconcile_job
  execute_job-IsFailed job s s' renewal t e turned no_error going failing = rw turned (
      after_ending-IsFailed job renewal t
        (reconcile_read (answers job s') job.lease_owner s' (get_certificate_job s'.db job.id))
        {e = e} no_error (reconcile_read-canceled (answers job s') job.lease_owner s' _ ∙ going)
        failing (reconcile_read-plain (answers job s') job.lease_owner s' _ {e = e} failing))
