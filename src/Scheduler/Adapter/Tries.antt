-- ===== src/Scheduler/Adapter/Tries.antt =====
-- The tries that are left to the jobs, under the operations that the worker and the service call.
use cert_keeper.Prelude.{
  is_blank, ℕ, ◌+◌, ◌/◌, ◌≤◌, ◌<◌, Text, Bool, true, false, ◌||◌, ◌==◌, nat_eq, text_eq, Option,
  none, some, ok, any, ◌≡◌, refl, arith, if_either, Bool-cases, inl, inr,
}
use cert_keeper.Prelude.Int.{ℤ, is_negative, pos_part}
use cert_keeper.Store.Schema.{
  Db, Job, JobStatus, GenerationStatus, GenerationArtifact, GenerationRequest, Outcome,
}
use cert_keeper.Store.Jobs.Values.{is_queued, is_running, update_one, valid_job_status}
use cert_keeper.Store.Jobs.Lease.{
  claim, renew_lease, retry, retry_at, retried, is_held_by, duration_seconds, nanos, not_positive,
}
use cert_keeper.Store.Jobs.Status.{with_status, update_certificate_job_status}
use cert_keeper.Store.Jobs.WellFormed.{
  IsWellFormed, update_status-IsWellFormed, retry_at-IsWellFormed,
}
use cert_keeper.Store.Jobs.Granted.{total, total-update_le, tries_left, claim_row-tries_left}
use cert_keeper.Store.Generations.{
  update_generation_status, update_generation_artifact, create_certificate_generation,
  create_numbered, create_for_job, insert_generation,
}
use cert_keeper.Service.Execute.Keeps.{IsKept}

abbrev pub tries : Db → ℕ
tries db = total tries_left db.jobs

-- The table of jobs is well-formed, with no more tries left than that.
abbrev pub Spends : ℕ → Db → Type 0
Spends bound db = IsWellFormed db × (tries db ≤ bound)

pub unchanged : (db : Db) → tries db ≤ tries db
unchanged db = omega arith

same-Spends : (bound : ℕ) (s t : Db) → t.jobs ≡ s.jobs → Spends bound s → Spends bound t
same-Spends bound s t e (w, le) =
    (record { apart = rw e w.apart; bounded = rw e w.bounded }, rw e le)

update_one-tries :
    (db : Db) (p : Job → Bool) (f : Job → Job)
    → ((j : Job) → p j ≡ true → tries_left (f j) ≤ tries_left j)
    → tries (update_one db p f).0 ≤ tries db
update_one-tries db p f h = elim (Bool-cases (any p db.jobs)) [
  | inl e ↦ rw e (total-update_le tries_left p f db.jobs h)
  | inr n ↦ rw n (omega arith)
]

ended-tries :
    (now : ℕ) (status : JobStatus) (message : Text) (j : Job)
    → (is_queued status || is_running status) ≡ false
    → tries_left (with_status now status message j) ≤ tries_left j
unfolding with_status
ended-tries now status message j h = rw h (omega arith)

pub update_status-tries :
    (db : Db) (now : ℕ) (id : Text) (status : JobStatus) (message : Text)
    → (is_queued status || is_running status) ≡ false
    → tries (update_certificate_job_status db now id status message).0 ≤ tries db
unfolding update_certificate_job_status
update_status-tries db now id status message h =
    if_either (λ (o : Outcome (Unit {0})). tries o.0 ≤ tries db) (valid_job_status status)
      (update_one-tries db (λ j. j.id == id) (with_status now status message)
        (λ j _. ended-tries now status message j h))
      (omega arith)

pub renewed-tries :
    (db : Db) (now : ℕ) (id owner : Text) (d : ℤ)
    → tries (renew_lease db now id owner d).0 ≤ tries db
unfolding renew_lease
renewed-tries db now id owner d =
    if_either (λ (o : Outcome (Unit {0})). tries o.0 ≤ tries db) _ (unchanged db)
      (update_one-tries db (is_held_by id owner now) _ (λ j _. omega arith))

retried-tries :
    (now next : ℕ) (id owner code message : Text) (j : Job)
    → is_held_by id owner now j ≡ true
    → tries_left (retried now next code message j) ≤ tries_left j
unfolding retried
retried-tries now next id owner code message j h = ground arith

retry_at-tries :
    (db : Db) (now : ℕ) (id owner code message : Text) (next : ℕ)
    → tries (retry_at db now id owner code message next).0 ≤ tries db
unfolding retry_at
retry_at-tries db now id owner code message next =
    if_either (λ (o : Outcome (Unit {0})). tries o.0 ≤ tries db) _ (unchanged db)
      (update_one-tries db (is_held_by id owner now) (retried now next code message)
        (λ j. retried-tries now next id owner code message j))

update_generation-same_jobs :
    (db : Db) (now id : ℕ) (status : GenerationStatus) (certificate key message : Text)
    (not_before not_after : Option ℕ)
    → (update_generation_status db now id status certificate key message not_before
        not_after).0.jobs
      ≡ db.jobs
unfolding update_generation_status
update_generation-same_jobs db now id status certificate key message not_before not_after =
    ground arith

update_artifact-same_jobs :
    (db : Db) (now id : ℕ) (a : GenerationArtifact)
    → (update_generation_artifact db now id a).0.jobs ≡ db.jobs
unfolding update_generation_artifact
update_artifact-same_jobs db now id a = ground arith

create_generation-same_jobs :
    (db : Db) (now : ℕ) (r : Option GenerationRequest)
    → (create_certificate_generation db now r).0.jobs ≡ db.jobs
unfolding create_certificate_generation create_numbered create_for_job insert_generation
create_generation-same_jobs db now none = refl
create_generation-same_jobs db now (some r) = ground arith

below : (bound a b : ℕ) → a ≤ b → b ≤ bound → a ≤ bound
below bound a b h k = omega arith

pub Spends-IsKept : (bound now : ℕ) → IsKept (Spends bound) now
unfolding retry
Spends-IsKept bound now = record {
  job_status = λ db id status message ends (w, le). (
    update_status-IsWellFormed db now id message w status message,
    below bound _ _ (update_status-tries db now id status message ends) le,
  );
  retries = λ db instant id owner code message backoff (w, le).
      if_either (λ (o : Outcome (Unit {0})). Spends bound o.0) (is_negative backoff) (w, le)
        (
          retry_at-IsWellFormed db (instant / nanos) id owner w code message
              ((instant + pos_part backoff) / nanos),
          below bound _ _
              (retry_at-tries db (instant / nanos) id owner code message
                ((instant + pos_part backoff) / nanos))
              le,
        );
  generation_status = λ db id status certificate key message not_before not_after k.
      same-Spends bound db _
        (update_generation-same_jobs db now id status certificate key message not_before not_after)
        k;
  artifact = λ db id a k. same-Spends bound db _ (update_artifact-same_jobs db now id a) k;
  creates = λ db r k. same-Spends bound db _ (create_generation-same_jobs db now r) k;
}

pub claim-tries :
    (db db1 : Db) (now : ℕ) (owner : Text) (d : ℤ) (k : Job)
    → IsWellFormed db
    → claim db now owner d ≡ (db1, ok (some k))
    → tries db1 < tries db
unfolding claim
claim-tries db db1 now owner d k w h = elim (Bool-cases (is_blank owner || not_positive d)) [
  | inl refused ↦ let none_claimed = rw refused at h in absurd cc
  | inr checked ↦
      let claimed = rw checked at h in
      claim_row-tries_left db db1 owner (now + duration_seconds (pos_part d)) now k w claimed
]
