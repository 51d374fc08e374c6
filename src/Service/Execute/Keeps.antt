-- ===== src/Service/Execute/Keeps.antt =====
-- What holds of the tables through an execution.
use cert_keeper.Prelude.{
  ℕ, ◌||◌, Text, Bool, true, false, Option, none, some, Result, ok, err, List, [], ◌∷◌, ◌++◌, ◌≡◌,
  refl, if_either,
}
use cert_keeper.Prelude.Int.{ℤ}
use cert_keeper.Store.Schema.{
  Db, Job, JobStatus, Generation, GenerationStatus, GenerationArtifact, GenerationRequest, Outcome,
}
use cert_keeper.Store.Jobs.Values.{is_queued, is_running}
use cert_keeper.Store.Jobs.Lease.{retry}
use cert_keeper.Store.Jobs.Status.{update_certificate_job_status}
use cert_keeper.Store.Generations.{
  update_generation_status, update_generation_artifact, create_certificate_generation,
}
use cert_keeper.Service.Execute

-- What the operations that an execution calls keep; of jobs it sets no status but an end.
pub record IsKept (P : Db → Type 0) (now : ℕ) : Type 0 where
  pub job_status :
      (db : Db) (id : Text) (status : JobStatus) (message : Text)
      → (is_queued status || is_running status) ≡ false
      → P db
      → P (update_certificate_job_status db now id status message).0
  pub retries :
      (db : Db) (instant : ℕ) (id owner code message : Text) (backoff : ℤ)
      → P db
      → P (retry db instant id owner code message backoff).0
  pub generation_status :
      (db : Db) (id : ℕ) (status : GenerationStatus) (certificate key message : Text)
      (not_before not_after : Option ℕ)
      → P db
      → P (update_generation_status db now id status certificate key message not_before not_after).0
  pub artifact :
      (db : Db) (id : ℕ) (artifact : GenerationArtifact)
      → P db
      → P (update_generation_artifact db now id artifact).0
  pub creates :
      (db : Db) (r : Option GenerationRequest) → P db → P (create_certificate_generation db now r).0

module _ (P : Db → Type 0) (a : Execute.Answers) (now : ℕ) (owner : Text) (job : Job)
    (kept : IsKept P now) where
  fail_generation-keeps :
      (db : Db) (id : Option ℕ) (message : Text)
      → P db
      → P (Execute.fail_generation db now id message)
  fail_generation-keeps db none message c = c
  fail_generation-keeps db (some id) message c =
      kept.generation_status db id GenerationStatus.failed [] [] message none none c

  finish_failure-keeps :
      (db : Db) (id : Option ℕ) (e : Execute.Cause)
      → P db
      → P (Execute.finish_v2_generation_failure now owner job id db e).0
  unfolding Execute.finish_v2_generation_failure
  finish_failure-keeps db id e c =
      let d = Execute.fail_generation db now id e.message in
      let k = fail_generation-keeps db id e.message c in
      if_either P e.is_retryable (kept.retries d _ job.id owner _ e.message Execute.retry_backoff k)
        (kept.job_status d job.id JobStatus.failed e.message refl k)

  finish_success-keeps : (db : Db) → P db → P (Execute.finish_v2_success now job db).0
  unfolding Execute.finish_v2_success
  finish_success-keeps db c = kept.job_status db job.id JobStatus.succeeded [] refl c

  wrapped-keeps :
      (prefix : Text) (out : Outcome (Unit {0})) → P out.0 → P (Execute.wrapped a prefix out).0
  wrapped-keeps prefix (db, ok u) c = c
  wrapped-keeps prefix (db, err e) c = c

  then_artifact-keeps :
      (id : ℕ) (prefix : Text) (artifact : GenerationArtifact)
      (out : Db × Result Execute.Cause (Unit {0}))
      → P out.0
      → P (Execute.then_artifact a now id prefix artifact out).0
  then_artifact-keeps id prefix artifact (db, err e) c = c
  then_artifact-keeps id prefix artifact (db, ok u) c =
      wrapped-keeps prefix _ (kept.artifact db id _ c)

  finalize-keeps :
      (status_prefix prefix : Text) (db : Db) (id : ℕ) (reference : Text) (not_after : Option ℕ)
      (artifact : GenerationArtifact)
      → P db
      → P (Execute.finalize a status_prefix prefix db now id reference not_after artifact).0
  unfolding Execute.finalize
  finalize-keeps status_prefix prefix db id reference not_after artifact c =
      then_artifact-keeps id prefix artifact _ (
        wrapped-keeps status_prefix _ (
          kept.generation_status db id GenerationStatus.issued reference reference [] none not_after
            c))

  recovered-keeps :
      (out : Db × Result Execute.Cause (Unit {0})) → P out.0 → P (Execute.recovered out).0
  recovered-keeps (db, ok u) c = c
  recovered-keeps (db, err e) c = c

  recover_row-keeps :
      (g : Generation) (rest : Db → Db × Result Execute.Cause Bool)
      → ((db : Db) → P db → P (rest db).0)
      → (db : Db) (p : Bool) (r : Result Text (Text × GenerationArtifact)) → P db
      → P (Execute.recover_row a now g rest db p r).0
  recover_row-keeps g rest k db false r c = k db c
  recover_row-keeps g rest k db true (err message) c =
      k _ (fail_generation-keeps db (some g.id) message c)
  recover_row-keeps g rest k db true (ok (reference, artifact)) c = recovered-keeps _ (
      finalize-keeps Execute.recover_status_prefix Execute.recover_artifact_prefix db g.id reference
        a.files_not_after artifact c)

  recover_rows-keeps :
      (gs : List Generation) (db : Db) → P db → P (Execute.recover_rows a now gs db).0
  unfolding Execute.recover_rows
  recover_rows-keeps [] db c = c
  recover_rows-keeps (g ∷ gs) db c =
      recover_row-keeps g (Execute.recover_rows a now gs) (recover_rows-keeps gs) db _ _ c

  recover_listed-keeps :
      (gs : List Generation) (db : Db) (e : Option Execute.Cause)
      → P db
      → P (Execute.recover_listed a now db gs e).0
  recover_listed-keeps gs db none c = recover_rows-keeps gs db c
  recover_listed-keeps gs db (some e) c = c

  recover-keeps : (db : Db) → P db → P (Execute.recover_publishing_generation a now job db).0
  unfolding Execute.recover_publishing_generation
  recover-keeps db c = recover_listed-keeps _ db a.list_error c

  finish_update-keeps : (out : Outcome (Unit {0})) → P out.0 → P (Execute.finish_update out a).0
  finish_update-keeps (db, ok u) c = c
  finish_update-keeps (db, err e) c = c

  after_finalize-keeps :
      (id : ℕ) (out : Db × Result Execute.Cause (Unit {0}))
      → P out.0
      → P (Execute.after_finalize a now owner job id out).0
  after_finalize-keeps id (db, err e) c = finish_failure-keeps db (some id) e c
  after_finalize-keeps id (db, ok u) c =
      let out = update_certificate_job_status db now job.id JobStatus.succeeded [] in
      finish_update-keeps out (kept.job_status db job.id JobStatus.succeeded [] refl c)

  after_files-keeps :
      (id : ℕ) (db : Db) (r : Result Execute.Cause (Text × GenerationArtifact))
      → P db
      → P (Execute.after_files a now owner job id db r).0
  after_files-keeps id db (err e) c = finish_failure-keeps db (some id) e c
  after_files-keeps id db (ok (reference, artifact)) c =
      after_finalize-keeps id _
        (finalize-keeps [] Execute.artifact_prefix db id reference a.not_after artifact c)

  after_publishing-keeps :
      (id : ℕ) (out : Db × Result Execute.Cause (Unit {0}))
      → P out.0
      → P (Execute.after_publishing a now owner job id out).0
  after_publishing-keeps id (db, err e) c = finish_failure-keeps db (some id) e c
  after_publishing-keeps id (db, ok u) c = after_files-keeps id db _ c

  after_issue-keeps :
      (id : ℕ) (db : Db) (r : Result Execute.Cause (Unit {0}))
      → P db
      → P (Execute.after_issue a now owner job id db r).0
  after_issue-keeps id db (err e) c = finish_failure-keeps db (some id) e c
  after_issue-keeps id db (ok u) c = after_publishing-keeps id _ (
      wrapped-keeps Execute.publishing_prefix _
        (kept.generation_status db id GenerationStatus.publishing [] [] [] none none c))

  after_create-keeps :
      (out : Outcome Generation) → P out.0 → P (Execute.after_create a now owner job out).0
  after_create-keeps (db, err e) c = finish_failure-keeps db none (a.cause_of [] e) c
  after_create-keeps (db, ok g) c = after_issue-keeps g.id db (Execute.issue a) c

  after_recovery-keeps :
      (out : Db × Result Execute.Cause Bool)
      → P out.0
      → P (Execute.after_recovery a now owner job out).0
  after_recovery-keeps (db, err e) c =
      let message = Execute.recovery_failed_prefix ++ e.error_text in
      kept.job_status db job.id JobStatus.failed message refl c
  after_recovery-keeps (db, ok true) c = finish_success-keeps db c
  after_recovery-keeps (db, ok false) c = after_create-keeps _ (kept.creates db _ c)

  after_state-keeps :
      (db : Db) (renew_days : ℕ) (r : Result Execute.Cause Execute.CurrentState)
      → P db
      → P (Execute.after_state a now owner job db renew_days r).0
  after_state-keeps db renew_days (err e) c = finish_failure-keeps db none e c
  after_state-keeps db renew_days (ok state) c =
      if_either {A = Execute.Executing (Unit {0})} (λ out. P out.0)
        (Execute.is_fresh a now owner job state renew_days) (finish_success-keeps db c)
        (after_recovery-keeps _ (recover-keeps db c))

  after_preset-keeps :
      (db : Db) (r : Result Execute.Cause ℕ)
      → P db
      → P (Execute.after_preset a now owner job db r).0
  after_preset-keeps db (err e) c = finish_failure-keeps db none e c
  after_preset-keeps db (ok renew_days) c = after_state-keeps db renew_days a.state c

  -- Whatever each of the operations keeps, the execution keeps.
  pub execute-keeps : (db : Db) → P db → P (Execute.execute_claimed_v2_job a now owner job db).0
  unfolding Execute.execute_claimed_v2_job
  execute-keeps db c = after_preset-keeps db a.renew_days c
