-- ===== src/Service/Execute.antt =====
-- internal/service/v2.go: `executeClaimedV2Job`, `recoverPublishingGeneration` and
-- `finishV2GenerationFailure`, at one instant and under the lock of the domain, without the audit
-- events.
pub mod Keeps
mod Tests
use cert_keeper.Prelude.{
  ℕ, ◌+◌, ◌*◌, ◌-◌, Text, Bool, true, false, not, ◌&&◌, Option, none, some, Result, ok, err, ltb,
  codes, List, [], ◌∷◌, ◌++◌, if◌then◌else◌,
}
use cert_keeper.Prelude.Int.{ℤ, pos}
use cert_keeper.Store.Schema.{
  Db, Job, JobStatus, Generation, GenerationStatus, GenerationRequest, GenerationArtifact,
  StoreError, Outcome,
}
use cert_keeper.Store.Jobs.Lease.{retry}
use cert_keeper.Store.Jobs.Status.{update_certificate_job_status}
use cert_keeper.Store.Generations.{
  create_certificate_generation, update_generation_status, update_generation_artifact,
}
use cert_keeper.Service.Reconcile.{is_forced}
use cert_keeper.Service.Report.{list_certificate_generations}

-- An error: whether `v2Retryable` holds of it, `v2PublicErrorMessage`, and `Error()`.
pub record Cause : Type 0 where
  pub is_retryable : Bool
  pub message : Text
  pub error_text : Text

-- `v2CurrentState`; no instant is Go's zero time.
pub record CurrentState : Type 0 where
  pub exists_ : Bool
  pub not_after : Option ℕ

-- What the configuration, the certificate files and the issuer answer during one execution.
pub record Answers : Type 0 where
  pub renew_days : Result Cause ℕ  -- `GetCert`, with the default of the configuration
  pub state : Result Cause CurrentState  -- `v2CertStore` and `readV2CurrentState`
  pub list_error : Option Cause  -- of `ListCertificateGenerations`
  pub files_current : Option Text  -- `GetCurrent`
  pub files_manifest : Bool  -- `LoadManifest` succeeds
  pub files_artifact : Option GenerationArtifact  -- `LoadGenerationManifest`
  pub files_not_after : Option ℕ  -- `ParsePemExpiry` of fullchain.pem
  pub secrets_error : Option Cause
  pub staging_error : Option Cause
  pub issue_error : Option Cause
  pub publish : Result Cause Text
  pub artifact : Result Cause GenerationArtifact
  pub not_after : Option ℕ
  pub cause_of : Text → StoreError → Cause  -- behind the prefix that the code wraps it in

-- `acme.ShouldRenew`; instants are Unix seconds.
unfoldable pub should_renew : ℕ → Option ℕ → ℕ → Bool
should_renew now none renew_days = true
should_renew now (some not_after) renew_days = ltb not_after (now + renew_days * 86_400)

-- An execution returns the tables after it, and the public message of its error.
abbrev pub Executing {ℓ} : Type ℓ → Type ℓ
Executing A = Db × Result Text A

-- `if generation != nil { UpdateCertificateGenerationStatus(...) }`; errors are dropped.
abbrev pub fail_generation : Db → ℕ → Option ℕ → Text → Db
fail_generation db now none message = db
fail_generation db now (some id) message =
    (update_generation_status db now id GenerationStatus.failed [] [] message none none).0

-- A minute.
abbrev pub retry_backoff : ℤ
retry_backoff = pos 60_000_000_000

abbrev pub end_job : Db → ℕ → Text → Job → Cause → Db
end_job db now owner job cause =
    if cause.is_retryable
    then (retry db (now * 1_000_000_000) job.id owner (codes "retryable") cause.message
        retry_backoff).0
    else (update_certificate_job_status db now job.id JobStatus.failed cause.message).0

unfoldable pub finish_v2_generation_failure :
    ℕ → Text → Job → Option ℕ → Db → Cause → Executing (Unit {0})
finish_v2_generation_failure now owner job generation db cause = (
  end_job (fail_generation db now generation cause.message) now owner job cause,
  err cause.message,
)

-- `_ = UpdateJobStatus(...)`, and no error.
unfoldable pub finish_v2_success : ℕ → Job → Db → Executing (Unit {0})
finish_v2_success now job db =
    ((update_certificate_job_status db now job.id JobStatus.succeeded []).0, ok tt)

abbrev pub is_publishing : GenerationStatus → Bool
is_publishing GenerationStatus.publishing = true
is_publishing _ = false

-- "崩溃恢复：certstore 无 current generation", "崩溃恢复：无法读取 manifest" and "崩溃恢复：无法读取完整
-- manifest", in UTF-8.
abbrev pub no_current_message : Text
no_current_message =
    229 ∷ 180 ∷ 169 ∷ 230 ∷ 186 ∷ 131 ∷ 230 ∷ 129 ∷ 162 ∷ 229 ∷ 164 ∷ 141 ∷ 239 ∷ 188 ∷ 154 ∷ 99
    ∷ 101 ∷ 114 ∷ 116 ∷ 115 ∷ 116 ∷ 111 ∷ 114 ∷ 101 ∷ 32 ∷ 230 ∷ 151 ∷ 160 ∷ 32 ∷ 99 ∷ 117 ∷ 114
    ∷ 114 ∷ 101 ∷ 110 ∷ 116 ∷ 32 ∷ 103 ∷ 101 ∷ 110 ∷ 101 ∷ 114 ∷ 97 ∷ 116 ∷ 105 ∷ 111 ∷ 110 ∷ []

abbrev pub no_manifest_message : Text
no_manifest_message =
    229 ∷ 180 ∷ 169 ∷ 230 ∷ 186 ∷ 131 ∷ 230 ∷ 129 ∷ 162 ∷ 229 ∷ 164 ∷ 141 ∷ 239 ∷ 188 ∷ 154 ∷ 230
    ∷ 151 ∷ 160 ∷ 230 ∷ 179 ∷ 149 ∷ 232 ∷ 175 ∷ 187 ∷ 229 ∷ 143 ∷ 150 ∷ 32 ∷ 109 ∷ 97 ∷ 110 ∷ 105
    ∷ 102 ∷ 101 ∷ 115 ∷ 116 ∷ []

abbrev pub no_full_manifest_message : Text
no_full_manifest_message =
    229 ∷ 180 ∷ 169 ∷ 230 ∷ 186 ∷ 131 ∷ 230 ∷ 129 ∷ 162 ∷ 229 ∷ 164 ∷ 141 ∷ 239 ∷ 188 ∷ 154 ∷ 230
    ∷ 151 ∷ 160 ∷ 230 ∷ 179 ∷ 149 ∷ 232 ∷ 175 ∷ 187 ∷ 229 ∷ 143 ∷ 150 ∷ 229 ∷ 174 ∷ 140 ∷ 230 ∷ 149
    ∷ 180 ∷ 32 ∷ 109 ∷ 97 ∷ 110 ∷ 105 ∷ 102 ∷ 101 ∷ 115 ∷ 116 ∷ []

-- What the certificate files have for a generation that was being published: its reference and its
-- manifest, or the message of what is missing.
unfoldable pub recoverable : Answers → Result Text (Text × GenerationArtifact)
recoverable a = elim a.files_current [
  | none ↦ err no_current_message
  | some generation ↦
      if a.files_manifest
      then elim a.files_artifact [
        | none ↦ err no_full_manifest_message
        | some artifact ↦ ok (generation, artifact)
      ]
      else err no_manifest_message
]

-- "崩溃恢复：补全代次状态失败: ", in UTF-8.
abbrev pub recover_status_prefix : Text
recover_status_prefix =
    229 ∷ 180 ∷ 169 ∷ 230 ∷ 186 ∷ 131 ∷ 230 ∷ 129 ∷ 162 ∷ 229 ∷ 164 ∷ 141 ∷ 239 ∷ 188 ∷ 154 ∷ 232
    ∷ 161 ∷ 165 ∷ 229 ∷ 133 ∷ 168 ∷ 228 ∷ 187 ∷ 163 ∷ 230 ∷ 172 ∷ 161 ∷ 231 ∷ 138 ∷ 182 ∷ 230 ∷ 128
    ∷ 129 ∷ 229 ∷ 164 ∷ 177 ∷ 232 ∷ 180 ∷ 165 ∷ 58 ∷ 32 ∷ []

-- "崩溃恢复：补全 artifact 失败: ", in UTF-8.
abbrev pub recover_artifact_prefix : Text
recover_artifact_prefix =
    229 ∷ 180 ∷ 169 ∷ 230 ∷ 186 ∷ 131 ∷ 230 ∷ 129 ∷ 162 ∷ 229 ∷ 164 ∷ 141 ∷ 239 ∷ 188 ∷ 154 ∷ 232
    ∷ 161 ∷ 165 ∷ 229 ∷ 133 ∷ 168 ∷ 32 ∷ 97 ∷ 114 ∷ 116 ∷ 105 ∷ 102 ∷ 97 ∷ 99 ∷ 116 ∷ 32 ∷ 229 ∷ 164
    ∷ 177 ∷ 232 ∷ 180 ∷ 165 ∷ 58 ∷ 32 ∷ []

-- "更新 generation artifact 失败: ", in UTF-8.
abbrev pub artifact_prefix : Text
artifact_prefix =
    230 ∷ 155 ∷ 180 ∷ 230 ∷ 150 ∷ 176 ∷ 32 ∷ 103 ∷ 101 ∷ 110 ∷ 101 ∷ 114 ∷ 97 ∷ 116 ∷ 105 ∷ 111
    ∷ 110 ∷ 32 ∷ 97 ∷ 114 ∷ 116 ∷ 105 ∷ 102 ∷ 97 ∷ 99 ∷ 116 ∷ 32 ∷ 229 ∷ 164 ∷ 177 ∷ 232 ∷ 180 ∷ 165
    ∷ 58 ∷ 32 ∷ []

-- "记录发布意图失败: ", in UTF-8.
abbrev pub publishing_prefix : Text
publishing_prefix =
    232 ∷ 174 ∷ 176 ∷ 229 ∷ 189 ∷ 149 ∷ 229 ∷ 143 ∷ 145 ∷ 229 ∷ 184 ∷ 131 ∷ 230 ∷ 132 ∷ 143 ∷ 229
    ∷ 155 ∷ 190 ∷ 229 ∷ 164 ∷ 177 ∷ 232 ∷ 180 ∷ 165 ∷ 58 ∷ 32 ∷ []

-- The result of an operation of the store, its error wrapped in a prefix.
abbrev pub wrapped : Answers → Text → Outcome (Unit {0}) → Db × Result Cause (Unit {0})
wrapped a prefix (db, ok u) = (db, ok u)
wrapped a prefix (db, err e) = (db, err (a.cause_of prefix e))

abbrev pub then_artifact :
    Answers
    → ℕ
    → ℕ
    → Text
    → GenerationArtifact
    → Db × Result Cause (Unit {0})
    → Db × Result Cause (Unit {0})
then_artifact a now id prefix artifact (db, err e) = (db, err e)
then_artifact a now id prefix artifact (db, ok u) =
    wrapped a prefix (update_generation_artifact db now id (record artifact { current = true }))

-- The two updates that make a generation the current one, with the prefixes of their errors.
unfoldable pub finalize :
    Answers
    → Text
    → Text
    → Db
    → ℕ
    → ℕ
    → Text
    → Option ℕ
    → GenerationArtifact
    → Db × Result Cause (Unit {0})
finalize a status_prefix prefix db now id reference not_after artifact =
    then_artifact a now id prefix artifact (
      wrapped a status_prefix (
        update_generation_status db now id GenerationStatus.issued reference reference [] none
          not_after))

abbrev pub recovered : Db × Result Cause (Unit {0}) → Db × Result Cause Bool
recovered (db, ok u) = (db, ok true)
recovered (db, err e) = (db, err e)

-- One generation of the loop, after the decisions on it; `rest` goes through the others.
abbrev pub recover_row :
    Answers
    → ℕ
    → Generation
    → (Db → Db × Result Cause Bool)
    → Db
    → Bool
    → Result Text (Text × GenerationArtifact)
    → Db × Result Cause Bool
recover_row a now g rest db false r = rest db
recover_row a now g rest db true (err message) = rest (fail_generation db now (some g.id) message)
recover_row a now g rest db true (ok (reference, artifact)) = recovered (
    finalize a recover_status_prefix recover_artifact_prefix db now g.id reference a.files_not_after
      artifact)

-- The loop over the generations of the domain.
unfoldable pub recover_rows : Answers → ℕ → List Generation → Db → Db × Result Cause Bool
recover_rows a now [] db = (db, ok false)
recover_rows a now (g ∷ gs) db =
    recover_row a now g (recover_rows a now gs) db (is_publishing g.status) (recoverable a)

abbrev pub recover_listed :
    Answers → ℕ → Db → List Generation → Option Cause → Db × Result Cause Bool
recover_listed a now db gs (some e) = (db, err e)
recover_listed a now db gs none = recover_rows a now gs db

unfoldable pub recover_publishing_generation : Answers → ℕ → Job → Db → Db × Result Cause Bool
recover_publishing_generation a now job db =
    recover_listed a now db (list_certificate_generations db job.domain) a.list_error

abbrev pub or_else {ℓ} : {A : Type ℓ} → Option Cause → Result Cause A → Result Cause A
or_else none r = r
or_else (some e) r = err e

-- The reading of the DNS secrets, the staging directory and the issuer.
unfoldable pub issue : Answers → Result Cause (Unit {0})
issue a = or_else a.secrets_error (or_else a.staging_error (or_else a.issue_error (ok tt)))

abbrev pub with_manifest :
    Text → Result Cause GenerationArtifact → Result Cause (Text × GenerationArtifact)
with_manifest reference (err e) = err e
with_manifest reference (ok artifact) = ok (reference, artifact)

-- The publication, and the manifest of what it published.
abbrev pub publish_files :
    Result Cause Text → Result Cause GenerationArtifact → Result Cause (Text × GenerationArtifact)
publish_files (err e) r = err e
publish_files (ok reference) r = with_manifest reference r

abbrev pub finish_update : Outcome (Unit {0}) → Answers → Executing (Unit {0})
finish_update (db, ok u) a = (db, ok tt)
finish_update (db, err e) a = (db, err ((a.cause_of [] e).error_text))

-- "崩溃恢复失败: ", in UTF-8.
abbrev pub recovery_failed_prefix : Text
recovery_failed_prefix =
    229 ∷ 180 ∷ 169 ∷ 230 ∷ 186 ∷ 131 ∷ 230 ∷ 129 ∷ 162 ∷ 229 ∷ 164 ∷ 141 ∷ 229 ∷ 164 ∷ 177 ∷ 232
    ∷ 180 ∷ 165 ∷ 58 ∷ 32 ∷ []

module _ (a : Answers) (now : ℕ) (owner : Text) (job : Job) where
  abbrev pub after_finalize : ℕ → Db × Result Cause (Unit {0}) → Executing (Unit {0})
  after_finalize id (db, err e) = finish_v2_generation_failure now owner job (some id) db e
  after_finalize id (db, ok u) =
      finish_update (update_certificate_job_status db now job.id JobStatus.succeeded []) a

  abbrev pub after_files : ℕ → Db → Result Cause (Text × GenerationArtifact) → Executing (Unit {0})
  after_files id db (err e) = finish_v2_generation_failure now owner job (some id) db e
  after_files id db (ok (reference, artifact)) =
      after_finalize id (finalize a [] artifact_prefix db now id reference a.not_after artifact)

  abbrev pub after_publishing : ℕ → Db × Result Cause (Unit {0}) → Executing (Unit {0})
  after_publishing id (db, err e) = finish_v2_generation_failure now owner job (some id) db e
  after_publishing id (db, ok u) = after_files id db (publish_files a.publish a.artifact)

  abbrev pub after_issue : ℕ → Db → Result Cause (Unit {0}) → Executing (Unit {0})
  after_issue id db (err e) = finish_v2_generation_failure now owner job (some id) db e
  after_issue id db (ok u) = after_publishing id (
      wrapped a publishing_prefix
        (update_generation_status db now id GenerationStatus.publishing [] [] [] none none))

  -- From the new generation on.
  abbrev pub after_create : Outcome Generation → Executing (Unit {0})
  after_create (db, err e) = finish_v2_generation_failure now owner job none db (a.cause_of [] e)
  after_create (db, ok g) = after_issue g.id db (issue a)

  -- `&store.CertificateGeneration{JobID: job.ID, Domain: job.Domain}`.
  abbrev pub generation_request : GenerationRequest
  generation_request = record {
    job_id = job.id;
    domain = job.domain;
    generation = pos 0;
    revision = pos 0;
    status = GenerationStatus.unset;
    certificate_ref = none;
    private_key_ref = none;
    manifest_digest = none;
    serial = none;
    fingerprint = none;
    current = false;
    not_before = none;
    not_after = none;
    error_message = none;
    created_at = 0;
  }

  abbrev pub after_recovery : Db × Result Cause Bool → Executing (Unit {0})
  after_recovery (db, err e) = (
    (update_certificate_job_status db now job.id JobStatus.failed
        (recovery_failed_prefix ++ e.error_text)).0,
    err e.error_text,
  )
  after_recovery (db, ok true) = finish_v2_success now job db
  after_recovery (db, ok false) =
      after_create (create_certificate_generation db now (some generation_request))

  -- The certificate is there, and is not to be issued yet.
  abbrev pub is_fresh : CurrentState → ℕ → Bool
  is_fresh state renew_days =
      not (is_forced job.operation)
      && state.exists_
      && not (should_renew now state.not_after renew_days)

  abbrev pub after_state : Db → ℕ → Result Cause CurrentState → Executing (Unit {0})
  after_state db renew_days (err e) = finish_v2_generation_failure now owner job none db e
  after_state db renew_days (ok state) =
      if is_fresh state renew_days
      then finish_v2_success now job db
      else after_recovery (recover_publishing_generation a now job db)

  abbrev pub after_preset : Db → Result Cause ℕ → Executing (Unit {0})
  after_preset db (err e) = finish_v2_generation_failure now owner job none db e
  after_preset db (ok renew_days) = after_state db renew_days a.state

  unfoldable pub execute_claimed_v2_job : Db → Executing (Unit {0})
  execute_claimed_v2_job db = after_preset db a.renew_days
