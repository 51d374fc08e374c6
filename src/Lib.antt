-- ===== src/Lib.antt =====
-- cert-keeper: a server that issues certificates and clients that fetch and deploy them. This library
-- models the public v2 protocol (pkg/certproto), the tables of jobs, generations, grants, deployment
-- reports and audit events with the operations on them (internal/store), the requests of the service
-- (internal/service), the certificate files (internal/certstore), the schedulers (internal/scheduler)
-- with their wiring (cmd/server), the authentication of requests (internal/api, pkg/ckauth) and the
-- deployment by the client (internal/client).
--
-- The parts and how they interact: a client sends a reconcile request; the server checks it with the
-- protocol's validators and creates a job in the store, whose idempotency key makes a repeated
-- request find the same job. Workers claim jobs under leases, renew them while they work, and end,
-- release or retry them. A job that succeeds makes a generation of the domain's certificate, one of
-- which is current. The client polls the job, fetches the manifest and the files, deploys them by
-- switching `current` to a new release, and reports the deployment. Every request names a token, whose
-- grants on the domain decide.
--
-- Which file models which part:
-- - Protocol/Errors, Identifiers, Domain, Manifest, Jobs, Reconcile, Deployment, Paths and
--   Capabilities: pkg/certproto/protocol.go, contract.go, path.go, capabilities.go and http.go. A
--   `Validate` method is a function validate_x into a check, its early returns in their order, and
--   the errors are the codes. Protocol/Codec is the JSON codec.
-- - Store/Schema: the rows of the tables and the database. Store/Sql: the statements.
-- - Store/Domains: validateCertificateDomain of internal/store/tokens.go.
-- - Store/Jobs/Create, Lease and Status: CreateCertificateJob, GetByIdempotency, Claim, RenewLease,
--   ReleaseLease, ListRecoverable, Retry, UpdateCertificateJobStatus, GetCertificateJob,
--   ListCertificateJobs and DeleteCertificateJob of
--   internal/store/workflows.go. An operation takes the database and the clock and returns the
--   database after it, with its result.
-- - Store/Generations: CreateCertificateGeneration, UpdateCertificateGenerationStatus,
--   UpdateCertificateGenerationArtifact, GetCurrentCertificateGeneration and
--   DeleteCertificateGeneration of the same file.
-- - Store/Grants: Grant, Revoke, ListGrants and HasCertificatePermission of internal/store/tokens.go.
--   Store/Reports and Store/Audit: the operations on deployment reports and on audit events of
--   internal/store/workflows.go.
-- - Service, Service/Reconcile, Read and Report: ReconcileV2, GetJobV2, StatusV2, ManifestV2,
--   ReadGenerationFileV2 and ReportDeploymentV2 of internal/service/v2.go over these tables. The
--   certificate files are an interface, Repository. Service/Execute: executeClaimedV2Job,
--   recoverPublishingGeneration and finishV2GenerationFailure of the same file, at one instant; what
--   the configuration, the files and the issuer answer are the fields of Answers.
-- - Client/Tree: the output directory of a deployment, and the system calls on it, each of which may
--   fail as the World says. Client/Certificate: validateStagedCertificate and the PEM files, with the
--   packages crypto/sha256, encoding/pem and crypto/x509 as the parameter Crypto. Client/Read and
--   Current: `current` and the release that it names. Client/Stage: the staging directory and its
--   publication. Client/Deploy: DeployGeneration. All of internal/client/deploy.go; a function that
--   changes the directory is a program of Prelude/Steps, which returns the directory after it even
--   where it fails.
-- - Certstore: the directory of a domain in internal/certstore/certstore.go, and the failures of the
--   system calls on it. Certstore/Manifest: loadGeneration with its checks. Certstore/Read:
--   domainPaths, currentState without the migration of an older pointer, captureCurrent, nextRevision,
--   GetCurrent, LoadGenerationManifest and ReadFile. Certstore/Current: writeCurrent with the
--   restoration. Certstore/Build and Publish: publish. Certstore/Collect: GarbageCollect and Abort.
--   The packages encoding/json, crypto/sha256 and crypto/x509 are the parameters Formats and Crypto.
-- - Scheduler: NewPersistentWorker and backoff of internal/scheduler/persistent.go, ClassifyError of
--   internal/scheduler/errors.go. Scheduler/Worker: the jobs, the contract of the store and the
--   counters of a cycle of internal/scheduler/persistent.go. Scheduler/Worker/Execute: executeJob with
--   renewLease. Scheduler/Worker/Cycle: scanCandidates, processDueJobs and runCycle.
--   Scheduler/Adapter: persistentStoreAdapter of cmd/server/main.go over Store/Jobs, with ReconcileJob
--   and ListRenewalCandidates of internal/service/v2.go over Service/Execute. Scheduler/Simple: RunOnce
--   of internal/scheduler/scheduler.go.
-- - Auth: verifyTokenBody of internal/api/server.go over the tables of tokens and nonces, with Sign and
--   SecureEqual of pkg/ckauth, and ConsumeNonce and CleanOldNonces of internal/store/logs.go. The hash
--   functions are the parameter Signing.
-- - Prelude: tests, lists, results, texts and integers that the others share. The modules named Laws,
--   WellFormed, Created, Claimed, Granted, Order, Trace, Apart, History, Published, Again, Entries,
--   Switch, Latest, Written, Spared, Success, Keeps, Settled, Accounts, Ends, Scan, Retry, Tries, Spending, Replay and Domains
--   (of Service) hold proofs, as do Current of Store/Generations and
--   of Certstore/Collect; those named Tests hold runs and
--   instances.
--
-- Modelling choices:
-- - A text is the list of its bytes. An instant of the store is a number of Unix seconds from 1970
--   on, one of the protocol a number of nanoseconds since Go's zero time; durations are in
--   nanoseconds. Signed arguments that a caller chooses are signed here too. No sum of the modelled
--   code is near the bounds of its 64-bit integers for clocks of this era, so none wraps around.
-- - What readStaging and validateCertificateFiles return is an argument of a publication; the
--   files that the loop has written are returned by it and seen in the releases when their directory
--   takes its name.
-- - One reading of the clock serves the window of a request and its nonce, which the source reads the
--   clock again for. An error of the service reaches the worker without evidence: the errors that the
--   source returns with their types are failures of the database.
-- - A statement is read by the semantics of SQL on the list of the rows, with the unique indexes, the
--   foreign keys and the checks that the migrations leave in force. A transaction that returns an
--   error leaves the database as it was. Failures of the database itself (input and output,
--   cancellation, contention) are not modelled. The two statements of Claim run one after the other
--   without another call between them; histories interleave whole calls.
-- - The id that newStoreID draws and the clock are arguments. The numbers that a generation or a
--   revision may have are those of int64.
-- - Error messages are left out but for the one that is stored. ToLower changes ASCII letters only,
--   which is enough since names with other letters are refused. ParseIP is modelled for texts
--   without a colon, and the texts with one are refused by the labels' test in any case.
-- - The JSON text is not modelled: a codec is a parameter.
-- - Loops are recursion on the list or on the turns that are left. Two functions run on fuel that
--   is the number of bytes of a text, of which each turn takes one at least: the loop over PEM blocks
--   and the trimming of spaces.
-- - A deployment's commands, the hash, the PEM and X.509 functions and the download are parameters.
--   The commands do not change the output directory. Other processes do not change it either while a
--   deployment holds the lock; the loop that waits for the lock is one call.
-- - The worker has one goroutine, as the server sets it. While a job is reconciled the ticker of its
--   lease fires between the parts of the reconciler's work; the server's reconciler is one such part,
--   at one instant. A tick that finds the context done renews nothing. The worker's claim loop is on
--   fuel; more than the tries that are left to the queued and running jobs is enough.
-- - What LastInsertId returns for a row that was overwritten is an argument.
--
-- Not modelled: the reading of the staging directory and the check of certificate files in
-- internal/certstore, with the migration of its older layout; the ACME runner, the audit events of an
-- execution, the rest of the HTTP layer, the client's requests, the other tables, secrets and backups of the
-- store, the generation of tokens, and the commands, which are mostly input and output; and the
-- tickers and the jitter of the schedulers. Of the service's responses the certificate's status and
-- the revisions are left out, and of an authentication the usage counters of its token.

mod Prelude
pub mod Protocol
pub mod Store
pub mod Scheduler
pub mod Client
pub mod Service
pub mod Certstore
pub mod Auth
