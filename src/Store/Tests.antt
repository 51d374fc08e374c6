-- ===== src/Store/Tests.antt =====
-- Runs of the operations on a small database, and instances of the theorems.
use cert_keeper.Prelude.{
  ℕ, ◌+◌, ◌<◌, Text, true, false, Option, none, some, Result, ok, err, List, [], ◌∷◌, ◌≡◌, ◌↔◌,
  refl, inl, inr, arith, All, codes, is_blank,
}
use cert_keeper.Prelude.Int.{ℤ, pos, pos_part}
use mathlib.Core
use cert_keeper.Protocol.Domain.{validate_domain}
use cert_keeper.Store.Sql.{find, head?}
use cert_keeper.Store.Schema.{
  Job, JobRequest, Generation, Db, JobStatus, GenerationStatus, no_rows, invalid_argument,
}
use cert_keeper.Store.Domains.{is_certificate_domain}
use cert_keeper.Store.Domains.Laws.{is_certificate_domain_iff}
use cert_keeper.Store.Jobs.Create.{create_certificate_job, new_job, valid_request}
use cert_keeper.Store.Jobs.Lease.{
  claim, claim_row, lease_to, list_recoverable, release_lease, renew_lease, duration_seconds,
}
use cert_keeper.Store.Jobs.WellFormed.{IsWellFormed}
use cert_keeper.Store.Jobs.Created.{create_again}
use cert_keeper.Store.Jobs.Trace.{
  Call, claims, releases, sets_status, IsLeased, IsForeign, run, run-IsWellFormed,
  lease-is_exclusive,
}
use cert_keeper.Store.Jobs.Order.{claim-takes_first}
use cert_keeper.Store.Jobs.Granted.{total, tries_left, claim_row-IsLeased, claim_row-tries_left}
use cert_keeper.Store.Generations.{update_generation_status, get_current_generation, with_outcome}
use cert_keeper.Store.Generations.Apart.{IsConsistent}
use cert_keeper.Store.Generations.History.{Change, change_all, change_all-IsConsistent}
use cert_keeper.Store.Generations.Current.{issue-get_current}

abbrev domain : Text
domain = codes "a.example.com"

abbrev waiting : Job
waiting = record {
  id = codes "j2";
  domain = domain;
  operation = codes "apply";
  idempotency_key = codes "k2";
  status = JobStatus.queued;
  attempts = 0;
  max_attempts = 3;
  next_attempt_at = none;
  lease_owner = none;
  lease_until = none;
  last_error_code = none;
  last_error_at = none;
  requested_by = none;
  error_message = none;
  created_at = 5;
  updated_at = 5;
  started_at = none;
  finished_at = none;
}

abbrev leased : Job
leased = record waiting {
  id = codes "j1";
  idempotency_key = codes "k1";
  status = JobStatus.running;
  attempts = 1;
  lease_owner = some (codes "w1");
  lease_until = some 100;
  started_at = some 40;
}

abbrev generation : ℕ → Generation
generation id = record {
  id = id;
  job_id = codes "j1";
  domain = domain;
  generation = pos id;
  revision = id;
  status = GenerationStatus.pending;
  certificate_ref = none;
  private_key_ref = none;
  manifest_digest = none;
  serial = none;
  fingerprint = none;
  current = false;
  not_before = none;
  not_after = none;
  error_message = none;
  created_at = 5;
  updated_at = 5;
}

abbrev current : Generation
current = record (generation 1) { status = GenerationStatus.issued; current = true }

abbrev db : Db
db = record {
  certs = domain ∷ [];
  tokens = [];
  jobs = leased ∷ waiting ∷ [];
  generations = current ∷ generation 2 ∷ [];
  next_generation_id = 3;
  reported = [];
}

abbrev request : JobRequest
request = record {
  id = [];
  domain = domain;
  operation = codes "apply";
  idempotency_key = codes "k3";
  status = JobStatus.unset;
  attempts = pos 0;
  max_attempts = pos 0;
  next_attempt_at = none;
  lease_owner = [];
  lease_until = none;
  last_error_code = none;
  last_error_at = none;
  requested_by = none;
  error_message = none;
  created_at = 0;
  started_at = none;
  finished_at = none;
}

store : Unit {0}
unfolding create_certificate_job new_job claim claim_row lease_to list_recoverable release_lease
    renew_lease duration_seconds is_blank cert_keeper.Prelude.text_beq is_certificate_domain
store = tt

db-IsWellFormed : IsWellFormed db
unfolding store
db-IsWellFormed = ground arith

db-IsConsistent : IsConsistent db
unfolding store
db-IsConsistent = ground arith

leased-IsLeased : IsLeased (codes "j1") (codes "w1") 100 leased db
unfolding store
leased-IsLeased = record { present = refl; is_run = refl; held = refl; lasting = refl }

-- A minute, in nanoseconds.
abbrev minute : ℤ
minute = pos 60_000_000_000

abbrev others : List (ℕ × Call)
others =
    (50, claims (codes "w2") minute)
    ∷ (60, releases (codes "j1") (codes "w2"))
    ∷ (70, sets_status (codes "j2") JobStatus.cancelled [])
    ∷ []

others-IsForeign : All (IsForeign (codes "j1") (codes "w1") 100) others
unfolding store
others-IsForeign = ground arith

lease-is_exclusive_example : IsLeased (codes "j1") (codes "w1") 100 leased (run db others)
lease-is_exclusive_example =
    lease-is_exclusive (codes "j1") (codes "w1") 100 leased db others db-IsWellFormed
      leased-IsLeased others-IsForeign

run-IsWellFormed_example : IsWellFormed (run db others)
run-IsWellFormed_example = run-IsWellFormed db others db-IsWellFormed

is_certificate_domain_iff_example :
    (is_certificate_domain (codes "*.example.com") ≡ true)
    ↔ (validate_domain (codes "*.example.com") ≡ ok tt)
is_certificate_domain_iff_example = is_certificate_domain_iff (codes "*.example.com")

-- The row that `CreateCertificateJob` makes of the request at instant 10.
abbrev created : Job
created = new_job 10 (codes "x1") request

abbrev with_created : Db
with_created = record db { jobs = leased ∷ waiting ∷ created ∷ [] }

request-created :
    create_certificate_job db 10 (some (codes "x1")) (some request) ≡ (with_created, ok created)
unfolding store cert_keeper.Store.Jobs.Create.is_named valid_request
    cert_keeper.Store.Jobs.Create.create_with_id cert_keeper.Store.Jobs.Create.insert_or_get
    cert_keeper.Store.Jobs.Create.insert_job cert_keeper.Protocol.Domain.is_ip
    cert_keeper.Protocol.Domain.is_label cert_keeper.Prelude.split cert_keeper.Prelude.to_lower
    cert_keeper.Prelude.is_padded
request-created = refl

request-valid : valid_request request ≡ true
unfolding store valid_request
request-valid = refl

create_again_example :
    create_certificate_job with_created 20 (some (codes "x2")) (some request)
    ≡ (with_created, ok created)
create_again_example =
    create_again db with_created 10 20 (some (codes "x1")) (codes "x2") request request created
      request-created refl refl refl request-valid

owner-named : is_blank (codes "w2") ≡ false
unfolding store
owner-named = refl

claim-takes_first_example :
    (claim db 50 (codes "w2") minute).1
    ≡ ok (
        Core.Option.map
          (lease_to (codes "w2") (50 + duration_seconds (pos_part minute)) 50)
          (head? (list_recoverable db 50 (pos 10))))
claim-takes_first_example = claim-takes_first db 50 (codes "w2") minute (pos 10) owner-named refl

abbrev taken : Job
taken = lease_to (codes "w2") 110 50 waiting

abbrev after_claim : Db
after_claim = record db { jobs = leased ∷ taken ∷ [] }

waiting-claimed : claim_row db (codes "w2") 110 50 ≡ (after_claim, ok (some taken))
unfolding store cert_keeper.Store.Sql.first_by
waiting-claimed = refl

claim_row-IsLeased_example : IsLeased taken.id (codes "w2") 110 taken after_claim
claim_row-IsLeased_example =
    claim_row-IsLeased db after_claim (codes "w2") 110 50 taken db-IsWellFormed waiting-claimed

claim_row-tries_left_example : total tries_left after_claim.jobs < total tries_left db.jobs
claim_row-tries_left_example =
    claim_row-tries_left db after_claim (codes "w2") 110 50 taken db-IsWellFormed waiting-claimed

abbrev changes : List (ℕ × Change)
changes =
    (10, Change.sets_status 2 GenerationStatus.issued (codes "ref") [] [] none none)
    ∷ (20, Change.deletes 1)
    ∷ []

change_all-IsConsistent_example : IsConsistent (change_all db changes)
change_all-IsConsistent_example = change_all-IsConsistent db changes db-IsConsistent

issue-get_current_example :
    get_current_generation
      (update_generation_status db 10 2 GenerationStatus.issued (codes "ref") [] [] none none).0
      domain
    ≡ some (with_outcome 10 GenerationStatus.issued (codes "ref") [] [] none none (generation 2))
issue-get_current_example =
    issue-get_current db 10 2 (generation 2) (codes "ref") [] [] none none db-IsConsistent refl refl

-- The lease is not another worker's to renew or to release, nor the holder's once it has ended.
lease_tests :
    (release_lease db 60 (codes "j1") (codes "w2") ≡ (db, err no_rows))
    × (renew_lease db 100 (codes "j1") (codes "w1") minute ≡ (db, err no_rows))
    × (renew_lease db 60 (codes "j1") [] minute ≡ (db, err invalid_argument))
unfolding store
lease_tests = (refl, refl, refl)
