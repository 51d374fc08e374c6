-- ===== src/Store/Generations.antt =====
-- internal/store/workflows.go: the generations of a domain's certificate, one of which is current.
pub mod Apart
pub mod Laws
pub mod Current
pub mod History
use cert_keeper.Prelude.{
  ℕ, ◌+◌, Text, Bool, true, false, not, ◌&&◌, ◌||◌, ◌==◌, nat_eq, text_eq, Option, none, some,
  Result, ok, err, ltb, leb, List, [], ◌∷◌, ◌++◌, if◌then◌else◌, any, all, filter, length, is_empty,
}
use cert_keeper.Prelude.Int.{ℤ, pos, negsuc, leb_ℤ, beq_ℤ, is_zero_ℤ, suc_ℤ, pos_part}
use cert_keeper.Store.Sql.{update, find}
use cert_keeper.Store.Schema.{
  GenerationStatus, unset, pending, issued, other, Job, Generation, GenerationRequest,
  GenerationArtifact, Db, invalid_argument, no_rows, foreign_key, unique, Outcome,
}
use cert_keeper.Store.Domains.{is_certificate_domain}
use cert_keeper.Store.Jobs.Values.{null_string, member_text}

abbrev pub valid_generation_status : GenerationStatus → Bool
valid_generation_status unset = false
valid_generation_status (other _) = false
valid_generation_status _ = true

abbrev pub is_issued : GenerationStatus → Bool
is_issued issued = true
is_issued _ = false

-- `validSHA256Digest`.
unfoldable pub valid_sha256_digest : Text → Bool
valid_sha256_digest value =
    length value == 64
    && all (λ char. (leb b'0' char && leb char b'9') || (leb b'a' char && leb char b'f')) value

-- `if generation.Status == "" { generation.Status = "pending" }`.
abbrev pub default_generation_status : GenerationStatus → GenerationStatus
default_generation_status unset = pending
default_generation_status s = s

-- `SELECT MAX(generation)` of the rows of a domain; `none` is NULL.
unfoldable pub max_generation : Text → List Generation → Option ℤ
max_generation domain [] = none
max_generation domain (g ∷ gs) =
    let rest = max_generation domain gs in
    if g.domain == domain
    then elim rest [
      | none ↦ some g.generation
      | some m ↦ some (if leb_ℤ g.generation m then m else g.generation)
    ]
    else rest

unfoldable pub next_generation : Text → List Generation → ℤ
next_generation domain gs = elim (max_generation domain gs) [ none ↦ pos 1 | some m ↦ suc_ℤ m ]

-- `WHERE domain=? AND current=1`.
abbrev pub is_current_of : Text → Generation → Bool
is_current_of domain g = g.domain == domain && g.current

-- `SET current=0, updated_at=?`.
unfoldable pub demoted : ℕ → Generation → Generation
demoted now g = record g { current = false; updated_at = now }

-- The constraints of certificate_generations that a row may break with those that are there:
-- UNIQUE(job_id, generation), UNIQUE(domain, generation), and the indexes on (domain, revision) and
-- on the domain of a current row.
unfoldable pub conflicts : Generation → Generation → Bool
conflicts g h =
    (h.job_id == g.job_id && beq_ℤ h.generation g.generation)
    || (h.domain == g.domain && beq_ℤ h.generation g.generation)
    || (h.domain == g.domain && h.revision == g.revision)
    || (h.domain == g.domain && h.current && g.current)

unfoldable pub insert_generation : Db → List Generation → Generation → Outcome Generation
insert_generation db rows g =
    if any (conflicts g) rows
    then (db, err unique)
    else if member_text g.domain db.certs
    then (
      record db { generations = rows ++ g ∷ []; next_generation_id = db.next_generation_id + 1 },
      ok g,
    )
    else (db, err foreign_key)

-- The row that `CreateCertificateGeneration` inserts under the next id.
unfoldable pub new_generation : Db → ℕ → GenerationRequest → ℤ → ℕ → Generation
new_generation db now r generation revision = record {
  id = db.next_generation_id;
  job_id = r.job_id;
  domain = r.domain;
  generation = generation;
  revision = revision;
  status = default_generation_status r.status;
  certificate_ref = r.certificate_ref;
  private_key_ref = r.private_key_ref;
  manifest_digest = r.manifest_digest;
  serial = r.serial;
  fingerprint = r.fingerprint;
  current = r.current;
  not_before = r.not_before;
  not_after = r.not_after;
  error_message = r.error_message;
  created_at = if r.created_at == 0 then now else r.created_at;
  updated_at = now;
}

-- The rest of `CreateCertificateGeneration` once the job's row is read.
unfoldable pub create_for_job : Db → ℕ → GenerationRequest → Generation → Job → Outcome Generation
create_for_job db now r g job =
    if not (job.domain == r.domain)
    then (db, err invalid_argument)
    else if r.current && not (is_issued g.status)
    then (db, err invalid_argument)
    else if r.current
    then insert_generation db (update (is_current_of r.domain) (demoted now) db.generations) g
    else insert_generation db db.generations g

-- Its statement that reads the job, and the rest.
unfoldable pub create_numbered : Db → ℕ → GenerationRequest → ℤ → ℕ → Outcome Generation
create_numbered db now r generation revision = elim (find (λ j. j.id == r.job_id) db.jobs) [
  | none ↦ (db, err no_rows)
  | some job ↦ create_for_job db now r (new_generation db now r generation revision) job
]

-- `if generation.Generation == 0` and `if generation.Revision == 0`.
unfoldable pub numbered : Db → GenerationRequest → ℤ
numbered db r =
    if is_zero_ℤ r.generation then next_generation r.domain db.generations else r.generation

unfoldable pub revised : Db → GenerationRequest → ℤ
revised db r = if is_zero_ℤ r.revision then numbered db r else r.revision

-- The tests of `CreateCertificateGeneration` that need no row.
unfoldable pub is_creatable : Db → GenerationRequest → Bool
is_creatable db r =
    not (is_empty r.job_id || is_empty r.domain)
    && is_certificate_domain r.domain
    && valid_generation_status (default_generation_status r.status)
    && leb_ℤ (pos 1) (revised db r)

unfoldable pub create_certificate_generation :
    Db → ℕ → Option GenerationRequest → Outcome Generation
create_certificate_generation db now none = (db, err invalid_argument)
create_certificate_generation db now (some r) =
    if is_creatable db r
    then create_numbered db now r (numbered db r) (pos_part (revised db r))
    else (db, err invalid_argument)

-- `WHERE domain=? AND id<>? AND current=1`.
abbrev pub is_other_current : Text → ℕ → Generation → Bool
is_other_current domain id g = g.domain == domain && not (g.id == id) && g.current

-- The row that `UpdateCertificateGenerationStatus` writes.
unfoldable pub with_outcome :
    ℕ → GenerationStatus → Text → Text → Text → Option ℕ → Option ℕ → Generation → Generation
with_outcome now status certificate_ref private_key_ref error_message not_before not_after g =
    record g {
      status = status;
      certificate_ref = null_string certificate_ref;
      private_key_ref = null_string private_key_ref;
      error_message = null_string error_message;
      not_before = not_before;
      not_after = not_after;
      current = is_issued status && not (is_empty certificate_ref);
      updated_at = now;
    }

unfoldable pub update_generation_status :
    Db → ℕ → ℕ → GenerationStatus → Text → Text → Text → Option ℕ → Option ℕ → Outcome (Unit {0})
update_generation_status db now id status certificate_ref private_key_ref error_message not_before
      not_after =
    if not (valid_generation_status status)
    then (db, err invalid_argument)
    else elim (find (λ g. g.id == id) db.generations) [
      | none ↦ (db, err no_rows)
      | some g ↦ (
        record db {
          generations =
              update (λ h. h.id == id)
                (with_outcome now status certificate_ref private_key_ref error_message not_before
                  not_after)
                (if is_issued status && not (is_empty certificate_ref)
                  then update (is_other_current g.domain id) (demoted now) db.generations
                  else db.generations);
        },
        ok tt,
      )
    ]

-- Another row of the domain has the revision: the index on (domain, revision) forbids it.
unfoldable pub is_revision_taken : Db → ℕ → Text → ℕ → Bool
is_revision_taken db id domain revision =
    any (λ h. not (h.id == id) && h.domain == domain && h.revision == revision) db.generations

-- The row that `UpdateCertificateGenerationArtifact` writes.
unfoldable pub with_artifact : ℕ → GenerationArtifact → Generation → Generation
with_artifact now a g = record g {
  revision = pos_part a.revision;
  manifest_digest = some a.manifest_digest;
  serial = null_string a.serial;
  fingerprint = some a.fingerprint;
  current = a.current;
  updated_at = now;
}

unfoldable pub update_generation_artifact : Db → ℕ → ℕ → GenerationArtifact → Outcome (Unit {0})
update_generation_artifact db now id a =
    if not (
      leb_ℤ (pos 1) a.revision
      && valid_sha256_digest a.manifest_digest
      && valid_sha256_digest a.fingerprint)
    then (db, err invalid_argument)
    else elim (find (λ g. g.id == id) db.generations) [
      | none ↦ (db, err no_rows)
      | some g ↦
          if a.current && not (is_issued g.status)
          then (db, err invalid_argument)
          else if is_revision_taken db id g.domain (pos_part a.revision)
          then (db, err unique)
          else (
            record db {
              generations =
                  update (λ h. h.id == id) (with_artifact now a)
                    (if a.current
                      then update (is_other_current g.domain id) (demoted now) db.generations
                      else db.generations);
            },
            ok tt,
          )
    ]

unfoldable pub get_current_generation : Db → Text → Option Generation
get_current_generation db domain = find (is_current_of domain) db.generations

unfoldable pub get_certificate_generation : Db → ℕ → Option Generation
get_certificate_generation db id = find (λ g. g.id == id) db.generations

-- `DELETE ... WHERE id=?`; deployment reports that refer to the row forbid it.
unfoldable pub delete_generation : Db → ℕ → Outcome (Unit {0})
delete_generation db id =
    if any (λ g. g.id == id) db.generations
    then if any (λ i. i == id) db.reported
      then (db, err foreign_key)
      else (record db { generations = filter (λ g. not (g.id == id)) db.generations }, ok tt)
    else (db, err no_rows)
