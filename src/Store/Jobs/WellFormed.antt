-- ===== src/Store/Jobs/WellFormed.antt =====
-- The constraints of certificate_jobs, kept by every operation.
use mathlib.Core.Path.{subst}
use cert_keeper.Prelude.{
  ℕ, ◌≤◌, Text, Bool, true, false, not, ◌||◌, ◌==◌, nat_eq, text_eq, Option, none, some, ok, err,
  List, [], ◌∷◌, ◌++◌, any, ◌≡◌, refl, sym, ap, ◌∙◌, arith, All, Bool-cases, if_either, Result,
  Option-cases, inl, inr, text_beq_iff,
}
use cert_keeper.Prelude.Int.{ℤ}
use cert_keeper.Store.Sql.{update, find}
use cert_keeper.Store.Sql.Laws.{
  AllPairs, AllPairs-snoc, AllPairs-filter, AllPairs-update, All-update, All-snoc, All-kept,
  All-zip,
}
use cert_keeper.Store.Schema.{
  Job, JobStatus, JobRequest, Db, Generation, Outcome, unique, StoreError,
}
use cert_keeper.Store.Jobs.Values.{same_key, update_one, valid_job_status}
use cert_keeper.Store.Jobs.Create.{
  create_certificate_job, create_with_id, new_job, valid_request, is_named, insert_job,
  insert_or_get, get_by_idempotency, job_id,
}
use cert_keeper.Store.Jobs.Lease.{
  fail_exhausted, lease_to, renew_lease, released, release_lease, retried, retry_at, is_held_by,
}
use cert_keeper.Store.Jobs.Status.{
  with_status, update_certificate_job_status, delete_certificate_job,
}

-- Two rows that the primary key or the unique index would not allow together.
abbrev pub clash : Job → Job → Bool
clash j k = j.id == k.id || same_key k.domain k.operation k.idempotency_key j

abbrev pub Apart : Job → Job → Type 0
Apart j k = clash j k ≡ false

-- A job has made no more attempts than it may, and may make one.
pub record IsBounded (j : Job) : Type 0 where
  pub bounded : j.attempts ≤ j.max_attempts
  pub allowed : 1 ≤ j.max_attempts

-- No two jobs share an id, or a domain, an operation and a key; every job is bounded.
pub record IsWellFormed (db : Db) : Type 0 where
  pub apart : AllPairs Apart db.jobs
  pub bounded : All IsBounded db.jobs

-- An update that changes neither the keys nor what may be attempted.
pub record IsHarmless (f : Job → Job) : Type 0 where
  pub same_id : (j : Job) → (f j).id ≡ j.id
  pub same_domain : (j : Job) → (f j).domain ≡ j.domain
  pub same_operation : (j : Job) → (f j).operation ≡ j.operation
  pub same_idempotency_key : (j : Job) → (f j).idempotency_key ≡ j.idempotency_key

pub update-Apart :
    (p : Job → Bool) (f : Job → Job) (jobs : List Job)
    → IsHarmless f
    → AllPairs Apart jobs
    → AllPairs Apart (update p f jobs)
update-Apart p f jobs h a =
    AllPairs-update Apart p f jobs
      (λ x y r. rw (h.same_id x, h.same_domain x, h.same_operation x, h.same_idempotency_key x) r)
      (λ x y r. rw (h.same_id y, h.same_domain y, h.same_operation y, h.same_idempotency_key y) r) a

pub lease_to-IsHarmless : (owner : Text) (until now : ℕ) → IsHarmless (lease_to owner until now)
unfolding lease_to
lease_to-IsHarmless owner until now = ground arith

pub fail_exhausted-IsHarmless : (now : ℕ) → IsHarmless (fail_exhausted now)
unfolding fail_exhausted
fail_exhausted-IsHarmless now = ground arith

pub released-IsHarmless : (now : ℕ) → IsHarmless (released now)
unfolding released
released-IsHarmless now = ground arith

pub retried-IsHarmless :
    (now next : ℕ) (code message : Text) → IsHarmless (retried now next code message)
unfolding retried
retried-IsHarmless now next code message = ground arith

pub with_status-IsHarmless :
    (now : ℕ) (s : JobStatus) (message : Text) → IsHarmless (with_status now s message)
unfolding with_status
with_status-IsHarmless now s message = ground arith

-- The row is the one that its id selects.
abbrev pub Found : List Job → Job → Type 0
Found jobs j = find (λ k. k.id == j.id) jobs ≡ some j

-- Where the rows are apart, every row is found by its id.
pub All-Found : (jobs : List Job) → AllPairs Apart jobs → All (Found jobs) jobs
All-Found [] h = tt
All-Found (j ∷ js) (h, hs) = (
  ground (arith, text_beq_iff j.id j.id),
  All-zip js (λ k apart found. rest k apart found) h (All-Found js hs),
)
  where
    rest : (k : Job) → Apart j k → Found js k → Found (j ∷ js) k
    rest k apart found = ground arith

pub Found-unique : (jobs : List Job) (j k : Job) → Found jobs j → Found jobs k → k.id ≡ j.id → k ≡ j
Found-unique jobs j k fj fk e =
    let same : some k ≡ some j = sym fk ∙ ap (λ i. find (λ l. l.id == i) jobs) e ∙ fj in cc

update_one-IsWellFormed :
    (db : Db) (p : Job → Bool) (f : Job → Job)
    → IsHarmless f
    → ((j : Job) → IsBounded j → IsBounded (f j))
    → IsWellFormed db
    → IsWellFormed (update_one db p f).0
update_one-IsWellFormed db p f h keep w = elim (Bool-cases (any p db.jobs)) [
  | inl e ↦ rw e (record {
    apart = update-Apart p f db.jobs h w.apart;
    bounded = All-update IsBounded p f db.jobs (λ j b _. keep j b) w.bounded;
  })
  | inr n ↦ rw n w
]

module _ (db : Db) (now : ℕ) (id owner : Text) (w : IsWellFormed db) where
  pub renew_lease-IsWellFormed : (d : ℤ) → IsWellFormed (renew_lease db now id owner d).0
  unfolding renew_lease
  renew_lease-IsWellFormed d =
      if_either (λ (o : Outcome (Unit {0})). IsWellFormed o.0) _ w
        (update_one-IsWellFormed db (is_held_by id owner now) _ (ground arith) (λ j b. ground arith)
          w)

  pub release_lease-IsWellFormed : IsWellFormed (release_lease db now id owner).0
  unfolding release_lease
  release_lease-IsWellFormed =
      if_either (λ (o : Outcome (Unit {0})). IsWellFormed o.0) _ w
        (update_one-IsWellFormed db (is_held_by id owner now) (released now)
          (released-IsHarmless now) (λ j b. unfold released in ground arith) w)

  pub retry_at-IsWellFormed :
      (code message : Text) (next : ℕ) → IsWellFormed (retry_at db now id owner code message next).0
  unfolding retry_at
  retry_at-IsWellFormed code message next =
      if_either (λ (o : Outcome (Unit {0})). IsWellFormed o.0) _ w
        (update_one-IsWellFormed db (is_held_by id owner now) (retried now next code message)
          (retried-IsHarmless now next code message) (λ j b. unfold retried in ground arith) w)

  pub update_status-IsWellFormed :
      (status : JobStatus) (message : Text)
      → IsWellFormed (update_certificate_job_status db now id status message).0
  unfolding update_certificate_job_status
  update_status-IsWellFormed status message =
      if_either (λ (o : Outcome (Unit {0})). IsWellFormed o.0) (valid_job_status status)
        (update_one-IsWellFormed db (λ j. j.id == id) (with_status now status message)
          (with_status-IsHarmless now status message) (λ j b. unfold with_status in ground arith) w)
        w

pub delete_job-IsWellFormed :
    (db : Db) (id : Text) → IsWellFormed db → IsWellFormed (delete_certificate_job db id).0
unfolding delete_certificate_job
delete_job-IsWellFormed db id w =
    if_either (λ (o : Outcome (Unit {0})). IsWellFormed o.0) (any (λ j. j.id == id) db.jobs)
      (if_either (λ (o : Outcome (Unit {0})). IsWellFormed o.0)
        (any (λ (g : Generation). g.job_id == id) db.generations) w
        (record {
          apart = AllPairs-filter Apart (λ j. not (j.id == id)) db.jobs w.apart;
          bounded = All-kept IsBounded (λ j. not (j.id == id)) db.jobs w.bounded;
        }))
      w

-- A row that the table takes clashes with none of its rows.
pub no_clash :
    (j : Job) (jobs : List Job) → any (λ k. clash k j) jobs ≡ false → All (λ k. Apart k j) jobs
no_clash j [] h = tt
no_clash j (k ∷ ks) h = ground (arith, no_clash j ks)

new_job-IsBounded :
    (now : ℕ) (id : Text) (r : JobRequest) → valid_request r ≡ true → IsBounded (new_job now id r)
unfolding new_job valid_request
new_job-IsBounded now id r h = ground arith

insert_job-IsWellFormed :
    (db : Db) (j : Job) {db' : Db}
    → IsWellFormed db
    → IsBounded j
    → insert_job db j ≡ ok db'
    → IsWellFormed db'
unfolding insert_job
insert_job-IsWellFormed db j {db'} w b e = elim (Bool-cases (any (λ k. clash k j) db.jobs)) [
  | inl c ↦ absurd (ground arith)
  | inr n ↦
      let same : record db { jobs = db.jobs ++ j ∷ [] } ≡ db' = ground arith in
      subst IsWellFormed same (record {
        apart = AllPairs-snoc Apart db.jobs j w.apart (no_clash j db.jobs n);
        bounded = All-snoc IsBounded db.jobs w.bounded b;
      })
]

insert_or_get-IsWellFormed :
    (db : Db) (j : Job) (r : Result StoreError Db)
    → insert_job db j ≡ r
    → IsWellFormed db
    → IsBounded j
    → IsWellFormed (insert_or_get db j).0
unfolding insert_or_get
insert_or_get-IsWellFormed db j (ok db') e w b =
    rw (e, insert_or_get) (insert_job-IsWellFormed db j w b e)
insert_or_get-IsWellFormed db j (err unique) e w b =
    elim (Option-cases (get_by_idempotency db j.domain j.operation j.idempotency_key)) [
      | inl n ↦ rw (e, n, insert_or_get) w
      | inr (k, s) ↦ rw (e, s, insert_or_get) w
    ]
insert_or_get-IsWellFormed db j (err x) e w b = rw (e, insert_or_get) w

create_with_id-IsWellFormed :
    (db : Db) (now : ℕ) (r : JobRequest) (id : Option Text)
    → IsWellFormed db
    → IsWellFormed (create_with_id db now r id).0
unfolding create_with_id
create_with_id-IsWellFormed db now r none w = w
create_with_id-IsWellFormed db now r (some id) w = elim (Bool-cases (valid_request r)) [
  | inl v ↦
      rw v
        (insert_or_get-IsWellFormed db (new_job now id r) _ refl w (new_job-IsBounded now id r v))
  | inr n ↦ rw n w
]

pub create_job-IsWellFormed :
    (db : Db) (now : ℕ) (fresh : Option Text) (r : Option JobRequest)
    → IsWellFormed db
    → IsWellFormed (create_certificate_job db now fresh r).0
unfolding create_certificate_job
create_job-IsWellFormed db now fresh none w = w
create_job-IsWellFormed db now fresh (some r) w =
    if_either (λ (o : Outcome Job). IsWellFormed o.0) (is_named r)
      (create_with_id-IsWellFormed db now r (job_id r.id fresh) w) w
