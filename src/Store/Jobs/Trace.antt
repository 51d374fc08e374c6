-- ===== src/Store/Jobs/Trace.antt =====
-- Histories of calls on certificate_jobs, each with the clock's reading.
use cert_keeper.Prelude.{
  ◌+◌, ℕ, ◌<◌, Text, Bool, true, false, not, ◌==◌, nat_eq, text_eq, Option, some, List, [], ◌∷◌,
  any, ◌≡◌, ◌≢◌, ◌⊎◌, refl, arith, All, Bool-cases, if_either, inl, inr, text_beq_iff, ap, ◌∙◌, sym,
}
use cert_keeper.Prelude.Int.{ℤ, pos_part}
use cert_keeper.Store.Sql.{find}
use cert_keeper.Store.Sql.Laws.{find-update_other, find-snoc, find-filter, find_sound}
use cert_keeper.Store.Schema.{Job, JobStatus, JobRequest, Db, Generation, Outcome, running}
use cert_keeper.Store.Jobs.Values.{update_one, valid_job_status}
use cert_keeper.Store.Jobs.Create.{create_certificate_job}
use cert_keeper.Store.Jobs.Lease.{
  claim, claim_row, renew_lease, release_lease, retry_at, is_held_by, is_exhausted, fail_exhausted,
  lease_to, is_recoverable, duration_seconds,
}
use cert_keeper.Store.Jobs.Status.{update_certificate_job_status, delete_certificate_job}
use cert_keeper.Store.Jobs.WellFormed.{
  IsWellFormed, IsHarmless, Found, Found-unique, renew_lease-IsWellFormed,
  release_lease-IsWellFormed, retry_at-IsWellFormed, update_status-IsWellFormed,
  delete_job-IsWellFormed, create_job-IsWellFormed, released-IsHarmless, retried-IsHarmless,
  with_status-IsHarmless,
}
use cert_keeper.Store.Jobs.Created.{Adds, create-Adds}
use cert_keeper.Store.Jobs.Claimed.{nothing, leased, claim_row-cases, claim-IsWellFormed, swept}

pub data Call : Type 0 where
  creates : Option Text → Option JobRequest → Call
  claims : Text → ℤ → Call
  renews : Text → Text → ℤ → Call
  releases : Text → Text → Call
  retries : Text → Text → Text → Text → ℕ → Call
  sets_status : Text → JobStatus → Text → Call
  deletes : Text → Call

unfoldable pub step : Db → ℕ × Call → Db
step db (now, creates fresh r) = (create_certificate_job db now fresh r).0
step db (now, claims owner d) = (claim db now owner d).0
step db (now, renews id owner d) = (renew_lease db now id owner d).0
step db (now, releases id owner) = (release_lease db now id owner).0
step db (now, retries id owner code message next) = (retry_at db now id owner code message next).0
step db (now, sets_status id status message) =
    (update_certificate_job_status db now id status message).0
step db (now, deletes id) = (delete_certificate_job db id).0

unfoldable pub run : Db → List (ℕ × Call) → Db
run db [] = db
run db (c ∷ cs) = run (step db c) cs

pub step-IsWellFormed : (db : Db) (c : ℕ × Call) → IsWellFormed db → IsWellFormed (step db c)
unfolding step
step-IsWellFormed db (now, creates fresh r) w = create_job-IsWellFormed db now fresh r w
step-IsWellFormed db (now, claims owner d) w = claim-IsWellFormed db now owner d w
step-IsWellFormed db (now, renews id owner d) w = renew_lease-IsWellFormed db now id owner w d
step-IsWellFormed db (now, releases id owner) w = release_lease-IsWellFormed db now id owner w
step-IsWellFormed db (now, retries id owner code message next) w =
    retry_at-IsWellFormed db now id owner w code message next
step-IsWellFormed db (now, sets_status id status message) w =
    update_status-IsWellFormed db now id message w status message
step-IsWellFormed db (now, deletes id) w = delete_job-IsWellFormed db id w

-- Whatever the history of calls on a well-formed database, ids stay unique, no two jobs share a
-- domain, an operation and a key, and no job has more attempts than it may have.
pub run-IsWellFormed :
    (db : Db) (calls : List (ℕ × Call)) → IsWellFormed db → IsWellFormed (run db calls)
unfolding run
run-IsWellFormed db [] w = w
run-IsWellFormed db (c ∷ cs) w = run-IsWellFormed (step db c) cs (step-IsWellFormed db c w)

-- The job with the id is the row `j`, which the owner holds until the instant.
pub record IsLeased (id owner : Text) (until : ℕ) (j : Job) (db : Db) : Type 0 where
  pub present : find (λ k. k.id == id) db.jobs ≡ some j
  pub is_run : j.status ≡ running
  pub held : j.lease_owner ≡ some owner
  pub lasting : j.lease_until ≡ some until

-- A call before the lease ends that is neither the holder's own on the job nor an administrator's.
abbrev pub IsForeign : Text → Text → ℕ → ℕ × Call → Type 0
IsForeign id owner until (now, creates _ _) = now < until
IsForeign id owner until (now, claims _ _) = now < until
IsForeign id owner until (now, renews i o _) = (now < until) × ((i ≢ id) ⊎ (o ≢ owner))
IsForeign id owner until (now, releases i o) = (now < until) × ((i ≢ id) ⊎ (o ≢ owner))
IsForeign id owner until (now, retries i o _ _ _) = (now < until) × ((i ≢ id) ⊎ (o ≢ owner))
IsForeign id owner until (now, sets_status i _ _) = i ≢ id
IsForeign id owner until (now, deletes i) = i ≢ id

module _ (id owner : Text) (until : ℕ) (j : Job) (db : Db)
    (leased_now : IsLeased id owner until j db) where
  open leased_now use {present, is_run, held, lasting}

  own_id : j.id ≡ id
  own_id = (text_beq_iff j.id id).0 (find_sound (λ k. k.id == id) db.jobs present)

  -- Updates of rows that the job is not among.
  update_one-keeps :
      (p : Job → Bool) (f : Job → Job)
      → IsHarmless f
      → p j ≡ false
      → find (λ k. k.id == id) (update_one db p f).0.jobs ≡ some j
  update_one-keeps p f h n = elim (Bool-cases (any p db.jobs)) [
    | inl e ↦ rw e (
        find-update_other (λ k. k.id == id) p f db.jobs (λ y. ap (λ i. i == id) (h.same_id y)) n
          present)
    | inr e ↦ rw e present
  ]

  not_held : (now : ℕ) (i o : Text) → (i ≢ id) ⊎ (o ≢ owner) → is_held_by i o now j ≡ false
  not_held now i o h = ground (arith, own_id, text_beq_iff j.id i, text_beq_iff owner o)

  other_id : (i : Text) → i ≢ id → (j.id == i) ≡ false
  other_id i n = ground (arith, own_id, text_beq_iff j.id i)

  -- A row that is added or not.
  Adds-keeps : (db' : Db) → Adds db db' → find (λ k. k.id == id) db'.jobs ≡ some j
  Adds-keeps db' (inl same) = rw same present
  Adds-keeps db' (inr (k, same)) = rw same (find-snoc (λ k. k.id == id) db.jobs k present)

  -- Before the lease ends, `Claim` neither fails the row nor may take it.
  not_exhausted : (now : ℕ) → now < until → is_exhausted now j ≡ false
  not_exhausted now h = ground arith

  not_recoverable : (now : ℕ) → now < until → is_recoverable now j ≡ false
  not_recoverable now h = ground arith

  swept-keeps : (now : ℕ) → now < until → find (λ k. k.id == id) (swept db now) ≡ some j
  unfolding fail_exhausted
  swept-keeps now h =
      find-update_other (λ k. k.id == id) (is_exhausted now) (fail_exhausted now) db.jobs
        (λ y. refl) (not_exhausted now h) present

  claim-keeps :
      (now until' : ℕ) (o : Text)
      → IsWellFormed db
      → now < until
      → find (λ k. k.id == id) (claim_row db o until' now).0.jobs ≡ some j
  unfolding lease_to
  claim-keeps now until' o w h = elim (claim_row-cases db o until' now w) [
    | nothing n e ↦ rw e (swept-keeps now h)
    | leased k first found ready e ↦ rw e (
        find-update_other (λ l. l.id == id) (λ l. l.id == k.id) (lease_to o until' now)
          (swept db now) (λ y. refl) (other k found ready) (swept-keeps now h))
  ]
    where
      other :
          (k : Job) → Found (swept db now) k → is_recoverable now k ≡ true → (j.id == k.id) ≡ false
      other k found ready = elim (Bool-cases (j.id == k.id)) [
        | inr n ↦ n
        | inl same ↦
            let selected : find (λ l. l.id == j.id) (swept db now) ≡ some j =
              ap (λ i. find (λ l. l.id == i) (swept db now)) own_id ∙ swept-keeps now h in
            let equal : j ≡ k =
              Found-unique (swept db now) k j found selected ((text_beq_iff j.id k.id).0 same) in
            let twice : true ≡ false =
              sym ready ∙ ap (is_recoverable now) (sym equal) ∙ not_recoverable now h in
            absurd cc
      ]

-- No foreign call before the lease ends changes the leased row.
step-keeps :
    (id owner : Text) (until : ℕ) (j : Job) (db : Db) (c : ℕ × Call)
    → IsWellFormed db
    → IsLeased id owner until j db
    → IsForeign id owner until c
    → find (λ k. k.id == id) (step db c).jobs ≡ some j
unfolding step renew_lease release_lease retry_at update_certificate_job_status
    delete_certificate_job claim
step-keeps id owner until j db (now, creates fresh r) w l h =
    Adds-keeps id owner until j db l _ (create-Adds db now fresh r)
step-keeps id owner until j db (now, claims o d) w l h =
    if_either (λ (x : Outcome (Option Job)). find (λ k. k.id == id) x.0.jobs ≡ some j) _ l.present
      (claim-keeps id owner until j db l now (now + duration_seconds (pos_part d)) o w h)
step-keeps id owner until j db (now, renews i o d) w l (h, n) =
    if_either (λ (x : Outcome (Unit {0})). find (λ k. k.id == id) x.0.jobs ≡ some j) _ l.present
      (update_one-keeps id owner until j db l (is_held_by i o now) _ (ground arith)
        (not_held id owner until j db l now i o n))
step-keeps id owner until j db (now, releases i o) w l (h, n) =
    if_either (λ (x : Outcome (Unit {0})). find (λ k. k.id == id) x.0.jobs ≡ some j) _ l.present
      (update_one-keeps id owner until j db l (is_held_by i o now) _ (released-IsHarmless now)
        (not_held id owner until j db l now i o n))
step-keeps id owner until j db (now, retries i o code message next) w l (h, n) =
    if_either (λ (x : Outcome (Unit {0})). find (λ k. k.id == id) x.0.jobs ≡ some j) _ l.present
      (update_one-keeps id owner until j db l (is_held_by i o now) _
        (retried-IsHarmless now next code message) (not_held id owner until j db l now i o n))
step-keeps id owner until j db (now, sets_status i status message) w l n =
    if_either (λ (x : Outcome (Unit {0})). find (λ k. k.id == id) x.0.jobs ≡ some j)
      (valid_job_status status)
      (update_one-keeps id owner until j db l (λ k. k.id == i) _
        (with_status-IsHarmless now status message) (other_id id owner until j db l i n))
      l.present
step-keeps id owner until j db (now, deletes i) w l n =
    if_either (λ (x : Outcome (Unit {0})). find (λ k. k.id == id) x.0.jobs ≡ some j)
      (any (λ k. k.id == i) db.jobs)
      (if_either (λ (x : Outcome (Unit {0})). find (λ k. k.id == id) x.0.jobs ≡ some j)
        (any (λ (g : Generation). g.job_id == i) db.generations) l.present
        (find-filter (λ k. k.id == id) (λ k. not (k.id == i)) db.jobs
          (rw (other_id id owner until j db l i n) refl) l.present))
      l.present

-- On a well-formed database, a job that is leased stays leased to its holder, every column as it
-- was, through any history of calls before the lease ends of which none is the holder's own on the
-- job and none sets the job's status or deletes it.
pub lease-is_exclusive :
    (id owner : Text) (until : ℕ) (j : Job) (db : Db) (calls : List (ℕ × Call))
    → IsWellFormed db
    → IsLeased id owner until j db
    → All (IsForeign id owner until) calls
    → IsLeased id owner until j (run db calls)
unfolding run
lease-is_exclusive id owner until j db [] w l h = l
lease-is_exclusive id owner until j db (c ∷ cs) w l (h, hs) =
    lease-is_exclusive id owner until j (step db c) cs (step-IsWellFormed db c w)
      (record {
        present = step-keeps id owner until j db c w l h;
        is_run = l.is_run;
        held = l.held;
        lasting = l.lasting;
      })
      hs
