-- ===== src/Scheduler/Adapter/Spending.antt =====
-- The tries that are left to the jobs, as the server's worker spends them.
use cert_keeper.Prelude.{
  is_empty, ℕ, ◌-◌, ◌≤◌, ◌<◌, Text, nat_eq, text_eq, Option, none, some, Result, ok, err, List, ◌≡◌,
  refl, ap, All, if_either,
}
use cert_keeper.Prelude.Int.{pos}
use cert_keeper.Store.Schema.{Db, Job, Outcome}
use cert_keeper.Store.Jobs.Lease.{claim}
use cert_keeper.Store.Jobs.WellFormed.{
  IsWellFormed, update_status-IsWellFormed, renew_lease-IsWellFormed,
}
use cert_keeper.Store.Jobs.Claimed.{claim-IsWellFormed}
use cert_keeper.Service.Execute.{Answers}
use cert_keeper.Service.Execute.Keeps.{execute-keeps}
use cert_keeper.Scheduler.{Config}
use cert_keeper.Scheduler.Worker.{Task, ClaimRequest, Failure, Turn, PersistentSummary}
use cert_keeper.Scheduler.Worker.Cycle.{process_due_jobs}
use cert_keeper.Scheduler.Worker.Ends.{Within, TurnKeeps, IsSpending}
use cert_keeper.Scheduler.Worker.Ends
use cert_keeper.Scheduler.Adapter.{
  World, Certs, on_db, answer, claim_job, claimed_task, renew_job_lease, update_job, executed,
  reconcile_read, reconcile_job, server_worker, seconds,
}
use cert_keeper.Scheduler.Adapter.Tries.{
  tries, unchanged, Spends, update_status-tries, renewed-tries, Spends-IsKept, claim-tries,
}

-- The world as far as its table of jobs goes.
abbrev pub IsReady : World → Type 0
IsReady s = IsWellFormed s.db

abbrev pub world_tries : World → ℕ
world_tries s = tries s.db

claimed-row :
    (certs : Certs) (s s' : World) (out : Outcome (Option Job)) (k : Task)
    → answer (claimed_task certs) (on_db certs s out) ≡ (s', ok (some k))
    → (j : Job) × (out ≡ (s'.db, ok (some j)))
claimed-row certs s s' (db, ok none) k h = absurd cc
claimed-row certs s s' (db, ok (some j)) k h =
    let same : record s { db = db } ≡ s' = ap (λ o. o.0) h in
    let rows : db ≡ s'.db = ap (λ (x : World). x.db) same in (j, rw rows refl)
claimed-row certs s s' (db, err e) k h = absurd cc

claim_job-spends :
    (certs : Certs) (r : ClaimRequest) (s s' : World) (k : Task)
    → IsReady s
    → claim_job certs r s ≡ (s', ok (some k))
    → IsReady s' × (world_tries s' < world_tries s)
unfolding claim_job
claim_job-spends certs r s s' k w h =
    let d = pos (r.lease_until - r.now) in
    let (j, claimed) = claimed-row certs s s' (claim s.db (seconds s) r.owner d) k h in
    let before = claim-IsWellFormed s.db (seconds s) r.owner d w in
    let kept = rw claimed at before in
    (kept, claim-tries s.db s'.db (seconds s) r.owner d j w claimed)

answer-Within :
    {A B : Type 0} (certs : Certs) (s : World) (f : A → B) (out : Outcome A) (bound : ℕ)
    → IsWellFormed out.0
    → tries out.0 ≤ bound
    → Within IsReady world_tries bound (answer f (on_db certs s out)).0
answer-Within certs s f (db, ok a) bound w le = (w, le)
answer-Within certs s f (db, err e) bound w le = (w, le)

answer-canceled :
    {A B : Type 0} (certs : Certs) (s : World) (f : A → B) (out : Outcome A)
    → (answer f (on_db certs s out)).0.canceled ≡ s.canceled
answer-canceled certs s f (db, ok a) = refl
answer-canceled certs s f (db, err e) = refl

executed-Within :
    (s : World) (out : Db × Result Text (Unit {0})) (bound : ℕ)
    → Spends bound out.0
    → Within IsReady world_tries bound (executed s out).0
executed-Within s (db, ok u) bound h = h
executed-Within s (db, err m) bound h = h

reconcile_read-Keeps :
    (a : Answers) (owner : Text) (row : Option Job) (s : World)
    → IsReady s
    → Within IsReady world_tries (world_tries s) (reconcile_read a owner s row).0
reconcile_read-Keeps a owner none s w = (w, unchanged s.db)
reconcile_read-Keeps a owner (some job) s w =
    if_either
      (λ (x : World × Result Failure (Unit {0})). Within IsReady world_tries (world_tries s) x.0)
      (is_empty owner) (w, unchanged s.db)
      (executed-Within s _ (world_tries s) (
        execute-keeps (Spends (world_tries s)) a (seconds s) owner job
          (Spends-IsKept (world_tries s) (seconds s)) s.db (w, unchanged s.db)))

module _ (certs : Certs) (config : Config) (owner : Text) (print : ℕ → Text)
    (meanwhile : Task → World → List (Turn World)) (answers : Task → World → Answers)
    (keeps : (job : Task) (s : World) → All (TurnKeeps IsReady world_tries) (meanwhile job s)) where
  -- The server's worker spends a try with every claim.
  pub server_worker-IsSpending :
      IsSpending (server_worker certs config owner print meanwhile answers) IsReady world_tries
  unfolding server_worker update_job renew_job_lease reconcile_job
  server_worker-IsSpending = record {
    claims = λ r s s' k w h. claim_job-spends certs r s s' k w h;
    renews = λ r s w.
        let d = pos (r.lease_until - r.now) in
        answer-Within certs s _ _ (world_tries s)
          (renew_lease-IsWellFormed s.db (seconds s) r.id r.owner w d)
          (renewed-tries s.db (seconds s) r.id r.owner d);
    updates = λ u ends s w.
        answer-Within certs s _ _ (world_tries s)
          (update_status-IsWellFormed s.db (seconds s) u.id u.last_error w u.status u.last_error)
          (update_status-tries s.db (seconds s) u.id u.status u.last_error ends);
    stays = λ u s. answer-canceled certs s _ _;
    turns = λ actor job s. keeps job s;
    ending =
        λ actor job s canceled s' w. reconcile_read-Keeps (answers job s') job.lease_owner _ s' w;
  }

  -- On a well-formed table of jobs, the loop of the server's worker returns: it needs no more turns
  -- than there are tries left to the jobs that are queued or running, whatever the service answers
  -- to each job, whichever updates fail and whenever the context is cancelled; what happens while a
  -- job is reconciled keeps the table well-formed and gives no job another try.
  pub server_worker-ends :
      (fuel : ℕ) (s : World) (t : PersistentSummary)
      → IsReady s
      → world_tries s < fuel
      → (y : World × PersistentSummary) × (process_due_jobs
            (server_worker certs config owner print meanwhile answers)
            fuel
            (s, t)
          ≡ some y)
  server_worker-ends fuel s t w less =
      Ends.process_due_jobs-ends (server_worker certs config owner print meanwhile answers) IsReady
        world_tries server_worker-IsSpending fuel s t w less
