-- ===== src/Scheduler/Adapter/Scan.antt =====
-- What a scan of the server's worker leaves in the tables.
use cert_keeper.Prelude.{
  ℕ, Text, Bool, true, false, ◌==◌, text_eq, Option, none, some, ok, err, List, [], ◌∷◌, codes, ◌≡◌,
  refl, ◌∙◌, arith, if_either,
}
use cert_keeper.Store.Schema.{Db, Job, JobRequest, Outcome}
use cert_keeper.Store.Jobs.Values.{member_text, refers_to}
use cert_keeper.Store.Jobs.Create.{
  create_certificate_job, create_with_id, insert_or_get, insert_job, new_job, valid_request,
  is_named, job_id,
}
use cert_keeper.Scheduler.{Config}
use cert_keeper.Scheduler.Worker.{
  Candidate, Task, Answer, Turn, PersistentWorker, PersistentSummary,
}
use cert_keeper.Scheduler.Worker.Cycle.{
  scan_candidates, scan_rest, scan_unless, scan_candidate, after_create,
}
use cert_keeper.Scheduler.Adapter.{
  World, Certs, on_db, answer, create_job, job_request, worker_actor, server_worker,
  list_candidates, seconds,
}
use cert_keeper.Service.Execute.{Answers}

insert-refused :
    (db : Db) (j : Job) → refers_to j.requested_by db.tokens ≡ false → (insert_or_get db j).0 ≡ db
unfolding insert_or_get insert_job
insert-refused db j h = ground arith

create_with_id-refused :
    (db : Db) (now : ℕ) (r : JobRequest) (id : Option Text)
    → refers_to r.requested_by db.tokens ≡ false
    → (create_with_id db now r id).0 ≡ db
unfolding create_with_id new_job
create_with_id-refused db now r none h = refl
create_with_id-refused db now r (some id) h =
    if_either (λ (o : Outcome Job). o.0 ≡ db) (valid_request r)
      (insert-refused db (new_job now id r) h) refl

-- A job requested by who is no token is not created.
create-refused :
    (db : Db) (now : ℕ) (fresh : Option Text) (r : JobRequest)
    → refers_to r.requested_by db.tokens ≡ false
    → (create_certificate_job db now fresh (some r)).0 ≡ db
unfolding create_certificate_job
create-refused db now fresh r h =
    if_either (λ (o : Outcome Job). o.0 ≡ db) (is_named r)
      (create_with_id-refused db now r (job_id r.id fresh) h) refl

on_db-same :
    {A B : Type 0} (certs : Certs) (s : World) (f : A → B) (out : Outcome A)
    → out.0 ≡ s.db
    → (answer f (on_db certs s out)).0 ≡ s
on_db-same certs s f (db, ok a) e = rw e refl
on_db-same certs s f (db, err x) e = rw e refl

module _ (certs : Certs) (config : Config) (owner : Text) (print : ℕ → Text)
    (meanwhile : Task → World → List (Turn World)) (answers : Task → World → Answers) where
  worker : PersistentWorker World
  worker = server_worker certs config owner print meanwhile answers

  after_create-same :
      (domain : Text) (t : PersistentSummary) (a : Answer World (Task × Bool))
      → (after_create (server_worker certs config owner print meanwhile answers) domain t a).0 ≡ a.0
  after_create-same domain t (s, ok (job, true)) = refl
  after_create-same domain t (s, ok (job, false)) = refl
  after_create-same domain t (s, err e) = refl

  scan_candidate-same :
      (at : ℕ) (c : Candidate) (s : World) (t : PersistentSummary)
      → member_text worker_actor.id s.db.tokens ≡ false
      → (scan_candidate (server_worker certs config owner print meanwhile answers) at c (s, t)).0
        ≡ s
  unfolding scan_candidate server_worker create_job job_request
  scan_candidate-same at c s t h =
      if_either (λ (x : World × PersistentSummary). x.0 ≡ s) (c.challenge_mode == codes "dns_api")
        (after_create-same c.domain t _
          ∙ on_db-same certs s _ _ (create-refused s.db (seconds s) s.fresh _ h))
        refl

  scan_unless-same :
      (at : ℕ) (c : Candidate) (s : World) (t : PersistentSummary)
      (rest : World × PersistentSummary → World × PersistentSummary) (canceled : Option Text)
      → member_text worker_actor.id s.db.tokens ≡ false
      → ((u : PersistentSummary) → (rest (s, u)).0 ≡ s)
      → (scan_unless
          (server_worker certs config owner print meanwhile answers)
          at
          c
          rest
          (s, t)
          canceled).0
        ≡ s
  scan_unless-same at c s t rest (some e) h k = refl
  scan_unless-same at c s t rest none h k =
      let w = server_worker certs config owner print meanwhile answers in
      from_same (scan_candidate w at c (s, t)) (scan_candidate-same at c s t h)
    where
      from_same : (x : World × PersistentSummary) → x.0 ≡ s → (rest x).0 ≡ s
      from_same (s', u) e = rw e (k u)

  scan_rest-same :
      (at : ℕ) (cs : List Candidate) (s : World) (t : PersistentSummary)
      → member_text worker_actor.id s.db.tokens ≡ false
      → (scan_rest (server_worker certs config owner print meanwhile answers) at cs (s, t)).0 ≡ s
  unfolding scan_rest
  scan_rest-same at [] s t h = refl
  scan_rest-same at (c ∷ cs) s t h =
      let w = server_worker certs config owner print meanwhile answers in
      scan_unless-same at c s t (scan_rest w at cs) (w.canceled s) h
        (λ u. scan_rest-same at cs s u h)

  -- If no token has the id "certificate-worker", a scan of the server's worker changes nothing: it
  -- creates no job, whatever the certificates are.
  pub scan_candidates-same :
      (s : World) (t : PersistentSummary)
      → member_text worker_actor.id s.db.tokens ≡ false
      → (scan_candidates (server_worker certs config owner print meanwhile answers) (s, t)).0 ≡ s
  unfolding scan_candidates list_candidates server_worker
  scan_candidates-same s t h = scan_rest-same s.clock _ s _ h
