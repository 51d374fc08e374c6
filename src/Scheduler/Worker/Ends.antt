-- ===== src/Scheduler/Worker/Ends.antt =====
-- The loop of `processDueJobs` ends: every claim lowers a measure of the store.
use cert_keeper.Prelude.{
  ℕ, zero, suc, ◌≤◌, ◌<◌, Text, Bool, true, false, ◌||◌, Option, none, some, Result, ok, err, List,
  [], ◌∷◌, ◌≡◌, ◌≢◌, ◌⊎◌, inl, inr, refl, sym, ◌∙◌, arith, All, if_either,
}
use cert_keeper.Store.Jobs.Values.{is_queued, is_running}
use cert_keeper.Scheduler.Worker.{
  Task, Actor, JobUpdate, ClaimRequest, LeaseRenewal, Answer, Failure, Turn, tick, work,
  PersistentWorker, PersistentSummary, add_retried, add_failed, add_claimed,
}
use cert_keeper.Scheduler.Worker.Execute.{
  Renewal, after_renewal, renew, take_turn, take_turns, update_claimed_job, after_update,
  release_canceled_job, after_release, may_retry, finish_failed, finish, after_ending, after_turns,
  renewal_of, actor_of, execute_job, job_canceled, is_set,
}
use cert_keeper.Scheduler.Worker.Cycle.{
  Progress, resume, after_claim, claim_unless, process_turn, process_due_jobs,
}

-- The invariant holds, and the measure is not above `bound`.
abbrev pub Within : {S : Type 0} → (S → Type 0) → (S → ℕ) → ℕ → S → Type 0
Within holds measure bound s = holds s × (measure s ≤ bound)

-- What happens during a reconciliation keeps the invariant and raises no measure.
abbrev pub Keeps : {S : Type 0} → (S → Type 0) → (S → ℕ) → (S → S) → Type 0
Keeps {S = S} holds measure f = (s : S) → holds s → Within holds measure (measure s) (f s)

abbrev pub TurnKeeps : {S : Type 0} → (S → Type 0) → (S → ℕ) → Turn S → Type 0
TurnKeeps holds measure tick = Unit {0}
TurnKeeps holds measure (work f) = (canceled : Bool) → Keeps holds measure (f canceled)

-- A worker whose store spends something with every claim, and whose reconciler gives nothing back.
pub record IsSpending {S : Type 0} (w : PersistentWorker S) (holds : S → Type 0) (measure : S → ℕ)
    : Type 0 where
  pub claims :
      (r : ClaimRequest) (s s' : S) (k : Task)
      → holds s
      → w.store.claim_job r s ≡ (s', ok (some k))
      → holds s' × (measure s' < measure s)
  pub renews : (r : LeaseRenewal) → Keeps holds measure (λ s. (w.store.renew_lease r s).0)
  pub updates :
      (u : JobUpdate)
      → (is_queued u.status || is_running u.status) ≡ false
      → Keeps holds measure (λ s. (w.store.update_job u s).0)
  pub stays : (u : JobUpdate) (s : S) → w.canceled (w.store.update_job u s).0 ≡ w.canceled s
  pub turns :
      (actor : Actor) (job : Task) (s : S)
      → All (TurnKeeps holds measure) (w.reconcile_job actor job s).turns
  pub ending :
      (actor : Actor) (job : Task) (s : S) (canceled : Bool)
      → Keeps holds measure (λ s'. ((w.reconcile_job actor job s).ending canceled s').0)

module _ {S : Type 0} (w : PersistentWorker S) (holds : S → Type 0) (measure : S → ℕ)
    (spending : IsSpending w holds measure) where
  weaker : (a b : ℕ) (s : S) → a ≤ b → Within holds measure a s → Within holds measure b s
  weaker a b s le (h, k) = (h, omega arith)

  after_renewal-same : (r : Renewal) (a : Answer S (ℕ × Bool)) → (after_renewal w r a).0 ≡ a.0
  after_renewal-same r (s, err e) = refl
  after_renewal-same r (s, ok (v, true)) = refl
  after_renewal-same r (s, ok (v, false)) = refl

  renew-Within :
      (id : Text) (r : Renewal) (s : S) (canceled : Option Text)
      → holds s
      → Within holds measure (measure s) (renew w id r s canceled).0
  renew-Within id r s (some e) h = (h, omega arith)
  renew-Within id r s none h = rw (after_renewal-same r _) (spending.renews _ s h)

  take_turn-Within :
      (id : Text) (turn : Turn S) (s : S) (r : Renewal)
      → TurnKeeps holds measure turn
      → holds s
      → Within holds measure (measure s) (take_turn w id turn (s, r)).0
  take_turn-Within id tick s r k h =
      if_either (λ (x : S × Renewal). Within holds measure (measure s) x.0) (is_set r.error)
        (h, omega arith) (renew-Within id r s (w.canceled s) h)
  take_turn-Within id (work f) s r k h = k (job_canceled w s r) s h

  take_turns-Within :
      (id : Text) (turns : List (Turn S)) (bound : ℕ) (x : S × Renewal)
      → All (TurnKeeps holds measure) turns
      → Within holds measure bound x.0
      → Within holds measure bound (take_turns w id turns x).0
  unfolding take_turns
  take_turns-Within id [] bound x k h = h
  take_turns-Within id (turn ∷ turns) bound (s, r) (k, ks) (h, le) =
      take_turns-Within id turns bound (take_turn w id turn (s, r)) ks
        (weaker (measure s) bound _ le (take_turn-Within id turn s r k h))

  -- After a job: nothing was given back, or the context is done.
  Rests : ℕ → S → Type 0
  Rests bound s = Within holds measure bound s ⊎ (w.canceled s ≢ none)

  after_update-same :
      (id : Text) (f : PersistentSummary → PersistentSummary) (t : PersistentSummary)
      (a : Answer S Bool)
      → (after_update w id f t a).0 ≡ a.0
  after_update-same id f t (s, ok true) = refl
  after_update-same id f t (s, ok false) = refl
  after_update-same id f t (s, err e) = refl

  after_release-same :
      (id : Text) (t : PersistentSummary) (a : Answer S Bool) → (after_release w id t a).0 ≡ a.0
  after_release-same id t (s, ok true) = refl
  after_release-same id t (s, ok false) = refl
  after_release-same id t (s, err e) = refl

  update-Within :
      (u : JobUpdate) (f : PersistentSummary → PersistentSummary) (bound : ℕ) (s : S)
      (t : PersistentSummary)
      → (is_queued u.status || is_running u.status) ≡ false
      → Within holds measure bound s
      → Within holds measure bound (update_claimed_job w u f (s, t)).0
  unfolding update_claimed_job
  update-Within u f bound s t ends (h, le) =
      rw (after_update-same u.id f t (w.store.update_job u s))
        (weaker (measure s) bound _ le (spending.updates u ends s h))

  released-canceled :
      (job : Task) (cause : Text) (s : S) (t : PersistentSummary)
      → w.canceled (release_canceled_job w job cause (s, t)).0 ≡ w.canceled s
  unfolding release_canceled_job
  released-canceled job cause s t = rw (after_release-same job.id t _) (spending.stays _ s)

  finish-Rests :
      (job : Task) (canceled renewal : Option Text) (r : Result Failure (Unit {0})) (bound : ℕ)
      (s : S) (t : PersistentSummary)
      → w.canceled s ≡ canceled
      → Within holds measure bound s
      → Rests bound (finish w job canceled renewal r (s, t)).0
  unfolding Rests finish_failed
  finish-Rests job (some cause) renewal r bound s t e h =
      inr (λ none_now. let twice = sym none_now ∙ released-canceled job cause s t ∙ e in absurd cc)
  finish-Rests job none (some x) r bound s t e h = inl h
  finish-Rests job none none (ok u) bound s t e h = inl (update-Within _ _ bound s t refl h)
  finish-Rests job none none (err x) bound s t e h = inl (
      if_either (λ (y : S × PersistentSummary). Within holds measure bound y.0) (may_retry w job x)
        (update-Within _ add_retried bound s t refl h)
        (update-Within _ add_failed bound s t refl h))

  after_ending-Rests :
      (job : Task) (renewal : Renewal) (bound : ℕ) (t : PersistentSummary)
      (x : S × Result Failure (Unit {0}))
      → Within holds measure bound x.0
      → Rests bound (after_ending w job renewal t x).0
  after_ending-Rests job renewal bound t (s, r) h =
      finish-Rests (record job { lease_version = renewal.version }) (w.canceled s) renewal.error r
        bound s t refl h

  after_turns-Rests :
      (job : Task) (s0 : S) (bound : ℕ) (t : PersistentSummary) (x : S × Renewal)
      → Within holds measure bound x.0
      → Rests bound (after_turns w job (w.reconcile_job (actor_of w job) job s0) t x).0
  after_turns-Rests job s0 bound t (s, renewal) (h, le) = after_ending-Rests job renewal bound t _ (
      weaker (measure s) bound _ le
        (spending.ending (actor_of w job) job s0 (job_canceled w s renewal) s h))

  execute_job-Rests :
      (job : Task) (bound : ℕ) (s : S) (t : PersistentSummary)
      → Within holds measure bound s
      → Rests bound (execute_job w job (s, t)).0
  unfolding execute_job
  execute_job-Rests job bound s t h = after_turns-Rests job s bound t _ (
      take_turns-Within job.id (w.reconcile_job (actor_of w job) job s).turns bound
        (s, renewal_of w job) (spending.turns (actor_of w job) job s) h)

  -- The loop returns from a state.
  abbrev Finishes : ℕ → S × PersistentSummary → Type 0
  Finishes fuel x = (y : S × PersistentSummary) × (process_due_jobs w fuel x ≡ some y)

  Resumes : (fuel : ℕ) (p : Progress S) → Type 0
  Resumes fuel p = (y : S × PersistentSummary) × (resume w (process_due_jobs w fuel) p ≡ some y)

  after_claim-Resumes :
      (fuel bound : ℕ) (r : ClaimRequest) (s : S) (t : PersistentSummary)
      (a : Answer S (Option Task))
      → ((b : ℕ) (x : S × PersistentSummary) → Rests b x.0 → b < fuel → Finishes fuel x)
      → Within holds measure bound s
      → bound < suc fuel
      → w.store.claim_job r s ≡ a
      → Resumes fuel (after_claim w t a)
  unfolding Resumes
  after_claim-Resumes fuel bound r s t (s', err e) k h less claimed = (_, refl)
  after_claim-Resumes fuel bound r s t (s', ok none) k h less claimed = (_, refl)
  after_claim-Resumes fuel bound r s t (s', ok (some job)) k (h, le) less claimed =
      let (h', lower) = spending.claims r s s' job h claimed in
      k (measure s') (execute_job w job (s', add_claimed t))
        (execute_job-Rests job (measure s') s' (add_claimed t) (h', omega arith)) (omega arith)

  claim_unless-Resumes :
      (fuel bound : ℕ) (s : S) (t : PersistentSummary) (canceled : Option Text)
      → ((b : ℕ) (x : S × PersistentSummary) → Rests b x.0 → b < fuel → Finishes fuel x)
      → Within holds measure bound s ⊎ (canceled ≢ none)
      → bound < suc fuel
      → Resumes fuel (claim_unless w s t canceled)
  unfolding Resumes
  claim_unless-Resumes fuel bound s t (some e) k h less = (_, refl)
  claim_unless-Resumes fuel bound s t none k (inl h) less =
      after_claim-Resumes fuel bound _ s t _ k h less refl
  claim_unless-Resumes fuel bound s t none k (inr n) less = absurd (n refl)

  loop-Finishes :
      (fuel bound : ℕ) (x : S × PersistentSummary)
      → Rests bound x.0
      → bound < fuel
      → Finishes fuel x
  unfolding process_due_jobs process_turn Rests Resumes
  loop-Finishes zero bound x h less = absurd (omega arith)
  loop-Finishes (suc fuel) bound (s, t) h less =
      claim_unless-Resumes fuel bound s t (w.canceled s) (loop-Finishes fuel) h less

  -- If every claim lowers the measure of the store, and neither the renewals, nor the updates that
  -- end a job, nor the reconciler raise it, the loop of the worker returns: more turns than the
  -- measure are never needed, whatever fails and whenever the context is cancelled.
  pub process_due_jobs-ends :
      (fuel : ℕ) (s : S) (t : PersistentSummary)
      → holds s
      → measure s < fuel
      → (y : S × PersistentSummary) × (process_due_jobs w fuel (s, t) ≡ some y)
  unfolding Rests
  process_due_jobs-ends fuel s t h less =
      loop-Finishes fuel (measure s) (s, t) (inl (h, omega arith)) less
