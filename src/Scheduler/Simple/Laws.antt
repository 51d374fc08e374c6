-- ===== src/Scheduler/Simple/Laws.antt =====
-- What a round reports.
use cert_keeper.Prelude.{
  ℕ, ◌+◌, Text, Bool, true, false, Option, none, some, ok, List, [], ◌∷◌, ◌++◌, length, codes, ◌≡◌,
  refl, ap, ◌∙◌, arith, text_eq, ◌==◌,
}
use cert_keeper.Scheduler.Worker.{Candidate}
use cert_keeper.Scheduler.Simple.{
  Change, SimpleWorker, DomainOutcome, is_skipped, is_reconciled, DomainResult, RoundError,
  round_canceled, reconcile_failed, Summary, skip_reason, skip, settle, add_failure,
  after_reconcile, attempt, is_manual, visit, run_candidates, run_once,
}

-- What happens in a round, candidate by candidate: one of the mode dns_manual is skipped, any other
-- is reconciled, and the context is found cancelled before one that is not skipped.
pub data Ran {S : Type 0} (w : SimpleWorker S)
    : List Candidate → S → List DomainResult → S → Option Text → Type 0 where
  ended : {s : S} → Ran w [] s [] s none
  stopped :
      {c : Candidate} {cs : List Candidate} {s : S} {e : Text}
      → (c.challenge_mode == codes "dns_manual") ≡ false
      → w.canceled s ≡ some e
      → Ran w (c ∷ cs) s [] s (some e)
  passed :
      {c : Candidate} {cs : List Candidate} {s s' : S} {rs : List DomainResult} {stop : Option Text}
      → (c.challenge_mode == codes "dns_manual") ≡ true
      → Ran w cs s rs s' stop
      → Ran w (c ∷ cs) s (record { candidate = c; outcome = is_skipped skip_reason } ∷ rs) s' stop
  tried :
      {c : Candidate} {cs : List Candidate} {s s1 s' : S} {change : Change} {e : Option Text}
      {rs : List DomainResult} {stop : Option Text}
      → (c.challenge_mode == codes "dns_manual") ≡ false
      → w.canceled s ≡ none
      → w.reconcile c.domain s ≡ (s1, (change, e))
      → Ran w cs s1 rs s' stop
      → Ran w (c ∷ cs) s (record { candidate = c; outcome = is_reconciled change e } ∷ rs) s' stop

-- What a result is counted as: a success, a skip, or a failure with its error.
abbrev pub success_of : DomainOutcome → ℕ
success_of (is_skipped reason) = 0
success_of (is_reconciled change none) = 1
success_of (is_reconciled change (some e)) = 0

abbrev pub skip_of : DomainOutcome → ℕ
skip_of (is_skipped reason) = 1
skip_of (is_reconciled change e) = 0

abbrev pub errors_of : Candidate → DomainOutcome → List RoundError
errors_of c (is_skipped reason) = []
errors_of c (is_reconciled change none) = []
errors_of c (is_reconciled change (some e)) = reconcile_failed c.domain e ∷ []

unfoldable pub successes : List DomainResult → ℕ
successes [] = 0
successes (r ∷ rs) = success_of r.outcome + successes rs

unfoldable pub skips : List DomainResult → ℕ
skips [] = 0
skips (r ∷ rs) = skip_of r.outcome + skips rs

unfoldable pub failures_in : List DomainResult → List RoundError
failures_in [] = []
failures_in (r ∷ rs) = errors_of r.candidate r.outcome ++ failures_in rs

-- The error of a cancellation.
abbrev pub stop_error : Option Text → List RoundError
stop_error none = []
stop_error (some e) = round_canceled e ∷ []

-- What the candidates from a state on add to a summary.
record IsExtended {S : Type 0} (w : SimpleWorker S) (cs : List Candidate) (s s' : S)
    (t t' : Summary) : Type 0 where
  rs : List DomainResult
  stop : Option Text
  ran : Ran w cs s rs s' stop
  candidates : t'.candidates ≡ t.candidates
  results : t'.results ≡ t.results ++ rs
  succeeded : t'.succeeded ≡ t.succeeded + successes rs
  failed : t'.failed ≡ t.failed + length (failures_in rs)
  attempted : t'.attempted ≡ t.attempted + (successes rs + length (failures_in rs))
  skipped : t'.skipped ≡ t.skipped + skips rs
  failures : t'.failures ≡ t.failures ++ (failures_in rs ++ stop_error stop)

-- The summary of a round over the candidates: its results are those of what happened, and every
-- counter and error is the one of the results, but for the error of a cancellation.
pub record IsReport {S : Type 0} (w : SimpleWorker S) (cs : List Candidate) (s s' : S) (t : Summary)
    : Type 0 where
  pub stop : Option Text
  pub ran : Ran w cs s t.results s' stop
  pub candidates : t.candidates ≡ length cs
  pub succeeded : t.succeeded ≡ successes t.results
  pub failed : t.failed ≡ length (failures_in t.results)
  pub attempted : t.attempted ≡ successes t.results + length (failures_in t.results)
  pub skipped : t.skipped ≡ skips t.results
  pub failures : t.failures ≡ failures_in t.results ++ stop_error stop

snoc-++ : {A : Type 0} (xs : List A) (x : A) (ys : List A) → (xs ++ x ∷ []) ++ ys ≡ xs ++ x ∷ ys
snoc-++ [] x ys = refl
snoc-++ (z ∷ xs) x ys = ap (λ l. z ∷ l) (snoc-++ xs x ys)

++-[] : {A : Type 0} (xs : List A) → xs ++ [] ≡ xs
++-[] [] = refl
++-[] (z ∷ xs) = ap (λ l. z ∷ l) (++-[] xs)

module _ {S : Type 0} (w : SimpleWorker S) where
  skip-IsExtended :
      (c : Candidate) (cs : List Candidate) (s s' : S) (t t' : Summary)
      → (c.challenge_mode == codes "dns_manual") ≡ true
      → IsExtended w cs s s' (skip c t) t'
      → IsExtended w (c ∷ cs) s s' t t'
  unfolding skip successes failures_in skips
  skip-IsExtended c cs s s' t t' manual h = record {
    rs = record { candidate = c; outcome = is_skipped skip_reason } ∷ h.rs;
    stop = h.stop;
    ran = passed manual h.ran;
    candidates = h.candidates;
    results = h.results ∙ snoc-++ t.results _ h.rs;
    succeeded = ground (arith, h.succeeded);
    failed = ground (arith, h.failed);
    attempted = ground (arith, h.attempted);
    skipped = ground (arith, h.skipped);
    failures = h.failures;
  }

  settle-IsExtended :
      (c : Candidate) (cs : List Candidate) (s s1 s' : S) (change : Change) (e : Option Text)
      (t t' : Summary)
      → (c.challenge_mode == codes "dns_manual") ≡ false
      → w.canceled s ≡ none
      → w.reconcile c.domain s ≡ (s1, (change, e))
      → IsExtended w cs s1 s' (settle c change e t) t'
      → IsExtended w (c ∷ cs) s s' t t'
  unfolding settle successes failures_in skips
  settle-IsExtended c cs s s1 s' change none t t' other going r h = record {
    rs = record { candidate = c; outcome = is_reconciled change none } ∷ h.rs;
    stop = h.stop;
    ran = tried other going r h.ran;
    candidates = h.candidates;
    results = h.results ∙ snoc-++ t.results _ h.rs;
    succeeded = ground (arith, h.succeeded);
    failed = ground (arith, h.failed);
    attempted = ground (arith, h.attempted);
    skipped = ground (arith, h.skipped);
    failures = h.failures;
  }
  settle-IsExtended c cs s s1 s' change (some e) t t' other going r h = record {
    rs = record { candidate = c; outcome = is_reconciled change (some e) } ∷ h.rs;
    stop = h.stop;
    ran = tried other going r h.ran;
    candidates = h.candidates;
    results = h.results ∙ snoc-++ t.results _ h.rs;
    succeeded = ground (arith, h.succeeded);
    failed = ground (arith, h.failed);
    attempted = ground (arith, h.attempted);
    skipped = ground (arith, h.skipped);
    failures = h.failures ∙ snoc-++ t.failures _ _;
  }

  -- The candidates that are left add what happens to them.
  abbrev Extends : List Candidate → (S × Summary → S × Summary) → Type 0
  Extends cs rest = (s : S) (t : Summary) → IsExtended w cs s (rest (s, t)).0 t (rest (s, t)).1

  attempt-IsExtended :
      (c : Candidate) (cs : List Candidate) (rest : S × Summary → S × Summary) (s : S) (t : Summary)
      → Extends cs rest
      → (c.challenge_mode == codes "dns_manual") ≡ false
      → (canceled : Option Text) → w.canceled s ≡ canceled
      → IsExtended w
          (c ∷ cs)
          s
          (attempt w c rest s t canceled).0
          t
          (attempt w c rest s t canceled).1
  unfolding add_failure successes failures_in skips
  attempt-IsExtended c cs rest s t k other none going = reconciled (w.reconcile c.domain s) refl
    where
      reconciled :
          (a : S × (Change × Option Text))
          → w.reconcile c.domain s ≡ a
          → IsExtended w
              (c ∷ cs)
              s
              (after_reconcile w c rest t a).0
              t
              (after_reconcile w c rest t a).1
      reconciled (s1, (change, e)) r =
          settle-IsExtended c cs s s1 _ change e t _ other going r (k s1 (settle c change e t))
  attempt-IsExtended c cs rest s t k other (some e) found = record {
    rs = [];
    stop = some e;
    ran = stopped other found;
    candidates = refl;
    results = rw (++-[] t.results) refl;
    succeeded = omega arith;
    failed = omega arith;
    attempted = omega arith;
    skipped = omega arith;
    failures = refl;
  }

  visit-IsExtended :
      (c : Candidate) (cs : List Candidate) (rest : S × Summary → S × Summary) (s : S) (t : Summary)
      → Extends cs rest
      → (manual : Bool) → (c.challenge_mode == codes "dns_manual") ≡ manual
      → IsExtended w (c ∷ cs) s (visit w c rest (s, t) manual).0 t (visit w c rest (s, t) manual).1
  visit-IsExtended c cs rest s t k true m = skip-IsExtended c cs s _ t _ m (k s (skip c t))
  visit-IsExtended c cs rest s t k false m =
      attempt-IsExtended c cs rest s t k m (w.canceled s) refl

  run_candidates-Extends : (cs : List Candidate) → Extends cs (run_candidates w cs)
  unfolding run_candidates successes failures_in skips
  run_candidates-Extends [] s t = record {
    rs = [];
    stop = none;
    ran = ended;
    candidates = refl;
    results = rw (++-[] t.results) refl;
    succeeded = omega arith;
    failed = omega arith;
    attempted = omega arith;
    skipped = omega arith;
    failures = rw (++-[] t.failures) refl;
  }
  run_candidates-Extends (c ∷ cs) s t =
      visit-IsExtended c cs (run_candidates w cs) s t (run_candidates-Extends cs) (is_manual w c)
        refl

  whole :
      (cs : List Candidate) (s s' : S) (start t : Summary)
      → start.candidates ≡ length cs
      → start.succeeded ≡ 0
      → start.failed ≡ 0
      → start.attempted ≡ 0
      → start.skipped ≡ 0
      → start.results ≡ []
      → start.failures ≡ []
      → IsExtended w cs s s' start t
      → IsReport w cs s s' t
  whole cs s s' start t p1 p2 p3 p4 p5 p6 p7 h =
      let same : t.results ≡ h.rs = h.results ∙ rw p6 refl in
      record {
        stop = h.stop;
        ran = rw same h.ran;
        candidates = h.candidates ∙ p1;
        succeeded = rw same (ground (arith, h.succeeded, p2));
        failed = rw same (ground (arith, h.failed, p3));
        attempted = rw same (ground (arith, h.attempted, p4));
        skipped = rw same (ground (arith, h.skipped, p5));
        failures = rw same (h.failures ∙ rw p7 refl);
      }

-- The summary of a round over the candidates that were listed reports what happens to each of them
-- in order, skipped or reconciled in the state that the earlier ones left, up to a cancellation of
-- the context; its counters are the numbers of successes, failures and skips among the results, and
-- its errors those of the results that failed, in order, with one more only for a cancellation.
pub run_once-IsReport :
    {S : Type 0} (w : SimpleWorker S) (s s' : S) (cs : List Candidate)
    → w.list_candidates s ≡ (s', ok cs)
    → IsReport w cs s' (run_once (some w) s).0 (run_once (some w) s).1
unfolding run_once
run_once-IsReport w s s' cs listed =
    rw listed
      (whole w cs s' _ _ _ refl refl refl refl refl refl refl (run_candidates-Extends w cs s' _))
