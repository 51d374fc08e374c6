-- ===== src/Scheduler/Simple.antt =====
-- internal/scheduler/scheduler.go: `RunOnce` of a scheduler that runs no other round, without its
-- instants and its observer.
pub mod Laws
mod Tests
use cert_keeper.Prelude.{
  ℕ, ◌+◌, ◌==◌, text_eq, Text, Bool, true, false, Option, none, some, Result, ok, err, List, [],
  ◌∷◌, ◌++◌, length, if◌then◌else◌, codes,
}
use cert_keeper.Scheduler.Worker.{Candidate}

-- `Result`.
pub record Change : Type 0 where
  pub changed : Bool
  pub message : Text

-- What the scheduler is given, over a state; an error is its text. `canceled` is `ctx.Err()`.
pub record SimpleWorker (S : Type 0) : Type 0 where
  pub list_candidates : S → S × Result Text (List Candidate)
  pub reconcile : Text → S → S × (Change × Option Text)
  pub canceled : S → Option Text

-- What became of a candidate: it was skipped for a reason, or reconciled.
pub data DomainOutcome : Type 0 where
  is_skipped : Text → DomainOutcome
  is_reconciled : Change → Option Text → DomainOutcome

pub record DomainResult : Type 0 where
  pub candidate : Candidate
  pub outcome : DomainOutcome

-- What `RunOnce` joins in its error.
pub data RoundError : Type 0 where
  no_worker : RoundError
  list_failed round_canceled : Text → RoundError
  reconcile_failed : Text → Text → RoundError

pub record Summary : Type 0 where
  pub candidates : ℕ
  pub attempted : ℕ
  pub succeeded : ℕ
  pub failed : ℕ
  pub skipped : ℕ
  pub results : List DomainResult
  pub failures : List RoundError

abbrev pub no_results : Summary
no_results = record {
  candidates = 0;
  attempted = 0;
  succeeded = 0;
  failed = 0;
  skipped = 0;
  results = [];
  failures = [];
}

-- "dns_manual 不支持自动调度", in UTF-8.
abbrev pub skip_reason : Text
skip_reason =
    100 ∷ 110 ∷ 115 ∷ 95 ∷ 109 ∷ 97 ∷ 110 ∷ 117 ∷ 97 ∷ 108 ∷ 32 ∷ 228 ∷ 184 ∷ 141 ∷ 230 ∷ 148 ∷ 175
    ∷ 230 ∷ 140 ∷ 129 ∷ 232 ∷ 135 ∷ 170 ∷ 229 ∷ 138 ∷ 168 ∷ 232 ∷ 176 ∷ 131 ∷ 229 ∷ 186 ∷ 166 ∷ []

unfoldable pub skip : Candidate → Summary → Summary
skip c t = record t {
  skipped = t.skipped + 1;
  results = t.results ++ record { candidate = c; outcome = is_skipped skip_reason } ∷ [];
}

-- The counters after a candidate that was reconciled.
unfoldable pub settle : Candidate → Change → Option Text → Summary → Summary
settle c change none t = record t {
  attempted = t.attempted + 1;
  succeeded = t.succeeded + 1;
  results = t.results ++ record { candidate = c; outcome = is_reconciled change none } ∷ [];
}
settle c change (some e) t = record t {
  attempted = t.attempted + 1;
  failed = t.failed + 1;
  results = t.results ++ record { candidate = c; outcome = is_reconciled change (some e) } ∷ [];
  failures = t.failures ++ reconcile_failed c.domain e ∷ [];
}

unfoldable pub add_failure : RoundError → Summary → Summary
add_failure e t = record t { failures = t.failures ++ e ∷ [] }

module _ {S : Type 0} (w : SimpleWorker S) where
  abbrev pub after_reconcile :
      Candidate → (S × Summary → S × Summary) → Summary → S × (Change × Option Text) → S × Summary
  after_reconcile c rest t (s, (change, e)) = rest (s, settle c change e t)

  -- A candidate that is not skipped.
  abbrev pub attempt :
      Candidate → (S × Summary → S × Summary) → S → Summary → Option Text → S × Summary
  attempt c rest s t (some e) = (s, add_failure (round_canceled e) t)
  attempt c rest s t none = after_reconcile c rest t (w.reconcile c.domain s)

  abbrev pub is_manual : Candidate → Bool
  is_manual c = c.challenge_mode == codes "dns_manual"

  abbrev pub visit : Candidate → (S × Summary → S × Summary) → S × Summary → Bool → S × Summary
  visit c rest (s, t) true = rest (s, skip c t)
  visit c rest (s, t) false = attempt c rest s t (w.canceled s)

  -- The loop over the candidates.
  unfoldable pub run_candidates : List Candidate → S × Summary → S × Summary
  run_candidates [] x = x
  run_candidates (c ∷ cs) x = visit c (run_candidates cs) x (is_manual c)

  abbrev pub after_listing : S × Result Text (List Candidate) → S × Summary
  after_listing (s, err e) = (s, add_failure (list_failed e) no_results)
  after_listing (s, ok cs) = run_candidates cs (s, record no_results { candidates = length cs })

-- `none` is a worker that is nil.
unfoldable pub run_once : {S : Type 0} → Option (SimpleWorker S) → S → S × Summary
run_once none s = (s, add_failure no_worker no_results)
run_once (some w) s = after_listing w (w.list_candidates s)
