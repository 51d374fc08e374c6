-- ===== src/Scheduler/Simple/Tests.antt =====
-- A round over three candidates.
use cert_keeper.Prelude.{
  ℕ, zero, suc, ◌+◌, Text, Bool, true, false, Option, none, some, Result, ok, List, [], ◌∷◌, ◌≡◌,
  refl, codes,
}
use cert_keeper.Scheduler.Worker.{Candidate}
use cert_keeper.Scheduler.Simple.{SimpleWorker, run_once, run_candidates, skip, settle, add_failure}
use cert_keeper.Scheduler.Simple.Laws.{IsReport, run_once-IsReport}

abbrev candidates : List Candidate
candidates =
    record { domain = codes "a.example.com"; challenge_mode = codes "dns_api" }
    ∷ record { domain = codes "b.example.com"; challenge_mode = codes "dns_manual" }
    ∷ record { domain = codes "c.example.com"; challenge_mode = codes "webroot" }
    ∷ []

abbrev outcome : ℕ → Option Text
outcome zero = none
outcome (suc n) = some (codes "timeout")

-- The state counts the reconciliations; the first succeeds.
abbrev worker : SimpleWorker ℕ
worker = record {
  list_candidates = λ s. (s, ok candidates);
  reconcile = λ domain s. (s + 1, (record { changed = true; message = [] }, outcome s));
  canceled = λ s. none;
}

round-counts :
    ((run_once (some worker) 0).1.attempted ≡ 2)
    × ((run_once (some worker) 0).1.failed ≡ 1)
    × ((run_once (some worker) 0).1.skipped ≡ 1)
unfolding run_once run_candidates skip settle add_failure cert_keeper.Prelude.text_beq
round-counts = (refl, refl, refl)

run_once-IsReport_example :
    IsReport worker candidates 0 (run_once (some worker) 0).0 (run_once (some worker) 0).1
run_once-IsReport_example = run_once-IsReport worker 0 0 candidates refl
