-- ===== src/Scheduler/Tests.antt =====
-- Delays and classes on concrete values, and instances of the theorems.
use cert_keeper.Prelude.{ℕ, ◌≤◌, ◌≡◌, false, none, some, refl, suc, arith}
use cert_keeper.Prelude.Int.{pos, negsuc}
use cert_keeper.Scheduler.{
  RawConfig, Config, new_persistent_worker, backoff, doubled, Evidence, temporary, permanent,
  classify_error, temporary_http_status,
}
use cert_keeper.Scheduler.Laws.{IsUsable, new_persistent_worker-IsUsable, backoff-bounds}

-- All fields left at zero, but for a negative jitter and a bound below the first delay.
abbrev raw : RawConfig
raw = record {
  interval = pos 0;
  jitter = negsuc 4;
  poll_interval = pos 0;
  lease_duration = pos 0;
  renew_interval = pos 0;
  backoff_initial = pos 30;
  backoff_max = pos 10;
  max_attempts = pos 0;
  concurrency = pos 0;
}

abbrev config : Config
config = record {
  interval = 1;
  jitter = 0;
  poll_interval = 1;
  lease_duration = 9;
  renew_interval = 3;
  backoff_initial = 30;
  backoff_max = 100;
  max_attempts = 5;
  concurrency = 1;
}

-- An error that carries an HTTP status.
abbrev answered : ℕ → Evidence
answered code = record {
  challenge = none;
  marked_temporary = none;
  deadline_exceeded = false;
  dns_timeout = none;
  net_timeout_or_temporary = none;
  http_status = some code;
  status = none;
}

backoff_tests :
    (backoff config 0 ≡ 30)
    × (backoff config 1 ≡ 30)
    × (backoff config 2 ≡ 60)
    × (backoff config 3 ≡ 100)
    × (backoff config 9 ≡ 100)
unfolding backoff doubled
backoff_tests = (refl, refl, refl, refl, refl)

class_tests :
    (classify_error (some (answered 503)) ≡ temporary)
    × (classify_error (some (answered 404)) ≡ permanent)
unfolding classify_error temporary_http_status
class_tests = (refl, refl)

new_persistent_worker-IsUsable_example : IsUsable (new_persistent_worker raw)
new_persistent_worker-IsUsable_example = new_persistent_worker-IsUsable raw

backoff-bounds_example :
    (config.backoff_initial ≤ backoff config 3)
    × (backoff config 3 ≤ config.backoff_max)
    × (backoff config 3 ≤ backoff config (suc 3))
backoff-bounds_example = backoff-bounds config 3 (omega arith)
