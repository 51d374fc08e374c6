-- ===== src/Scheduler.antt =====
-- internal/scheduler/persistent.go and errors.go: the worker's configuration, the delay before a
-- retry, and the class of an error.
pub mod Laws
pub mod Worker
pub mod Adapter
pub mod Simple
mod Tests
use cert_keeper.Prelude.{
  ℕ, zero, suc, ◌+◌, ◌*◌, ◌/◌, ◌-◌, Bool, true, false, ◌&&◌, ◌||◌, ◌==◌, nat_eq, Option, none, some,
  leb, ltb, if◌then◌else◌,
}
use cert_keeper.Prelude.Int.{ℤ, pos, negsuc, pos_part, leb_ℤ}

-- Durations are in nanoseconds.
abbrev second : ℕ
second = 1_000_000_000

-- The fields of `PersistentConfig` that are numbers, as a caller may set them.
pub record RawConfig : Type 0 where
  pub interval : ℤ
  pub jitter : ℤ
  pub poll_interval : ℤ
  pub lease_duration : ℤ
  pub renew_interval : ℤ
  pub backoff_initial : ℤ
  pub backoff_max : ℤ
  pub max_attempts : ℤ
  pub concurrency : ℤ

-- The same fields as `NewPersistentWorker` leaves them; none is negative.
pub record Config : Type 0 where
  pub interval : ℕ
  pub jitter : ℕ
  pub poll_interval : ℕ
  pub lease_duration : ℕ
  pub renew_interval : ℕ
  pub backoff_initial : ℕ
  pub backoff_max : ℕ
  pub max_attempts : ℕ
  pub concurrency : ℕ

-- `if value <= 0 { value = default }`.
unfoldable pub or_default : ℤ → ℕ → ℕ
or_default (pos zero) default = default
or_default (pos (suc n)) default = suc n
or_default (negsuc n) default = default

-- A third of the lease, and a nanosecond at least, unless the interval set is shorter than it.
unfoldable pub renewal : ℤ → ℕ → ℕ
renewal interval lease =
    if leb_ℤ interval (pos 0) || leb_ℤ (pos lease) interval
    then if lease / 3 == 0 then 1 else lease / 3
    else pos_part interval

unfoldable pub new_persistent_worker : RawConfig → Config
new_persistent_worker config =
    let lease = or_default config.lease_duration (60 * second) in
    let initial = or_default config.backoff_initial (30 * second) in
    let greatest = or_default config.backoff_max (1800 * second) in
    record {
      interval = or_default config.interval (43200 * second);
      jitter = pos_part config.jitter;
      poll_interval = or_default config.poll_interval (5 * second);
      lease_duration = lease;
      renew_interval = renewal config.renew_interval lease;
      backoff_initial = initial;
      backoff_max = if ltb greatest initial then initial else greatest;
      max_attempts = or_default config.max_attempts 5;
      concurrency = or_default config.concurrency 1;
    }

-- The loop of `backoff` and what follows it, with the turns that are left.
unfoldable pub doubled : ℕ → ℕ → ℕ → ℕ
doubled greatest zero delay = if ltb greatest delay then greatest else delay
doubled greatest (suc turns) delay =
    let rest = doubled greatest turns (delay * 2) in
    if leb (greatest / 2) delay then greatest else rest

unfoldable pub backoff : Config → ℕ → ℕ
backoff config attempt =
    if leb attempt 1
    then config.backoff_initial
    else doubled config.backoff_max (attempt - 1) config.backoff_initial

pub data ErrorClass : Type 0 where
  temporary permanent_challenge permanent : ErrorClass

-- What `errors.As` and `errors.Is` find in an error, and what is found answers; `none` where
-- nothing is found.
pub record Evidence : Type 0 where
  pub challenge : Option Bool
  pub marked_temporary : Option Bool
  pub deadline_exceeded : Bool
  pub dns_timeout : Option Bool
  pub net_timeout_or_temporary : Option Bool
  pub http_status : Option ℕ
  pub status : Option ℕ

abbrev pub is_yes : Option Bool → Bool
is_yes none = false
is_yes (some b) = b

unfoldable pub temporary_http_status : ℕ → Bool
temporary_http_status code = code == 429 || (leb 500 code && leb code 599)

abbrev pub is_temporary_status : Option ℕ → Bool
is_temporary_status none = false
is_temporary_status (some code) = temporary_http_status code

-- `none` is a nil error.
unfoldable pub classify_error : Option Evidence → ErrorClass
classify_error none = permanent
classify_error (some e) =
    if is_yes e.challenge
    then permanent_challenge
    else if is_yes e.marked_temporary
    then temporary
    else if e.deadline_exceeded
    then temporary
    else if is_yes e.dns_timeout
    then temporary
    else if is_yes e.net_timeout_or_temporary
    then temporary
    else if is_temporary_status e.http_status
    then temporary
    else if is_temporary_status e.status
    then temporary
    else permanent
