-- ===== src/Scheduler/Laws.antt =====
-- The configuration is usable, and the delays grow within their bounds.
use cert_keeper.Prelude.{
  ℕ, zero, suc, ◌*◌, ◌/◌, ◌≤◌, ◌<◌, false, ◌||◌, ◌==◌, nat_eq, leb, ltb, if◌then◌else◌, ◌≡◌, ◌≢◌,
  ◌⊎◌, inl, inr, arith, Bool-cases,
}
use cert_keeper.Prelude.Int.{ℤ, pos, negsuc, pos_part, leb_ℤ}
use cert_keeper.Scheduler.{
  RawConfig, Config, or_default, renewal, new_persistent_worker, doubled, backoff,
}

-- Nothing is zero that is waited for or counted, the lease is renewed before it ends (or with it,
-- if it lasts one nanosecond), and the bound of the delays is not below the first.
pub record IsUsable (c : Config) : Type 0 where
  pub interval : 1 ≤ c.interval
  pub poll_interval : 1 ≤ c.poll_interval
  pub renew_interval : 1 ≤ c.renew_interval
  pub renewed : (c.renew_interval < c.lease_duration) ⊎ (c.lease_duration ≡ 1)
  pub backoff_initial : 1 ≤ c.backoff_initial
  pub backoff_max : c.backoff_initial ≤ c.backoff_max
  pub max_attempts : 1 ≤ c.max_attempts
  pub concurrency : 1 ≤ c.concurrency

or_default-positive : (z : ℤ) (d : ℕ) → 1 ≤ d → 1 ≤ or_default z d
unfolding or_default
or_default-positive (pos zero) d h = h
or_default-positive (pos (suc n)) d h = omega arith
or_default-positive (negsuc n) d h = h

third_positive : (lease : ℕ) → lease / 3 ≢ 0 → 1 ≤ lease / 3
third_positive lease h = ground arith

third_less : (lease : ℕ) → 1 ≤ lease → lease / 3 < lease
third_less lease h = omega arith

third :
    (lease : ℕ)
    → 1 ≤ lease
    → (1 ≤ (if lease / 3 == 0 then 1 else lease / 3))
      × (((if lease / 3 == 0 then 1 else lease / 3) < lease) ⊎ (lease ≡ 1))
third lease h = elim (Bool-cases (lease / 3 == 0)) [
  | inl e ↦ rw e (omega arith, ground arith)
  | inr n ↦ rw n (third_positive lease (λ e. absurd (ground arith)), inl (third_less lease h))
]

renewal-bounds :
    (z : ℤ) (lease : ℕ)
    → 1 ≤ lease
    → (1 ≤ renewal z lease) × ((renewal z lease < lease) ⊎ (lease ≡ 1))
unfolding renewal
renewal-bounds z lease h = elim (Bool-cases (leb_ℤ z (pos 0) || leb_ℤ (pos lease) z)) [
  | inl unset ↦ rw unset (third lease h)
  | inr between ↦ rw between (inside z between)
]
  where
    inside :
        (w : ℤ)
        → (leb_ℤ w (pos 0) || leb_ℤ (pos lease) w) ≡ false
        → (1 ≤ pos_part w) × ((pos_part w < lease) ⊎ (lease ≡ 1))
    inside (pos n) e = ground arith
    inside (negsuc n) e = ground arith

greatest_bound :
    (greatest initial : ℕ) → initial ≤ (if ltb greatest initial then initial else greatest)
greatest_bound greatest initial = ground arith

-- Whatever the numbers that the caller sets, those that the worker runs with are usable.
pub new_persistent_worker-IsUsable : (c : RawConfig) → IsUsable (new_persistent_worker c)
unfolding new_persistent_worker
new_persistent_worker-IsUsable c =
    let lease = or_default-positive c.lease_duration 60_000_000_000 (omega arith) in
    record {
      interval = or_default-positive c.interval _ (omega arith);
      poll_interval = or_default-positive c.poll_interval _ (omega arith);
      renew_interval = (renewal-bounds c.renew_interval _ lease).0;
      renewed = (renewal-bounds c.renew_interval _ lease).1;
      backoff_initial = or_default-positive c.backoff_initial _ (omega arith);
      backoff_max = greatest_bound _ _;
      max_attempts = or_default-positive c.max_attempts _ (omega arith);
      concurrency = or_default-positive c.concurrency _ (omega arith);
    }

leb-false : (a b : ℕ) → leb a b ≡ false → b < a
leb-false a b h = ground arith

half_fits : (greatest delay : ℕ) → leb (greatest / 2) delay ≡ false → delay * 2 ≤ greatest
half_fits greatest delay n = let less = leb-false (greatest / 2) delay n in omega arith

doubled_none : (greatest delay : ℕ) → delay ≤ greatest → doubled greatest 0 delay ≡ delay
unfolding doubled
doubled_none greatest delay h = ground arith

doubled-bounds :
    (greatest turns delay : ℕ)
    → delay ≤ greatest
    → (delay ≤ doubled greatest turns delay) × (doubled greatest turns delay ≤ greatest)
unfolding doubled
doubled-bounds greatest zero delay h = ground arith
doubled-bounds greatest (suc turns) delay h = elim (Bool-cases (leb (greatest / 2) delay)) [
  | inl e ↦ rw e (h, omega arith)
  | inr n ↦
      let (low, high) = doubled-bounds greatest turns (delay * 2) (half_fits greatest delay n) in
      rw n (omega arith, high)
]

doubled-grows :
    (greatest turns delay : ℕ)
    → delay ≤ greatest
    → doubled greatest turns delay ≤ doubled greatest (suc turns) delay
unfolding doubled
doubled-grows greatest zero delay h =
    rw (doubled_none greatest delay h) (doubled-bounds greatest (suc zero) delay h).0
doubled-grows greatest (suc turns) delay h = elim (Bool-cases (leb (greatest / 2) delay)) [
  | inl e ↦ rw e (omega arith)
  | inr n ↦ rw n (doubled-grows greatest turns (delay * 2) (half_fits greatest delay n))
]

backoff_later :
    (c : Config) (n : ℕ) → backoff c (suc (suc n)) ≡ doubled c.backoff_max (suc n) c.backoff_initial
unfolding backoff
backoff_later c n = ground arith

backoff_at_most_one : (c : Config) (n : ℕ) → n ≤ 1 → backoff c n ≡ c.backoff_initial
unfolding backoff
backoff_at_most_one c n h = ground arith

-- Where the first delay is at most the greatest, the delay before a retry is between the two, and
-- the next attempt waits no less.
pub backoff-bounds :
    (c : Config) (attempt : ℕ)
    → c.backoff_initial ≤ c.backoff_max
    → (c.backoff_initial ≤ backoff c attempt)
      × (backoff c attempt ≤ c.backoff_max)
      × (backoff c attempt ≤ backoff c (suc attempt))
backoff-bounds c zero h =
    rw (backoff_at_most_one c 0 (omega arith), backoff_at_most_one c 1 (omega arith))
      (omega arith, h, omega arith)
backoff-bounds c (suc zero) h =
    rw (backoff_at_most_one c 1 (omega arith), backoff_later c 0)
      (omega arith, h, (doubled-bounds _ 1 _ h).0)
backoff-bounds c (suc (suc n)) h =
    let (low, high) = doubled-bounds c.backoff_max (suc n) c.backoff_initial h in
    rw (backoff_later c n, backoff_later c (suc n))
      (low, high, doubled-grows c.backoff_max (suc n) c.backoff_initial h)
