-- ===== src/Store/Jobs/Granted.antt =====
-- What a successful `Claim` gives its owner: a lease on the row, at the price of one try.
use cert_keeper.Prelude.{
  ℕ, ◌+◌, ◌-◌, ◌≤◌, ◌<◌, Text, Bool, true, ◌||◌, ◌==◌, nat_eq, text_eq, Option, some, ok, List, [],
  ◌∷◌, if◌then◌else◌, ◌≡◌, refl, sym, ap, ◌∙◌, arith, inl, inr, Bool-cases, All, text_beq_iff,
}
use cert_keeper.Store.Sql.{update, find}
use cert_keeper.Store.Sql.Laws.{All-zip}
use cert_keeper.Store.Schema.{Job, Db, Outcome}
use cert_keeper.Store.Jobs.Values.{is_running, is_queued}
use cert_keeper.Store.Jobs.Lease.{is_exhausted, fail_exhausted, lease_to, claim_row, is_recoverable}
use cert_keeper.Store.Jobs.WellFormed.{IsWellFormed, Found, All-Found, Found-unique}
use cert_keeper.Store.Jobs.Claimed.{nothing, leased, claim_row-cases, swept, swept-Apart}
use cert_keeper.Store.Jobs.Trace.{IsLeased}

module _ {ℓ} {A : Type ℓ} where
  find-update_same :
      (p : A → Bool) (f : A → A) (xs : List A) {x : A}
      → ((y : A) → p (f y) ≡ p y)
      → find p xs ≡ some x
      → find p (update p f xs) ≡ some (f x)
  find-update_same p f [] keep e = absurd (ground arith)
  find-update_same p f (y ∷ ys) {x} keep e =
      ground (arith, keep y, find-update_same p f ys {x = x} keep)

same_result :
    {d d' : Db} {a a' : Option Job}
    → ◌≡◌ {A = Outcome (Option Job)} (d, ok a) (d', ok a')
    → (d ≡ d') × (a ≡ a')
same_result e = (ap (λ o. o.0) e, let r = ap (λ o. o.1) e in cc)

-- On a well-formed table, a claim that returns a row leaves that row in the table, running and
-- leased to the owner until the instant asked for.
pub claim_row-IsLeased :
    (db db1 : Db) (owner : Text) (until now : ℕ) (k : Job)
    → IsWellFormed db
    → claim_row db owner until now ≡ (db1, ok (some k))
    → IsLeased k.id owner until k db1
unfolding lease_to
claim_row-IsLeased db db1 owner until now k w h = elim (claim_row-cases db owner until now w) [
  | nothing n e ↦ let (_, none_some) = same_result (sym e ∙ h) in absurd cc
  | leased j first found ready e ↦
      let (same_db, same_job) = same_result (sym e ∙ h) in
      let row : lease_to owner until now j ≡ k = cc in
      rw (sym same_db, sym row)
        (record {
          present =
              find-update_same (λ l. l.id == j.id) (lease_to owner until now) (swept db now)
                (λ y. refl) found;
          is_run = refl;
          held = refl;
          lasting = refl;
        })
]

module _ {ℓ} {A : Type ℓ} (measure : A → ℕ) where
  unfoldable pub total : List A → ℕ
  total [] = 0
  total (x ∷ xs) = measure x + total xs

  -- An update that raises no row's measure, and lowers that of the row found.
  pub total-update_le :
      (p : A → Bool) (f : A → A) (xs : List A)
      → ((x : A) → p x ≡ true → measure (f x) ≤ measure x)
      → total (update p f xs) ≤ total xs
  unfolding total
  total-update_le p f [] h = ground arith
  total-update_le p f (x ∷ xs) h = ground (arith, h x, total-update_le p f xs h)

  total-update_lt :
      (p : A → Bool) (f : A → A) (xs : List A) {x : A}
      → All (λ y. p y ≡ true → measure (f y) < measure y) xs
      → find p xs ≡ some x
      → total (update p f xs) < total xs
  unfolding total
  total-update_lt p f [] h e = absurd (ground arith)
  total-update_lt p f (y ∷ ys) {x} (h, hs) e = elim (Bool-cases (p y)) [
    | inl here ↦ rw here (ground (arith, h here, weak ys hs))
    | inr there ↦
        let later = rw there at e in
        rw there (ground (arith, total-update_lt p f ys {x = x} hs later))
  ]
    where
      weak :
          (zs : List A)
          → All (λ z. p z ≡ true → measure (f z) < measure z) zs
          → total (update p f zs) ≤ total zs
      weak [] t = ground arith
      weak (z ∷ zs) (t, ts) = ground (arith, weak zs ts)

-- The tries that are left to a job that has not ended.
abbrev pub tries_left : Job → ℕ
tries_left j = if is_queued j.status || is_running j.status then j.max_attempts - j.attempts else 0

swept_tries :
    (now : ℕ) (j : Job)
    → is_exhausted now j ≡ true
    → tries_left (fail_exhausted now j) ≤ tries_left j
unfolding fail_exhausted
swept_tries now j h = ground arith

leased_tries :
    (owner : Text) (until now : ℕ) (j : Job)
    → is_recoverable now j ≡ true
    → tries_left (lease_to owner until now j) < tries_left j
unfolding lease_to
leased_tries owner until now j h = ground arith

lt_of_lt_le : (a b c : ℕ) → a < b → b ≤ c → a < c
lt_of_lt_le a b c h k = omega arith

-- On a well-formed table, every claim that returns a row lowers the number of tries that are left
-- to the jobs that are queued or running.
pub claim_row-tries_left :
    (db db1 : Db) (owner : Text) (until now : ℕ) (k : Job)
    → IsWellFormed db
    → claim_row db owner until now ≡ (db1, ok (some k))
    → total tries_left db1.jobs < total tries_left db.jobs
claim_row-tries_left db db1 owner until now k w h = elim (claim_row-cases db owner until now w) [
  | nothing n e ↦ let (_, none_some) = same_result (sym e ∙ h) in absurd cc
  | leased j first found ready e ↦
      let (same_db, same_job) = same_result (sym e ∙ h) in
      let less =
        total-update_lt tries_left (λ l. l.id == j.id) (lease_to owner until now) (swept db now)
          (one j found ready) found in
      let before =
        total-update_le tries_left (is_exhausted now) (fail_exhausted now) db.jobs
          (swept_tries now) in
      rw (sym same_db) (lt_of_lt_le _ _ _ less before)
]
  where
    one :
        (j : Job)
        → Found (swept db now) j
        → is_recoverable now j ≡ true
        → All
            (λ l. (l.id == j.id) ≡ true → tries_left (lease_to owner until now l) < tries_left l)
            (swept db now)
    one j found ready =
        All-zip (swept db now)
          (λ l fl _ same.
            let equal =
              Found-unique (swept db now) j l found fl ((text_beq_iff l.id j.id).0 same) in
            rw equal (leased_tries owner until now j ready))
          (All-Found (swept db now) (swept-Apart db now w))
          (All-Found (swept db now) (swept-Apart db now w))
