-- ===== src/Store/Jobs/Claimed.antt =====
-- What `Claim` does to the table, case by case.
use cert_keeper.Prelude.{
  ℕ, ◌+◌, Text, true, ◌==◌, nat_eq, text_eq, Option, none, some, ok, List, [], filter, ◌≡◌, arith,
  All, if_either, Option-cases, inl, inr, text_beq_iff,
}
use cert_keeper.Prelude.Int.{ℤ, pos_part}
use cert_keeper.Store.Sql.{update, first_by}
use cert_keeper.Store.Sql.Laws.{
  AllPairs, All-update, All-zip, All-update_to, All-filter, first_by-All, first_by-none,
}
use cert_keeper.Store.Schema.{Job, Db, Outcome}
use cert_keeper.Store.Jobs.Lease.{
  is_exhausted, fail_exhausted, lease_to, claim_row, claim, is_recoverable, due_before,
  duration_seconds,
}
use cert_keeper.Store.Jobs.WellFormed.{
  Apart, IsBounded, IsWellFormed, update-Apart, lease_to-IsHarmless, fail_exhausted-IsHarmless,
  Found, All-Found, Found-unique,
}

-- The table after the first statement of `Claim`.
abbrev pub swept : Db → ℕ → List Job
swept db now = update (is_exhausted now) (fail_exhausted now) db.jobs

-- What `Claim` does: it finds no job that may be taken, or leases the row that is first in order.
pub data ClaimCases (db : Db) (owner : Text) (until now : ℕ) : Type 0 where
  nothing :
      filter (is_recoverable now) (swept db now) ≡ []
      → claim_row db owner until now ≡ (record db { jobs = swept db now }, ok none)
      → ClaimCases db owner until now
  leased :
      (j : Job)
      → first_by due_before (filter (is_recoverable now) (swept db now)) ≡ some j
      → Found (swept db now) j
      → is_recoverable now j ≡ true
      → claim_row db owner until now ≡ (
        record db { jobs = update (λ k. k.id == j.id) (lease_to owner until now) (swept db now) },
        ok (some (lease_to owner until now j)),
      )
      → ClaimCases db owner until now

pub swept-Apart : (db : Db) (now : ℕ) → IsWellFormed db → AllPairs Apart (swept db now)
swept-Apart db now w = update-Apart _ _ db.jobs (fail_exhausted-IsHarmless now) w.apart

swept-IsBounded : (db : Db) (now : ℕ) → IsWellFormed db → All IsBounded (swept db now)
unfolding fail_exhausted
swept-IsBounded db now w =
    All-update IsBounded (is_exhausted now) (fail_exhausted now) db.jobs (λ j b _. ground arith)
      w.bounded

pub claim_row-cases :
    (db : Db) (owner : Text) (until now : ℕ) → IsWellFormed db → ClaimCases db owner until now
unfolding claim_row
claim_row-cases db owner until now w =
    elim (Option-cases (first_by due_before (filter (is_recoverable now) (swept db now)))) [
      | inl n ↦ nothing (first_by-none due_before _ n) (rw (n, claim_row))
      | inr (j, e) ↦
          let (found, ready) =
            first_by-All (λ k. Found (swept db now) k × (is_recoverable now k ≡ true)) due_before _
              (All-filter (Found (swept db now)) (is_recoverable now) (swept db now)
                (All-Found _ (swept-Apart db now w)))
              e in
          leased j e found ready (rw (e, claim_row))
    ]

-- The claim of a row keeps the bounds, since it had a try left.
pub claim_row-IsWellFormed :
    (db : Db) (owner : Text) (until now : ℕ)
    → IsWellFormed db
    → IsWellFormed (claim_row db owner until now).0
claim_row-IsWellFormed db owner until now w = go (claim_row-cases db owner until now w)
  where
    tries :
        (j k : Job)
        → Found (swept db now) j
        → is_recoverable now j ≡ true
        → Found (swept db now) k × IsBounded k
        → (k.id == j.id) ≡ true
        → IsBounded (lease_to owner until now k)
    tries j k fj ready (fk, b) e =
        let same : k ≡ j = Found-unique (swept db now) j k fj fk ((text_beq_iff k.id j.id).0 e) in
        rw same (unfold lease_to in ground arith)

    go : ClaimCases db owner until now → IsWellFormed (claim_row db owner until now).0
    go (nothing none_ready e) =
        rw e (record { apart = swept-Apart db now w; bounded = swept-IsBounded db now w })
    go (leased j first found ready e) = rw e (record {
      apart =
          update-Apart _ _ (swept db now) (lease_to-IsHarmless owner until now)
            (swept-Apart db now w);
      bounded =
          All-update_to (λ k. k.id == j.id) (lease_to owner until now) (swept db now)
            (λ k (fk, b). b) (λ k h same. tries j k found ready h same)
            (All-zip (swept db now) (λ k f b. (f, b)) (All-Found _ (swept-Apart db now w))
              (swept-IsBounded db now w));
    })

pub claim-IsWellFormed :
    (db : Db) (now : ℕ) (owner : Text) (d : ℤ)
    → IsWellFormed db
    → IsWellFormed (claim db now owner d).0
unfolding claim
claim-IsWellFormed db now owner d w =
    if_either (λ (o : Outcome (Option Job)). IsWellFormed o.0) _ w
      (claim_row-IsWellFormed db owner (now + duration_seconds (pos_part d)) now w)
