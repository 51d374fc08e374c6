-- ===== src/Store/Jobs/Order.antt =====
-- Which job `Claim` takes: the first that `ListRecoverable` lists.
use mathlib.Core
use cert_keeper.Prelude.{
  ℕ, zero, suc, ◌+◌, ◌≤◌, Text, false, nat_eq, text_eq, ok, List, [], ◌∷◌, filter, take, is_blank,
  ◌≡◌, refl, ap, ◌∙◌, arith, Option-cases, inl, inr, Bool-cases,
}
use cert_keeper.Prelude.Int.{ℤ, pos, negsuc, pos_part}
use cert_keeper.Store.Sql.{update, first_by, head?, order_by, head-order_by}
use cert_keeper.Store.Schema.{Job, Db}
use cert_keeper.Store.Jobs.Lease.{
  is_exhausted, fail_exhausted, lease_to, claim_row, claim, is_recoverable, due_before,
  list_recoverable, bounded_limit, not_positive, duration_seconds,
}

-- A row that the first statement fails was not one to take, and is none afterwards.
filter-swept :
    (now : ℕ) (jobs : List Job)
    → filter (is_recoverable now) (update (is_exhausted now) (fail_exhausted now) jobs)
      ≡ filter (is_recoverable now) jobs
unfolding fail_exhausted
filter-swept now [] = refl
filter-swept now (j ∷ js) = elim (Bool-cases (is_exhausted now j)) [
  | inl e ↦
      let before : is_recoverable now j ≡ false = ground arith in
      let after : is_recoverable now (fail_exhausted now j) ≡ false = ground arith in
      rw (e, before, after) (filter-swept now js)
  | inr n ↦ rw (n, filter-swept now js) refl
]

head-take : (n : ℕ) (jobs : List Job) → 1 ≤ n → head? (take n jobs) ≡ head? jobs
head-take zero jobs h = absurd (ground arith)
head-take (suc n) [] h = refl
head-take (suc n) (j ∷ js) h = refl

bounded_limit-pos : (limit : ℤ) → 1 ≤ bounded_limit limit
bounded_limit-pos (pos n) = ground arith
bounded_limit-pos (negsuc n) = ground arith

claim_row-first :
    (db : Db) (owner : Text) (until now : ℕ)
    → (claim_row db owner until now).1
      ≡ ok (
          Core.Option.map
            (lease_to owner until now)
            (first_by due_before (filter (is_recoverable now) db.jobs)))
unfolding claim_row
claim_row-first db owner until now =
    elim (Option-cases (first_by due_before (filter (is_recoverable now) db.jobs))) [
      | inl n ↦
          let after = ap (first_by due_before) (filter-swept now db.jobs) ∙ n in
          rw (n, after, claim_row) refl
      | inr (j, s) ↦
          let after = ap (first_by due_before) (filter-swept now db.jobs) ∙ s in
          rw (s, after, claim_row) refl
    ]

-- `Claim` by a named owner for a positive time returns the first of the jobs that
-- `ListRecoverable` lists at that instant, whatever its limit, in the state that the lease gives
-- it, and returns none when that list is empty.
pub claim-takes_first :
    (db : Db) (now : ℕ) (owner : Text) (d limit : ℤ)
    → is_blank owner ≡ false
    → not_positive d ≡ false
    → (claim db now owner d).1
      ≡ ok (
          Core.Option.map
            (lease_to owner (now + duration_seconds (pos_part d)) now)
            (head? (list_recoverable db now limit)))
unfolding claim list_recoverable
claim-takes_first db now owner d limit named positive =
    rw
      (
        named,
        positive,
        head-take _ (order_by due_before (filter (is_recoverable now) db.jobs))
            (bounded_limit-pos limit),
        head-order_by due_before (filter (is_recoverable now) db.jobs),
      )
      (claim_row-first db owner (now + duration_seconds (pos_part d)) now)
