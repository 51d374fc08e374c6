-- ===== src/Store/Jobs/Created.antt =====
-- `CreateCertificateJob`: what it does to the table, and that it is idempotent in the key.
use cert_keeper.Prelude.{
  ℕ, Text, Bool, true, false, ◌||◌, ◌==◌, text_eq, Option, none, some, ok, err, Result, List, [],
  ◌∷◌, ◌++◌, any, filter, ◌≡◌, ◌⊎◌, inl, inr, refl, sym, ap, arith, Bool-cases, Option-cases,
  ==_refl,
}
use cert_keeper.Store.Sql.{first_by}
use cert_keeper.Store.Schema.{Job, JobRequest, Db, StoreError, unique}
use cert_keeper.Store.Jobs.Values.{same_key, created_before}
use cert_keeper.Store.Jobs.Create.{
  create_certificate_job, create_with_id, insert_job, insert_or_get, get_by_idempotency, is_named,
  valid_request, new_job, job_id,
}

module _ {ℓ} {A : Type ℓ} where
  filter-nil : (p q : A → Bool) (xs : List A) → any (λ x. q x || p x) xs ≡ false → filter p xs ≡ []
  filter-nil p q [] h = refl
  filter-nil p q (x ∷ xs) h = ground (arith, filter-nil p q xs)

  filter-snoc :
      (p : A → Bool) (xs : List A) (y : A)
      → p y ≡ true
      → filter p (xs ++ y ∷ []) ≡ filter p xs ++ y ∷ []
  filter-snoc p [] y h = rw h
  filter-snoc p (x ∷ xs) y h = ground (arith, filter-snoc p xs y h)

  any-of-first_by :
      (before : A → A → Bool) (p q : A → Bool) (xs : List A) {x : A}
      → first_by before (filter p xs) ≡ some x
      → any (λ y. q y || p y) xs ≡ true
  unfolding first_by
  any-of-first_by before p q xs {x} h = elim (Bool-cases (any (λ y. q y || p y) xs)) [
    | inl yes_some ↦ yes_some
    | inr nowhere ↦ absurd (none-ne-some (rw (filter-nil p q xs nowhere) at h))
  ]
    where
      none-ne-some : ◌≡◌ {A = Option A} none (some x) → ⊥
      none-ne-some e = cc

-- A creation leaves the database alone or adds one row to the jobs.
abbrev pub Adds : Db → Db → Type 0
Adds db db' = (db' ≡ db) ⊎ ((k : Job) × (db' ≡ record db { jobs = db.jobs ++ k ∷ [] }))

insert_or_get-Adds :
    (db : Db) (j : Job) (r : Result StoreError Db)
    → insert_job db j ≡ r
    → Adds db (insert_or_get db j).0
unfolding insert_or_get
insert_or_get-Adds db j (ok db') e =
    rw (e, insert_or_get) (inr (j, (unfold insert_job in ground arith)))
insert_or_get-Adds db j (err unique) e =
    elim (Option-cases (get_by_idempotency db j.domain j.operation j.idempotency_key)) [
      | inl n ↦ rw (e, n, insert_or_get) (inl refl)
      | inr (k, s) ↦ rw (e, s, insert_or_get) (inl refl)
    ]
insert_or_get-Adds db j (err x) e = rw (e, insert_or_get) (inl refl)

create_with_id-Adds :
    (db : Db) (now : ℕ) (r : JobRequest) (id : Option Text) → Adds db (create_with_id db now r id).0
unfolding create_with_id
create_with_id-Adds db now r none = inl refl
create_with_id-Adds db now r (some id) = elim (Bool-cases (valid_request r)) [
  | inl v ↦ rw v (insert_or_get-Adds db (new_job now id r) _ refl)
  | inr n ↦ rw n (inl refl)
]

pub create-Adds :
    (db : Db) (now : ℕ) (fresh : Option Text) (r : Option JobRequest)
    → Adds db (create_certificate_job db now fresh r).0
unfolding create_certificate_job
create-Adds db now fresh none = inl refl
create-Adds db now fresh (some r) = elim (Bool-cases (is_named r)) [
  | inl v ↦ rw v (create_with_id-Adds db now r (job_id r.id fresh))
  | inr n ↦ rw n (inl refl)
]

-- What an equation of outcomes says of their parts.
module _ {ℓ κ} {D : Type ℓ} {A : Type κ} where
  same_outcome :
      {d d' : D} {a a' : A}
      → ◌≡◌ {A = D × Result StoreError A} (d, ok a) (d', ok a')
      → (d ≡ d') × (a ≡ a')
  same_outcome e = (ap (λ o. o.0) e, let r = ap (λ o. o.1) e in cc)

  no_outcome :
      {d d' : D} {x : StoreError} {a : A}
      → ◌≡◌ {A = D × Result StoreError A} (d, err x) (d', ok a)
      → ⊥
  no_outcome e = let r = ap (λ o. o.1) e in cc

same_key_self : (j : Job) → same_key j.domain j.operation j.idempotency_key j ≡ true
same_key_self j = rw (==_refl j.domain, ==_refl j.operation, ==_refl j.idempotency_key) refl

-- The key of an inserted row selects that row.
inserted-get :
    (db : Db) (j : Job) {db' : Db}
    → insert_job db j ≡ ok db'
    → get_by_idempotency db' j.domain j.operation j.idempotency_key ≡ some j
unfolding insert_job get_by_idempotency first_by
inserted-get db j {db'} e =
    elim (Bool-cases
      (any (λ k. k.id == j.id || same_key j.domain j.operation j.idempotency_key k) db.jobs)) [
        | inl c ↦ absurd (ground arith)
        | inr n ↦
            let row : db.jobs ++ j ∷ [] ≡ db'.jobs = ground arith in
            let alone : filter (same_key j.domain j.operation j.idempotency_key) (db.jobs ++ j ∷ [])
                ≡ j ∷ [] =
              rw
                (
                  filter-snoc (same_key j.domain j.operation j.idempotency_key) db.jobs j
                      (same_key_self j),
                  filter-nil (same_key j.domain j.operation j.idempotency_key) (λ k. k.id == j.id)
                      db.jobs n,
                )
                refl in
            rw (sym row, alone) refl
      ]

-- What a successful insertion or lookup leaves behind: the key now selects the returned row.
insert_or_get-get :
    (db : Db) (j k : Job) (r : Result StoreError Db) {db1 : Db}
    → insert_job db j ≡ r
    → insert_or_get db j ≡ (db1, ok k)
    → get_by_idempotency db1 j.domain j.operation j.idempotency_key ≡ some k
unfolding insert_or_get
insert_or_get-get db j k (ok db') {db1} e h =
    let (same_db, same_job) = same_outcome (rw (e, insert_or_get) at h) in
    rw (sym same_db, sym same_job) (inserted-get db j e)
insert_or_get-get db j k (err unique) {db1} e h =
    elim (Option-cases (get_by_idempotency db j.domain j.operation j.idempotency_key)) [
      | inl n ↦ absurd (no_outcome (rw (e, n, insert_or_get) at h))
      | inr (existing, s) ↦
          let (same_db, same_job) = same_outcome (rw (e, s, insert_or_get) at h) in
          rw (sym same_db, sym same_job) s
    ]
insert_or_get-get db j k (err x) {db1} e h = absurd (no_outcome (rw (e, insert_or_get) at h))

-- A later creation under a key that selects a row returns that row and changes nothing.
pub create_of_existing :
    (db : Db) (now : ℕ) (fresh : Option Text) (r : JobRequest) {id : Text} (k : Job)
    → is_named r ≡ true
    → valid_request r ≡ true
    → job_id r.id fresh ≡ some id
    → get_by_idempotency db r.domain r.operation r.idempotency_key ≡ some k
    → create_certificate_job db now fresh (some r) ≡ (db, ok k)
unfolding create_certificate_job create_with_id insert_or_get new_job
create_of_existing db now fresh r {id} k named valid chosen found =
    let clashing : insert_job db (new_job now id r) ≡ err unique =
      unfold insert_job get_by_idempotency in
      rw (
        any-of-first_by created_before (same_key r.domain r.operation r.idempotency_key)
          (λ i. i.id == id) db.jobs found) in
    rw (named, chosen, create_with_id, valid, clashing, insert_or_get, found)

-- What a creation that succeeds has checked, and the insertion that it made.
record IsCreated (db db1 : Db) (now : ℕ) (fresh : Option Text) (r : JobRequest) (j : Job)
    : Type 0 where
  named : is_named r ≡ true
  valid : valid_request r ≡ true
  inserted : (id : Text) × (insert_or_get db (new_job now id r) ≡ (db1, ok j))

create-IsCreated :
    (db : Db) (now : ℕ) (fresh : Option Text) (r : JobRequest) {db1 : Db} {j : Job}
    → create_certificate_job db now fresh (some r) ≡ (db1, ok j)
    → IsCreated db db1 now fresh r j
unfolding create_certificate_job create_with_id
create-IsCreated db now fresh r {db1} {j} h = elim (Bool-cases (is_named r)) [
  | inr n ↦ absurd (no_outcome (rw (n, create_certificate_job) at h))
  | inl named ↦ go named (job_id r.id fresh) (rw (named, create_certificate_job) at h)
]
  where
    go :
        is_named r ≡ true
        → (id : Option Text) → create_with_id db now r id ≡ (db1, ok j)
        → IsCreated db db1 now fresh r j
    go named none h' = absurd (no_outcome h')
    go named (some id) h' = elim (Bool-cases (valid_request r)) [
      | inl v ↦ record { named = named; valid = v; inserted = (id, rw (v, create_with_id) at h') }
      | inr n ↦ absurd (no_outcome (rw (n, create_with_id) at h'))
    ]

-- A creation that succeeded with a job is repeated, later and with another drawn id, by any valid
-- request for the same domain, operation and key: it returns the same job and changes nothing.
pub create_again :
    (db db1 : Db) (now later : ℕ) (fresh : Option Text) (drawn : Text) (r again : JobRequest)
    (j : Job)
    → create_certificate_job db now fresh (some r) ≡ (db1, ok j)
    → again.domain ≡ r.domain
    → again.operation ≡ r.operation
    → again.idempotency_key ≡ r.idempotency_key
    → valid_request again ≡ true
    → create_certificate_job db1 later (some drawn) (some again) ≡ (db1, ok j)
create_again db db1 now later fresh drawn r again j h same_domain same_operation same_key_text v =
    let c = create-IsCreated db now fresh r h in
    let (id, i) = c.inserted in
    let chosen = a_job_id again.id in
    create_of_existing db1 later (some drawn) again j
      (unfold is_named in
        rw (same_domain, same_operation, same_key_text) (unfold is_named in c.named))
      v chosen.1
      (rw (same_domain, same_operation, same_key_text)
        (unfold new_job in insert_or_get-get db (new_job now id r) j _ refl i))
  where
    a_job_id : (s : Text) → (id : Text) × (job_id s (some drawn) ≡ some id)
    a_job_id [] = (drawn, refl)
    a_job_id (x ∷ xs) = (x ∷ xs, refl)
