-- ===== src/Service/Reconcile/Laws.antt =====
-- What a reconciliation needs, and what it creates.
use cert_keeper.Prelude.{
  ℕ, Text, Bool, true, false, ◌&&◌, ◌||◌, ◌==◌, nat_eq, text_eq, Option, none, some, Result, ok,
  err, List, [], ◌∷◌, ◌++◌, ◌≡◌, ◌≢◌, refl, arith, ap, ◌∙◌, ◌⊎◌, inl, inr, if◌then◌else◌, codes,
  require, >>-eq-ok, require-eq-ok, text_beq_iff, filter,
}
use mathlib.Core.List.{reverse, reverse-append}
use mathlib.Core.Path.{subst}
use cert_keeper.Client.Read.{lookup}
use cert_keeper.Store.Schema.{Db, Job, JobRequest, Outcome, StoreError}
use cert_keeper.Store.Sql.Laws.{first_by-All}
use cert_keeper.Store.Jobs.Values.{same_key}
use cert_keeper.Store.Jobs.Create
use cert_keeper.Store.Jobs.Create.{create_certificate_job}
use cert_keeper.Store.Sql.Order.{filter-All}
use cert_keeper.Store.Grants.{TokenGrant, has_certificate_permission}
use cert_keeper.Service
use cert_keeper.Service.Reconcile

allowed-ok : (r : Result StoreError Bool) → Service.allowed r ≡ ok tt → r ≡ ok true
allowed-ok (ok true) h = refl
allowed-ok (ok false) h = cc
allowed-ok (err e) h = cc

pub require_v2-ok :
    (grants : List TokenGrant) (t d p : Text)
    → Service.require_v2_permission grants t d p ≡ ok tt
    → has_certificate_permission grants t d p ≡ ok true
unfolding Service.require_v2_permission
require_v2-ok grants t d p h = allowed-ok (has_certificate_permission grants t d p) h

-- The rights that a request needs.
pub record IsPermitted (s : Service.State) (req : Reconcile.V2ReconcileRequest) : Type 0 where
  pub valid : Service.v2_validate_domain req.domain ≡ true
  pub may_apply :
      has_certificate_permission s.grants req.token_id req.domain (codes "apply") ≡ ok true
  pub may_force :
      req.force ≡ true
      → (req.is_admin ≡ true)
        × (has_certificate_permission s.grants req.token_id req.domain (codes "force") ≡ ok true)

check_force-ok :
    (s : Service.State) (req : Reconcile.V2ReconcileRequest) (force : Bool)
    → Reconcile.check_force s req force ≡ ok tt
    → force ≡ true
    → (req.is_admin ≡ true)
      × (has_certificate_permission s.grants req.token_id req.domain (codes "force") ≡ ok true)
check_force-ok s req false h e = cc
check_force-ok s req true h e =
    let (a, r) = >>-eq-ok (require req.is_admin _) _ h in
    (require-eq-ok req.is_admin _ a, require_v2-ok s.grants req.token_id req.domain _ r)

check-IsPermitted :
    (s : Service.State) (req : Reconcile.V2ReconcileRequest)
    → Reconcile.check_reconcile s req ≡ ok tt
    → IsPermitted s req
unfolding Reconcile.check_reconcile
check-IsPermitted s req h =
    let (e1, h1) = >>-eq-ok (require (Service.v2_validate_domain req.domain) _) _ h in
    let (e4, h4) = >>-eq-ok (Reconcile.check_fields req) _ h1 in
    let (e5, h5) = >>-eq-ok (Reconcile.check_preset (lookup req.domain s.presets)) _ h4 in
    let (e6, h6) =
      >>-eq-ok (Service.require_v2_permission s.grants req.token_id req.domain (codes "apply"))
        (Reconcile.check_force s req req.force) h5 in
    record {
      valid = require-eq-ok (Service.v2_validate_domain req.domain) _ e1;
      may_apply = require_v2-ok s.grants req.token_id req.domain (codes "apply") e6;
      may_force = check_force-ok s req req.force h6;
    }

-- The job that is returned is of the request.
pub record IsOf (r : JobRequest) (j : Job) : Type 0 where
  pub same_domain : j.domain ≡ r.domain
  pub same_operation : j.operation ≡ r.operation
  pub same_idempotency_key : j.idempotency_key ≡ r.idempotency_key

same_key-IsOf :
    (r : JobRequest) (j : Job) → same_key r.domain r.operation r.idempotency_key j ≡ true → IsOf r j
same_key-IsOf r j h = record {
  same_domain = (parts j.domain j.operation j.idempotency_key h).0;
  same_operation = (parts j.domain j.operation j.idempotency_key h).1;
  same_idempotency_key = (parts j.domain j.operation j.idempotency_key h).2;
}
  where
    parts :
        (d o k : Text)
        → (d == r.domain && o == r.operation && k == r.idempotency_key) ≡ true
        → (d ≡ r.domain) × (o ≡ r.operation) × (k ≡ r.idempotency_key)
    parts d o k e = ground (
      arith,
      text_beq_iff d r.domain,
      text_beq_iff o r.operation,
      text_beq_iff k r.idempotency_key,
    )

found-IsOf :
    (db : Db) (r : JobRequest) (k : Job)
    → Create.get_by_idempotency db r.domain r.operation r.idempotency_key ≡ some k
    → IsOf r k
unfolding Create.get_by_idempotency
found-IsOf db r k e = same_key-IsOf r k (
    first_by-All (λ j. same_key r.domain r.operation r.idempotency_key j ≡ true) _
      (filter (same_key r.domain r.operation r.idempotency_key) db.jobs)
      (filter-All (same_key r.domain r.operation r.idempotency_key) db.jobs) e)

some_of : {A : Type 0} {x y : A} → some x ≡ some y → x ≡ y
some_of h = cc

new_job-IsOf : (now : ℕ) (id : Text) (r : JobRequest) → IsOf r (Create.new_job now id r)
unfolding Create.new_job
new_job-IsOf now id r = record {
  same_domain = refl;
  same_operation = refl;
  same_idempotency_key = refl;
}

-- The job is the one of the request, or one that is found under its key.
inserted :
    (db : Db) (j k : Job) (x : Result StoreError Db) (y : Option Job)
    → Create.insert_job db j ≡ x
    → Create.get_by_idempotency db j.domain j.operation j.idempotency_key ≡ y
    → (Create.insert_or_get db j).1 ≡ ok k
    → (j ≡ k) ⊎ (y ≡ some k)
unfolding Create.insert_or_get
inserted db j k (ok db') y e f h = inl (ground arith)
inserted db j k (err StoreError.unique) none e f h = absurd (ground arith)
inserted db j k (err StoreError.unique) (some z) e f h = inr (ground arith)
inserted db j k (err StoreError.invalid_argument) y e f h = absurd (ground arith)
inserted db j k (err StoreError.no_rows) y e f h = absurd (ground arith)
inserted db j k (err StoreError.no_randomness) y e f h = absurd (ground arith)
inserted db j k (err StoreError.foreign_key) y e f h = absurd (ground arith)

inserted-IsOf :
    (db : Db) (now : ℕ) (id : Text) (r : JobRequest) (k : Job)
    → (Create.insert_or_get db (Create.new_job now id r)).1 ≡ ok k
    → IsOf r k
unfolding Create.new_job
inserted-IsOf db now id r k h = elim (inserted db (Create.new_job now id r) k _ _ refl refl h) [
  | inl same ↦ subst (IsOf r) same (new_job-IsOf now id r)
  | inr found ↦ found-IsOf db r k found
]

-- A guarded operation that succeeds.
if_ok :
    {A : Type 0} (b : Bool) (out : Outcome A) (db : Db) (e : StoreError) {a : A}
    → (if b then out else (db, err e)).1 ≡ ok a
    → out.1 ≡ ok a
if_ok true out db e h = h
if_ok false out db e h = cc

created-IsOf :
    (db : Db) (now : ℕ) (r : JobRequest) (k : Job) (id : Option Text)
    → (Create.create_with_id db now r id).1 ≡ ok k
    → IsOf r k
unfolding Create.create_with_id
created-IsOf db now r k none h = cc
created-IsOf db now r k (some id) h =
    inserted-IsOf db now id r k
      (if_ok (Create.valid_request r) (Create.insert_or_get db (Create.new_job now id r)) db _ h)

pub create-IsOf :
    (db : Db) (now : ℕ) (fresh : Option Text) (r : JobRequest) (k : Job)
    → (create_certificate_job db now fresh (some r)).1 ≡ ok k
    → IsOf r k
unfolding create_certificate_job
create-IsOf db now fresh r k h =
    created-IsOf db now r k (Create.job_id r.id fresh)
      (if_ok (Create.is_named r) (Create.create_with_id db now r (Create.job_id r.id fresh)) db _ h)

from_store-ok :
    {A : Type 0} (r : Result StoreError A) {a : A} → Service.from_store r ≡ ok a → r ≡ ok a
from_store-ok (ok x) h = cc
from_store-ok (err e) h = cc

with_job-ok :
    (s : Service.State) (out : Outcome Job) {j : Job}
    → (Reconcile.with_job s out).1 ≡ ok j
    → out.1 ≡ ok j
with_job-ok s (db, r) h = from_store-ok r h

create_job-IsOf :
    (s : Service.State) (now : ℕ) (fresh : Option Text) (req : Reconcile.V2ReconcileRequest)
    (j : Job)
    → (Reconcile.create_job s now fresh req).1 ≡ ok j
    → (id : Text) × IsOf (Reconcile.job_request req id) j
unfolding Reconcile.create_job
create_job-IsOf s now none req j h = cc
create_job-IsOf s now (some id) req j h = (
  id,
  create-IsOf s.db now none (Reconcile.job_request req id) j (
      with_job-ok s (create_certificate_job s.db now none (some (Reconcile.job_request req id))) h),
)

-- What a reconciliation that succeeds has done.
pub record IsReconciled (s : Service.State) (req : Reconcile.V2ReconcileRequest) (j : Job)
    : Type 0 where
  pub permitted : IsPermitted s req
  pub same_domain : j.domain ≡ req.domain
  pub same_operation :
      j.operation ≡ Reconcile.with_force req.force (Reconcile.operation_of req.operation)
  pub same_idempotency_key : j.idempotency_key ≡ req.idempotency_key

after_check-IsReconciled :
    (s : Service.State) (now : ℕ) (fresh : Option Text) (req : Reconcile.V2ReconcileRequest)
    (j : Job) (r : Result Service.ServiceError (Unit {0}))
    → Reconcile.check_reconcile s req ≡ r
    → (Reconcile.after_check s now fresh req r).1 ≡ ok j
    → IsReconciled s req j
unfolding Reconcile.job_request
after_check-IsReconciled s now fresh req j (err e) c h = cc
after_check-IsReconciled s now fresh req j (ok u) c h =
    let (id, of) = create_job-IsOf s now fresh req j h in
    record {
      permitted = check-IsPermitted s req c;
      same_domain = of.same_domain;
      same_operation = of.same_operation;
      same_idempotency_key = of.same_idempotency_key;
    }

-- If ReconcileV2 returns a job, then the domain is valid, the token has the permission to apply on
-- it and, where the request asks to force, is an admin's with the permission to force; and the job
-- is of that domain and idempotency key, and of the operation asked for, with ":force" behind it
-- where the request asks to force.
pub reconcile-IsReconciled :
    (s : Service.State) (now : ℕ) (fresh : Option Text) (req : Reconcile.V2ReconcileRequest)
    (j : Job)
    → (Reconcile.reconcile_v2 s now fresh req).1 ≡ ok j
    → IsReconciled s req j
unfolding Reconcile.reconcile_v2
reconcile-IsReconciled s now fresh req j h =
    after_check-IsReconciled s now fresh req j (Reconcile.check_reconcile s req) refl h

-- Without the right to apply, nothing changes.
denied :
    (s : Service.State) (now : ℕ) (fresh : Option Text) (req : Reconcile.V2ReconcileRequest)
    (r : Result Service.ServiceError (Unit {0}))
    → r ≢ ok tt
    → (Reconcile.after_check s now fresh req r).0 ≡ s
denied s now fresh req (err e) n = refl
denied s now fresh req (ok u) n = absurd (n refl)

-- If the token has not the permission to apply on the domain, ReconcileV2 changes no table.
pub reconcile-denied :
    (s : Service.State) (now : ℕ) (fresh : Option Text) (req : Reconcile.V2ReconcileRequest)
    → has_certificate_permission s.grants req.token_id req.domain (codes "apply") ≢ ok true
    → (Reconcile.reconcile_v2 s now fresh req).0 ≡ s
unfolding Reconcile.reconcile_v2
reconcile-denied s now fresh req n =
    denied s now fresh req (Reconcile.check_reconcile s req)
      (λ h. n (check-IsPermitted s req h).may_apply)

has_prefix-append : (p s : Text) → Reconcile.has_prefix (p ++ s) p ≡ true
has_prefix-append [] s = refl
has_prefix-append (c ∷ p) s = ground (arith, has_prefix-append p s)

forced-append : (s : Text) → Reconcile.is_forced (s ++ codes ":force") ≡ true
unfolding Reconcile.is_forced
forced-append s =
    ap (λ t. Reconcile.has_prefix t (reverse (codes ":force"))) (reverse-append s (codes ":force"))
    ∙ has_prefix-append (reverse (codes ":force")) (reverse s)

with_force-is_forced :
    (force : Bool) (operation : Text)
    → Reconcile.is_forced (Reconcile.with_force force operation)
      ≡ (force || Reconcile.is_forced operation)
with_force-is_forced true operation = forced-append operation
with_force-is_forced false operation = refl

-- If ReconcileV2 returns a job, then the worker takes it as one to force exactly if the request
-- asks to force, or its operation, less the spaces around it, ends in ":force" itself.
pub reconcile-is_forced :
    (s : Service.State) (now : ℕ) (fresh : Option Text) (req : Reconcile.V2ReconcileRequest)
    (j : Job)
    → (Reconcile.reconcile_v2 s now fresh req).1 ≡ ok j
    → Reconcile.is_forced j.operation
      ≡ (req.force || Reconcile.is_forced (Reconcile.operation_of req.operation))
reconcile-is_forced s now fresh req j h =
    ap Reconcile.is_forced (reconcile-IsReconciled s now fresh req j h).same_operation
    ∙ with_force-is_forced req.force (Reconcile.operation_of req.operation)
