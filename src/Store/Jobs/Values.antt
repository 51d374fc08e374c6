-- ===== src/Store/Jobs/Values.antt =====
-- internal/store/workflows.go: status tests, NULLs and orders that the statements on jobs use.
use cert_keeper.Prelude.{
  ℕ, Text, Bool, true, false, ◌&&◌, ◌||◌, ◌==◌, nat_eq, text_eq, Option, none, some, ok, err, ltb,
  leb, List, [], ◌∷◌, if◌then◌else◌, any, codes,
}
use cert_keeper.Store.Sql.{text_before, update}
use cert_keeper.Store.Schema.{
  JobStatus, unset, queued, running, succeeded, failed, cancelled, other, Job, Db, no_rows, Outcome,
}

abbrev pub attempts_exhausted : Text
attempts_exhausted = codes "attempts_exhausted"

-- "任务达到最大尝试次数", in UTF-8.
unfoldable pub attempts_exhausted_message : Text
attempts_exhausted_message =
    228 ∷ 187 ∷ 187 ∷ 229 ∷ 138 ∷ 161 ∷ 232 ∷ 190 ∷ 190 ∷ 229 ∷ 136 ∷ 176 ∷ 230 ∷ 156 ∷ 128 ∷ 229
    ∷ 164 ∷ 167 ∷ 229 ∷ 176 ∷ 157 ∷ 232 ∷ 175 ∷ 149 ∷ 230 ∷ 172 ∷ 161 ∷ 230 ∷ 149 ∷ 176 ∷ []

abbrev pub valid_job_status : JobStatus → Bool
valid_job_status unset = false
valid_job_status (other _) = false
valid_job_status _ = true

abbrev pub is_terminal_job_status : JobStatus → Bool
is_terminal_job_status succeeded = true
is_terminal_job_status failed = true
is_terminal_job_status cancelled = true
is_terminal_job_status _ = false

abbrev pub is_queued : JobStatus → Bool
is_queued queued = true
is_queued _ = false

abbrev pub is_running : JobStatus → Bool
is_running running = true
is_running _ = false

-- "" is stored as NULL.
abbrev pub null_string : Text → Option Text
null_string [] = none
null_string (c ∷ s) = some (c ∷ s)

-- `COALESCE(a, b)`.
abbrev pub coalesce {ℓ} : {A : Type ℓ} → Option A → A → A
coalesce none b = b
coalesce (some a) b = a

-- `COALESCE(a, b)` of two columns.
abbrev pub coalesce? {ℓ} : {A : Type ℓ} → Option A → Option A → Option A
coalesce? none b = b
coalesce? (some a) b = some a

-- A comparison with NULL is not true.
abbrev pub is_some_text : Option Text → Text → Bool
is_some_text none t = false
is_some_text (some s) t = s == t

abbrev pub later_than : Option ℕ → ℕ → Bool
later_than none now = false
later_than (some t) now = ltb now t

abbrev pub null_or_due : Option ℕ → ℕ → Bool
null_or_due none now = true
null_or_due (some t) now = leb t now

abbrev pub member_text : Text → List Text → Bool
member_text t ts = any (λ s. s == t) ts

-- The reference may be NULL.
abbrev pub refers_to : Option Text → List Text → Bool
refers_to none ts = true
refers_to (some t) ts = member_text t ts

-- The columns of the unique index on certificate_jobs.
abbrev pub same_key : Text → Text → Text → Job → Bool
same_key domain operation key j =
    j.domain == domain && j.operation == operation && j.idempotency_key == key

-- `ORDER BY created_at ASC, id ASC`.
abbrev pub created_before : Job → Job → Bool
created_before a b =
    ltb a.created_at b.created_at || (a.created_at == b.created_at && text_before a.id b.id)

-- An `UPDATE` that must meet a row, or `sql.ErrNoRows`.
abbrev pub update_one : Db → (Job → Bool) → (Job → Job) → Outcome (Unit {0})
update_one db p f =
    if any p db.jobs then (record db { jobs = update p f db.jobs }, ok tt) else (db, err no_rows)
