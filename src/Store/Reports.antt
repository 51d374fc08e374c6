-- ===== src/Store/Reports.antt =====
-- internal/store/workflows.go: the reports of the deployments of a generation, one for each target.
pub mod Laws
use cert_keeper.Prelude.{
  ℕ, ◌+◌, Text, Bool, true, false, not, ◌&&◌, ◌||◌, ◌==◌, nat_eq, text_eq, Option, none, some,
  Result, ok, err, is_blank, is_empty, any, filter, List, [], ◌∷◌, ◌++◌, if◌then◌else◌,
}
use cert_keeper.Prelude.Int.{ℤ, pos, leb_ℤ, beq_ℤ, is_zero_ℤ, pos_part}
use cert_keeper.Store.Sql.{text_before, order_by, find, update}
use cert_keeper.Store.Schema.{Generation, Db, StoreError, invalid_argument, no_rows}
use cert_keeper.Store.Generations.{get_certificate_generation}
use cert_keeper.Store.Jobs.Values.{null_string, coalesce}

-- `unset` is the empty string, `other` any that the package does not name.
pub data DeploymentStatus : Type 0 where
  unset pending running succeeded failed : DeploymentStatus
  other : Text → DeploymentStatus

-- A row of deployment_reports; `none` is NULL.
pub record Report : Type 0 where
  pub id : ℕ
  pub generation_id : ℕ
  pub generation_ref : Option Text
  pub revision : ℕ
  pub manifest_digest : Option Text
  pub target : Text
  pub status : DeploymentStatus
  pub detail : Option Text
  pub created_at : ℕ
  pub updated_at : ℕ
  pub completed_at : Option ℕ

-- The `DeploymentReport` that a caller hands to `CreateDeploymentReport`, its `ID` being 0.
pub record ReportRequest : Type 0 where
  pub generation_id : ℤ
  pub generation : Text
  pub revision : ℤ
  pub manifest_digest : Option Text
  pub target : Text
  pub status : DeploymentStatus
  pub detail : Option Text
  pub created_at : ℕ
  pub completed_at : Option ℕ

-- The table, and the next id that it draws.
pub record Reports : Type 0 where
  pub rows : List Report
  pub next_id : ℕ

abbrev pub Reporting : Type 0 → Type 0
Reporting A = Reports × Result StoreError A

abbrev pub valid_deployment_status : DeploymentStatus → Bool
valid_deployment_status unset = false
valid_deployment_status (other _) = false
valid_deployment_status _ = true

abbrev pub default_deployment_status : DeploymentStatus → DeploymentStatus
default_deployment_status unset = pending
default_deployment_status s = s

-- `generation.CertificateRef.String` where it is valid, and "" where it is not.
abbrev pub stored_ref : Generation → Text
stored_ref g = coalesce g.certificate_ref []

-- A digest that is given is the one of the generation.
abbrev pub same_digest : Option Text → Option Text → Bool
same_digest none stored = true
same_digest (some digest) none = false
same_digest (some digest) (some stored) = digest == stored

-- The three comparisons with the generation.
unfoldable pub agrees_with : ReportRequest → Generation → Bool
agrees_with r g =
    (is_empty r.generation || r.generation == stored_ref g)
    && (is_zero_ℤ r.revision || beq_ℤ r.revision (pos g.revision))
    && same_digest r.manifest_digest g.manifest_digest

abbrev pub is_report_of : ℕ → Text → Report → Bool
is_report_of generation_id target r = r.generation_id == generation_id && r.target == target

unfoldable pub new_report : ℕ → ℕ → ReportRequest → Generation → Report
new_report id now r g = record {
  id = id;
  generation_id = pos_part r.generation_id;
  generation_ref = null_string (stored_ref g);
  revision = g.revision;
  manifest_digest = g.manifest_digest;
  target = r.target;
  status = default_deployment_status r.status;
  detail = r.detail;
  created_at = if r.created_at == 0 then now else r.created_at;
  updated_at = now;
  completed_at = r.completed_at;
}

-- `ON CONFLICT(generation_id, target) DO UPDATE`.
unfoldable pub overwritten : Report → Report → Report
overwritten new old = record old {
  generation_ref = new.generation_ref;
  revision = new.revision;
  manifest_digest = new.manifest_digest;
  status = new.status;
  detail = new.detail;
  updated_at = new.updated_at;
  completed_at = new.completed_at;
}

-- The id of a row that was overwritten, by what `LastInsertId` returns for the statement: SQLite's
-- last_insert_rowid(), which an update leaves as the insertions before it on the connection did.
unfoldable pub overwritten_id : Reports → ℕ → Report → ℕ
overwritten_id t last new =
    if last == 0
    then elim (find (is_report_of new.generation_id new.target) t.rows) [
      | none ↦ 0
      | some old ↦ old.id
    ]
    else last

unfoldable pub upsert_report : Reports → ℕ → Report → Reporting Report
upsert_report t last new =
    if any (is_report_of new.generation_id new.target) t.rows
    then (
      record t {
        rows = update (is_report_of new.generation_id new.target) (overwritten new) t.rows;
      },
      ok (record new { id = overwritten_id t last new }),
    )
    else (record t { rows = t.rows ++ new ∷ []; next_id = t.next_id + 1 }, ok new)

abbrev pub is_reportable : ReportRequest → Bool
is_reportable r =
    leb_ℤ (pos 1) r.generation_id
    && not (is_blank r.target)
    && valid_deployment_status (default_deployment_status r.status)

unfoldable pub create_for_generation :
    Reports → ℕ → ℕ → ReportRequest → Generation → Reporting Report
create_for_generation t now last r g =
    if agrees_with r g
    then upsert_report t last (new_report t.next_id now r g)
    else (t, err invalid_argument)

abbrev pub create_for_found : Reports → ℕ → ℕ → ReportRequest → Option Generation → Reporting Report
create_for_found t now last r none = (t, err no_rows)
create_for_found t now last r (some g) = create_for_generation t now last r g

unfoldable pub create_deployment_report :
    Db → Reports → ℕ → ℕ → Option ReportRequest → Reporting Report
create_deployment_report db t now last none = (t, err invalid_argument)
create_deployment_report db t now last (some r) =
    if is_reportable r
    then create_for_found t now last r (get_certificate_generation db (pos_part r.generation_id))
    else (t, err invalid_argument)

abbrev pub is_completed : DeploymentStatus → Bool
is_completed succeeded = true
is_completed failed = true
is_completed _ = false

unfoldable pub with_report_status : ℕ → DeploymentStatus → Text → Report → Report
with_report_status now status detail r = record r {
  status = status;
  detail = null_string detail;
  updated_at = now;
  completed_at = if is_completed status then some now else none;
}

abbrev pub has_id : ℕ → Report → Bool
has_id id r = r.id == id

unfoldable pub update_report_status :
    Reports → ℕ → ℕ → DeploymentStatus → Text → Reporting (Unit {0})
update_report_status t now id status detail =
    if not (valid_deployment_status status)
    then (t, err invalid_argument)
    else if any (has_id id) t.rows
    then (
      record t { rows = update (has_id id) (with_report_status now status detail) t.rows },
      ok tt,
    )
    else (t, err no_rows)

unfoldable pub get_deployment_report : Reports → ℕ → Option Report
get_deployment_report t id = find (has_id id) t.rows

unfoldable pub delete_deployment_report : Reports → ℕ → Reporting (Unit {0})
delete_deployment_report t id =
    if any (has_id id) t.rows
    then (record t { rows = filter (λ r. not (has_id id r)) t.rows }, ok tt)
    else (t, err no_rows)

unfoldable pub list_deployment_reports : Reports → ℕ → List Report
list_deployment_reports t generation_id =
    order_by (λ r s. text_before r.target s.target)
      (filter (λ r. r.generation_id == generation_id) t.rows)
