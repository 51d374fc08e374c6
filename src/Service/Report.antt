-- ===== src/Service/Report.antt =====
-- internal/service/v2.go: `ReportDeploymentV2`.
pub mod Laws
use cert_keeper.Prelude.{
  ℕ, Text, Bool, true, false, not, ◌&&◌, ◌||◌, ◌==◌, nat_eq, text_eq, Option, none, some, Result,
  ok, err, ltb, length, is_blank, is_empty, codes, List, [], ◌∷◌, ◌++◌, if◌then◌else◌, take, filter,
  ◌>>=◌, ◌>>◌, require, refuse,
}
use cert_keeper.Prelude.Int.{ℤ, pos, leb_ℤ}
use cert_keeper.Protocol.Identifiers.{is_control}
use cert_keeper.Protocol.Deployment.{DeploymentReport, DeploymentState}
use cert_keeper.Store.Sql.{find, order_by}
use cert_keeper.Store.Schema.{Db, Generation}
use cert_keeper.Store.Reports
use cert_keeper.Store.Audit.{AuditEvent, add_audit_event}
use cert_keeper.Service.{
  State, ServiceError, validation, Serving, from_store, v2_validate_domain, v2_has_control,
  nullable, require_v2_permission,
}

abbrev pub v2_map_deployment_state : DeploymentState → Result ServiceError Reports.DeploymentStatus
v2_map_deployment_state DeploymentState.pending = ok Reports.pending
v2_map_deployment_state DeploymentState.deploying = ok Reports.running
v2_map_deployment_state DeploymentState.succeeded = ok Reports.succeeded
v2_map_deployment_state DeploymentState.skipped = ok Reports.succeeded
v2_map_deployment_state DeploymentState.failed = ok Reports.failed
v2_map_deployment_state (DeploymentState.other _) = err validation

-- `ListCertificateGenerations`: `ORDER BY generation DESC`.
unfoldable pub list_certificate_generations : Db → Text → List Generation
list_certificate_generations db domain =
    order_by (λ g h. not (leb_ℤ g.generation h.generation))
      (filter (λ g. g.domain == domain) db.generations)

abbrev pub is_reference : Text → Option Text → Bool
is_reference generation none = false
is_reference generation (some reference) = reference == generation

-- The rows are compared with what the client reports.
abbrev pub is_reported : DeploymentReport → Generation → Bool
is_reported r g = is_reference r.generation g.certificate_ref && g.revision == r.revision

unfoldable pub v2_sanitize_detail : Text → ℕ → Text
v2_sanitize_detail value limit = take limit (filter (λ c. not (is_control c)) value)

-- `%t` and the text of a state.
abbrev pub bool_text : Bool → Text
bool_text true = codes "true"
bool_text false = codes "false"

abbrev pub state_text : DeploymentState → Text
state_text DeploymentState.pending = codes "pending"
state_text DeploymentState.deploying = codes "deploying"
state_text DeploymentState.succeeded = codes "succeeded"
state_text DeploymentState.failed = codes "failed"
state_text DeploymentState.skipped = codes "skipped"
state_text (DeploymentState.other s) = s

unfoldable pub detail_of : DeploymentReport → Text
detail_of r =
    codes "state="
    ++ state_text r.state
    ++ codes " verified="
    ++ bool_text r.verified
    ++ codes " reloaded="
    ++ bool_text r.reloaded
    ++ (if is_empty r.message then [] else codes " " ++ v2_sanitize_detail r.message 256)

unfoldable pub report_request :
    DeploymentReport → Reports.DeploymentStatus → Generation → Reports.ReportRequest
report_request r status g = record {
  generation_id = pos g.id;
  generation = r.generation;
  revision = pos r.revision;
  manifest_digest = none;
  target = r.target;
  status = status;
  detail = nullable (detail_of r);
  created_at = 0;
  completed_at = none;
}

-- `status` of the audit event's detail.
abbrev pub status_text : Reports.DeploymentStatus → Text
status_text Reports.unset = []
status_text Reports.pending = codes "pending"
status_text Reports.running = codes "running"
status_text Reports.succeeded = codes "succeeded"
status_text Reports.failed = codes "failed"
status_text (Reports.other s) = s

-- `auditV2`; an error of the store is dropped.
unfoldable pub audit_v2 : ℕ → Text → Text → Text → Text → Text → State → State
audit_v2 now token_id domain action outcome detail s = record s {
  events =
      (add_audit_event s.db s.events now (
        some (record {
          id = 0;
          actor_token_id = nullable token_id;
          domain = nullable domain;
          action = action;
          outcome = outcome;
          detail = nullable detail;
          created_at = 0;
        }))).0;
}

abbrev pub with_report :
    State → ℕ → Text → Text → Text → Reports.Reporting Reports.Report → Serving (Unit {0})
with_report s now token_id domain detail (reports, ok r) = (
  audit_v2 now token_id domain (codes "deployment_report_v2") (codes "succeeded") detail
      (record s { reports = reports }),
  ok tt,
)
with_report s now token_id domain detail (reports, err e) =
    (record s { reports = reports }, err (ServiceError.store e))

abbrev pub check_target : DeploymentReport → Result ServiceError (Unit {0})
check_target r =
    refuse (is_blank r.target || ltb 128 (length r.target) || v2_has_control r.target) validation

-- The tests before the rows are read; the status that the store is given.
unfoldable pub check_report :
    State → Text → Text → DeploymentReport → Result ServiceError Reports.DeploymentStatus
check_report s token_id domain r = do
  require (v2_validate_domain domain) validation
  check_target r
  status ← v2_map_deployment_state r.state
  require_v2_permission s.grants token_id domain (codes "apply")
  refuse (is_empty r.generation || r.revision == 0) validation
  ok status

abbrev pub store_report :
    State
    → ℕ
    → ℕ
    → Text
    → Text
    → DeploymentReport
    → Reports.DeploymentStatus
    → Option Generation
    → Serving (Unit {0})
store_report s now last token_id domain r status none = (s, err validation)
store_report s now last token_id domain r status (some g) =
    with_report s now token_id domain
      (codes "target=" ++ r.target ++ codes " status=" ++ status_text status)
      (Reports.create_deployment_report s.db s.reports now last (some (report_request r status g)))

abbrev pub after_check :
    State
    → ℕ
    → ℕ
    → Text
    → Text
    → DeploymentReport
    → Result ServiceError Reports.DeploymentStatus
    → Serving (Unit {0})
after_check s now last token_id domain r (err e) = (s, err e)
after_check s now last token_id domain r (ok status) =
    store_report s now last token_id domain r status
      (find (is_reported r) (list_certificate_generations s.db domain))

unfoldable pub report_deployment_v2 :
    State → ℕ → ℕ → Text → Text → DeploymentReport → Serving (Unit {0})
report_deployment_v2 s now last token_id domain r =
    after_check s now last token_id domain r (check_report s token_id domain r)
