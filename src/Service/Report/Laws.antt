-- ===== src/Service/Report/Laws.antt =====
-- What a report needs, and what it stores.
use cert_keeper.Prelude.{
  ℕ, Text, true, nat_eq, text_eq, Option, none, some, Result, ok, err, ◌≡◌, ◌≢◌, refl, codes,
  >>=-eq-ok, >>-eq-ok, require,
}
use cert_keeper.Protocol.Deployment.{DeploymentReport}
use cert_keeper.Store.Sql.{find}
use cert_keeper.Store.Schema.{Generation}
use cert_keeper.Store.Grants.{has_certificate_permission}
use cert_keeper.Store.Reports
use cert_keeper.Store.Reports.Laws.{IsFaithful, create-IsFaithful}
use cert_keeper.Service
use cert_keeper.Service.Reconcile.Laws.{require_v2-ok}
use cert_keeper.Service.Report

with_report-IsFaithful :
    (s : Service.State) (now : ℕ) (t d detail : Text) (out : Reports.Reporting Reports.Report)
    → IsFaithful s.db out.0
    → IsFaithful s.db (Report.with_report s now t d detail out).0.reports
unfolding Report.audit_v2
with_report-IsFaithful s now t d detail (reports, ok r) f = f
with_report-IsFaithful s now t d detail (reports, err e) f = f

stored-IsFaithful :
    (s : Service.State) (now last : ℕ) (t d : Text) (r : DeploymentReport)
    (status : Reports.DeploymentStatus) (o : Option Generation)
    → IsFaithful s.db s.reports
    → IsFaithful s.db (Report.store_report s now last t d r status o).0.reports
stored-IsFaithful s now last t d r status none f = f
stored-IsFaithful s now last t d r status (some g) f =
    with_report-IsFaithful s now t d _
      (Reports.create_deployment_report s.db s.reports now last
        (some (Report.report_request r status g)))
      (create-IsFaithful s.db s.reports now last (some (Report.report_request r status g)) f)

checked-IsFaithful :
    (s : Service.State) (now last : ℕ) (t d : Text) (r : DeploymentReport)
    (c : Result Service.ServiceError Reports.DeploymentStatus)
    → IsFaithful s.db s.reports
    → IsFaithful s.db (Report.after_check s now last t d r c).0.reports
checked-IsFaithful s now last t d r (err e) f = f
checked-IsFaithful s now last t d r (ok status) f =
    stored-IsFaithful s now last t d r status
      (find (Report.is_reported r) (Report.list_certificate_generations s.db d)) f

-- Whatever is reported, the rows repeat what is stored of their generations.
pub report-IsFaithful :
    (s : Service.State) (now last : ℕ) (t d : Text) (r : DeploymentReport)
    → IsFaithful s.db s.reports
    → IsFaithful s.db (Report.report_deployment_v2 s now last t d r).0.reports
unfolding Report.report_deployment_v2
report-IsFaithful s now last t d r f =
    checked-IsFaithful s now last t d r (Report.check_report s t d r) f

check-permitted :
    (s : Service.State) (t d : Text) (r : DeploymentReport) {status : Reports.DeploymentStatus}
    → Report.check_report s t d r ≡ ok status
    → has_certificate_permission s.grants t d (codes "apply") ≡ ok true
unfolding Report.check_report
check-permitted s t d r h =
    let (e1, h1) = >>-eq-ok (require (Service.v2_validate_domain d) _) _ h in
    let (e2, h2) = >>-eq-ok (Report.check_target r) _ h1 in
    let (status, e3, h3) = >>=-eq-ok (Report.v2_map_deployment_state r.state) _ h2 in
    let (e4, h4) = >>-eq-ok (Service.require_v2_permission s.grants t d (codes "apply")) _ h3 in
    require_v2-ok s.grants t d (codes "apply") e4

denied :
    (s : Service.State) (now last : ℕ) (t d : Text) (r : DeploymentReport)
    (c : Result Service.ServiceError Reports.DeploymentStatus)
    → ((status : Reports.DeploymentStatus) → c ≢ ok status)
    → (Report.after_check s now last t d r c).0 ≡ s
denied s now last t d r (err e) n = refl
denied s now last t d r (ok status) n = absurd (n status refl)

-- If the token has not the permission to apply on the domain, ReportDeploymentV2 changes no table.
pub report-denied :
    (s : Service.State) (now last : ℕ) (t d : Text) (r : DeploymentReport)
    → has_certificate_permission s.grants t d (codes "apply") ≢ ok true
    → (Report.report_deployment_v2 s now last t d r).0 ≡ s
unfolding Report.report_deployment_v2
report-denied s now last t d r n =
    denied s now last t d r (Report.check_report s t d r)
      (λ status h. n (check-permitted s t d r h))
