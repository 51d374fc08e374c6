-- ===== src/Protocol/Deployment/Laws.antt =====
-- What an accepted deployment report says.
use cert_keeper.Prelude.{
  ℕ, Text, Bool, true, false, Option, none, some, ok, ◌≡◌, ◌≢◌, ◌↔◌, ◌⊎◌, inl, inr, refl, arith,
  text_beq_iff, length, ◌≤◌, ◌&&◌, >>-eq-ok, require-eq-ok, is_blank,
}
use cert_keeper.Protocol.Errors.{ErrorResponse, conflict, unset}
use mathlib.Core.Path.{subst}
use cert_keeper.Protocol.Jobs.{validate_time_order}
use cert_keeper.Protocol.Jobs.Laws.{IsOrdered, validate_time_order_iff, is_unset_iff}
use cert_keeper.Protocol.Domain.{validate_domain}
use cert_keeper.Protocol.Domain.Laws.{IsDomainName, validate_domain_iff}
use cert_keeper.Protocol.Identifiers.{
  max_generation_id_length, validate_revision, validate_generation_id, has_control,
}
use cert_keeper.Protocol.Identifiers.Laws.{IsIdentifier, validate_generation_id_iff}
use cert_keeper.Protocol.Deployment.{
  DeploymentState, pending, deploying, succeeded, failed, skipped, other, DeploymentReport,
  validate_text, validate_deployment_state, validate_outcome, validate_report, validate_for_domain,
}

-- The three kinds of outcome that a report can have.
pub data Outcome (r : DeploymentReport) : Type 0 where
  done : (r.state ≡ succeeded) ⊎ (r.state ≡ skipped) → r.success ≡ true → r.error ≡ none → Outcome r
  broken :
      (e : ErrorResponse)
      → r.state ≡ failed
      → r.success ≡ false
      → r.error ≡ some e
      → e.code ≢ unset
      → Outcome r
  open_end :
      (r.state ≡ pending) ⊎ (r.state ≡ deploying) → r.success ≡ false → r.error ≡ none → Outcome r

outcome :
    (r : DeploymentReport) (s : DeploymentState) (x : Option ErrorResponse)
    → r.state ≡ s
    → r.error ≡ x
    → validate_deployment_state s ≡ ok tt
    → validate_outcome s r.success x ≡ ok tt
    → Outcome r
unfolding validate_deployment_state validate_outcome
outcome r succeeded x e p k h = done (inl e) (ground arith) (ground arith)
outcome r skipped x e p k h = done (inr e) (ground arith) (ground arith)
outcome r pending x e p k h = open_end (inl e) (ground arith) (ground arith)
outcome r deploying x e p k h = open_end (inr e) (ground arith) (ground arith)
outcome r (other t) x e p k h = absurd (ground arith)
outcome r failed none e p k h = absurd (ground arith)
outcome r failed (some x) e p k h =
    broken x e (ground arith) p (λ u. ground (arith, is_unset_iff x.code))

Outcome-validate :
    (r : DeploymentReport)
    → Outcome r
    → (validate_deployment_state r.state ≡ ok tt)
      × (validate_outcome r.state r.success r.error ≡ ok tt)
unfolding validate_deployment_state validate_outcome
Outcome-validate r (done s p e) = ground arith
Outcome-validate r (broken x s p e c) = ground (arith, is_unset_iff x.code)
Outcome-validate r (open_end s p e) = ground arith

-- A text within its limit and without control characters.
pub record IsText (limit : ℕ) (value : Text) : Type 0 where
  pub fits : length value ≤ limit
  pub printable : has_control value ≡ false

-- What an accepted report promises.
pub record IsReport (r : DeploymentReport) : Type 0 where
  pub domain : IsDomainName r.domain
  pub generation : IsIdentifier max_generation_id_length r.generation
  pub revision : 1 ≤ r.revision
  pub target : IsText 128 r.target
  pub target_given : is_blank r.target ≡ false
  pub message : IsText 1024 r.message
  pub ordered : IsOrdered 0 r.started_at r.finished_at
  pub outcome : Outcome r

-- The checks of `validate_report`, one by one.
record Passes (r : DeploymentReport) : Type 0 where
  domain : validate_domain r.domain ≡ ok tt
  generation : validate_generation_id r.generation ≡ ok tt
  revision : validate_revision r.revision ≡ ok tt
  target : validate_text r.target 128 true ≡ ok tt
  message : validate_text r.message 1024 false ≡ ok tt
  state : validate_deployment_state r.state ≡ ok tt
  order : validate_time_order r.started_at r.finished_at ≡ ok tt
  result : validate_outcome r.state r.success r.error ≡ ok tt

validate_report-Passes : (r : DeploymentReport) → validate_report r ≡ ok tt → Passes r
unfolding validate_report
validate_report-Passes r h =
    let (h1, r1) = >>-eq-ok _ _ h in
    let (h2, r2) = >>-eq-ok _ _ r1 in
    let (h3, r3) = >>-eq-ok _ _ r2 in
    let (h4, r4) = >>-eq-ok _ _ r3 in
    let (h5, r5) = >>-eq-ok _ _ r4 in
    let (h6, r6) = >>-eq-ok _ _ r5 in
    let (h7, h8) = >>-eq-ok _ _ r6 in
    record {
      domain = h1;
      generation = h2;
      revision = h3;
      target = h4;
      message = h5;
      state = h6;
      order = h7;
      result = h8;
    }

Passes-validate_report : (r : DeploymentReport) → Passes r → validate_report r ≡ ok tt
unfolding validate_report
Passes-validate_report r p =
    rw (p.domain, p.generation, p.revision, p.target, p.message, p.state, p.order, p.result)

validate_text_iff :
    (value : Text) (limit : ℕ) (required : Bool)
    → (validate_text value limit required ≡ ok tt)
      ↔ (((required && is_blank value) ≡ false) × IsText limit value)
unfolding validate_text
validate_text_iff value limit required = ground arith

-- A report is accepted exactly if it names a domain, a generation and a revision that are valid,
-- its texts are in bounds, its instants are in order, and it ended in one of three ways: done
-- without an error, failed with a coded error, or still open.
pub validate_report_iff : (r : DeploymentReport) → (validate_report r ≡ ok tt) ↔ IsReport r
unfolding validate_revision
validate_report_iff r = (
  λ h.
      let p = validate_report-Passes r h in
      let (given, target) = (validate_text_iff r.target 128 true).0 p.target in
      record {
        domain = (validate_domain_iff r.domain).0 p.domain;
        generation = (validate_generation_id_iff r.generation).0 p.generation;
        revision = ground (arith, p.revision);
        target = target;
        target_given = given;
        message = ((validate_text_iff r.message 1024 false).0 p.message).1;
        ordered = (validate_time_order_iff r.started_at r.finished_at).0 p.order;
        outcome = outcome r r.state r.error refl refl p.state p.result;
      },
  λ c.
      let (state, result) = Outcome-validate r c.outcome in
      Passes-validate_report r (record {
        domain = (validate_domain_iff r.domain).1 c.domain;
        generation = (validate_generation_id_iff r.generation).1 c.generation;
        revision = ground (arith, c.revision);
        target = (validate_text_iff r.target 128 true).1 (c.target_given, c.target);
        message = (validate_text_iff r.message 1024 false).1 (refl, c.message);
        state = state;
        order = (validate_time_order_iff r.started_at r.finished_at).1 c.ordered;
        result = result;
      }),
)

-- A report is accepted for the domain of the request exactly if it is valid and names that domain.
pub validate_for_domain_iff :
    (r : DeploymentReport) (domain : Text)
    → (validate_for_domain r domain ≡ ok tt) ↔ (IsReport r × (r.domain ≡ domain))
unfolding validate_for_domain
validate_for_domain_iff r domain = (
  λ h.
      let (d, rest) = >>-eq-ok _ _ h in
      let (v, same) = >>-eq-ok _ _ rest in
      (
        (validate_report_iff r).0 v,
        (text_beq_iff r.domain domain).0 (require-eq-ok _ conflict same),
      ),
  λ (c, e). rw (
    (validate_domain_iff domain).1 (subst IsDomainName e c.domain),
    (validate_report_iff r).1 c,
    (text_beq_iff r.domain domain).1 e,
  ),
)
