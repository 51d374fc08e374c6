-- ===== src/Store/Reports/Laws.antt =====
-- What is stored of the deployments of a generation.
use cert_keeper.Prelude.{
  ℕ, ◌+◌, ◌<◌, Text, Bool, true, false, not, ◌&&◌, ◌||◌, ◌==◌, nat_eq, text_eq, Option, none, some,
  List, [], ◌∷◌, ◌≡◌, refl, arith, sym, any, All, if_by, if_either, nat_beq_iff,
}
use mathlib.Core.Path.{subst}
use cert_keeper.Prelude.Int.{pos_part}
use cert_keeper.Store.Sql.{update}
use cert_keeper.Store.Sql.Laws.{
  AllPairs, AllPairs-snoc, AllPairs-filter, AllPairs-update, All-update, All-snoc, All-kept,
}
use cert_keeper.Store.Schema.{Generation, Db}
use cert_keeper.Store.Generations.{get_certificate_generation}
use cert_keeper.Store.Jobs.Values.{null_string}
use cert_keeper.Store.Reports

-- The row repeats what is stored of its generation.
pub record Reflects (db : Db) (r : Reports.Report) : Type 0 where
  pub generation : Generation
  pub found : get_certificate_generation db r.generation_id ≡ some generation
  pub same_ref : r.generation_ref ≡ null_string (Reports.stored_ref generation)
  pub same_revision : r.revision ≡ generation.revision
  pub same_digest : r.manifest_digest ≡ generation.manifest_digest

-- Two rows with one id, or of one target of a generation.
abbrev pub clash : Reports.Report → Reports.Report → Bool
clash r s = r.id == s.id || (r.generation_id == s.generation_id && r.target == s.target)

abbrev pub Apart : Reports.Report → Reports.Report → Type 0
Apart r s = clash r s ≡ false

pub record IsFaithful (db : Db) (t : Reports.Reports) : Type 0 where
  pub apart : AllPairs Apart t.rows
  pub drawn : All (λ r. r.id < t.next_id) t.rows
  pub reflecting : All (Reflects db) t.rows

new-Reflects :
    (db : Db) (id now : ℕ) (r : Reports.ReportRequest) (g : Generation)
    → get_certificate_generation db (pos_part r.generation_id) ≡ some g
    → Reflects db (Reports.new_report id now r g)
unfolding Reports.new_report
new-Reflects db id now r g e = record {
  generation = g;
  found = e;
  same_ref = refl;
  same_revision = refl;
  same_digest = refl;
}

overwritten-Reflects :
    (db : Db) (new old : Reports.Report)
    → Reflects db new
    → Reports.is_report_of new.generation_id new.target old ≡ true
    → Reflects db (Reports.overwritten new old)
unfolding Reports.overwritten
overwritten-Reflects db new old h same = record {
  generation = h.generation;
  found =
      subst (λ id. get_certificate_generation db id ≡ some h.generation)
        (sym (same_id old.generation_id new.generation_id _ same)) h.found;
  same_ref = h.same_ref;
  same_revision = h.same_revision;
  same_digest = h.same_digest;
}
  where
    same_id : (a b : ℕ) (c : Bool) → (a == b && c) ≡ true → a ≡ b
    same_id a b c h = ground (arith, nat_beq_iff a b)

new-Apart :
    (new : Reports.Report) (rows : List Reports.Report)
    → any (Reports.is_report_of new.generation_id new.target) rows ≡ false
    → All (λ r. r.id < new.id) rows
    → All (λ r. Apart r new) rows
new-Apart new [] n d = tt
new-Apart new (r ∷ rows) n (d, ds) = ground (arith, new-Apart new rows, nat_beq_iff r.id new.id)

drawn_more :
    (n : ℕ) (rows : List Reports.Report) → All (λ r. r.id < n) rows → All (λ r. r.id < n + 1) rows
drawn_more n [] d = tt
drawn_more n (r ∷ rows) (d, ds) = (ground arith, drawn_more n rows ds)

one_more : (a b : ℕ) → a ≡ b → a < b + 1
one_more a b e = ground arith

overwritten-IsFaithful :
    (db : Db) (t : Reports.Reports) (new : Reports.Report)
    → IsFaithful db t
    → Reflects db new
    → IsFaithful db (record t {
      rows =
          update
            (Reports.is_report_of new.generation_id new.target)
            (Reports.overwritten new)
            t.rows;
    })
unfolding Reports.overwritten
overwritten-IsFaithful db t new f h =
    let p = Reports.is_report_of new.generation_id new.target in
    record {
      apart =
          AllPairs-update Apart p (Reports.overwritten new) t.rows (λ x y r. r) (λ x y r. r)
            f.apart;
      drawn =
          All-update (λ r. r.id < t.next_id) p (Reports.overwritten new) t.rows (λ r d _. d)
            f.drawn;
      reflecting =
          All-update (Reflects db) p (Reports.overwritten new) t.rows
            (λ r _ same. overwritten-Reflects db new r h same) f.reflecting;
    }

upsert-IsFaithful :
    (db : Db) (t : Reports.Reports) (last : ℕ) (new : Reports.Report)
    → IsFaithful db t
    → Reflects db new
    → new.id ≡ t.next_id
    → IsFaithful db (Reports.upsert_report t last new).0
unfolding Reports.upsert_report
upsert-IsFaithful db t last new f h e =
    if_by (λ (out : Reports.Reporting Reports.Report). IsFaithful db out.0)
      (any (Reports.is_report_of new.generation_id new.target) t.rows)
      (λ _. overwritten-IsFaithful db t new f h)
      (λ n. record {
        apart =
            AllPairs-snoc Apart t.rows new f.apart
              (new-Apart new t.rows n (subst (λ n. All (λ r. r.id < n) t.rows) (sym e) f.drawn));
        drawn =
            All-snoc (λ r. r.id < t.next_id + 1) t.rows (drawn_more t.next_id t.rows f.drawn)
              (one_more new.id t.next_id e);
        reflecting = All-snoc (Reflects db) t.rows f.reflecting h;
      })

for_generation :
    (db : Db) (t : Reports.Reports) (now last : ℕ) (r : Reports.ReportRequest) (g : Generation)
    → IsFaithful db t
    → get_certificate_generation db (pos_part r.generation_id) ≡ some g
    → IsFaithful db (Reports.create_for_generation t now last r g).0
unfolding Reports.create_for_generation Reports.new_report
for_generation db t now last r g f e =
    if_either (λ (out : Reports.Reporting Reports.Report). IsFaithful db out.0)
      (Reports.agrees_with r g)
      (upsert-IsFaithful db t last (Reports.new_report t.next_id now r g) f
        (new-Reflects db t.next_id now r g e) refl)
      f

for_found :
    (db : Db) (t : Reports.Reports) (now last : ℕ) (r : Reports.ReportRequest)
    (o : Option Generation)
    → IsFaithful db t
    → get_certificate_generation db (pos_part r.generation_id) ≡ o
    → IsFaithful db (Reports.create_for_found t now last r o).0
for_found db t now last r none f e = f
for_found db t now last r (some g) f e = for_generation db t now last r g f e

pub create-IsFaithful :
    (db : Db) (t : Reports.Reports) (now last : ℕ) (request : Option Reports.ReportRequest)
    → IsFaithful db t
    → IsFaithful db (Reports.create_deployment_report db t now last request).0
unfolding Reports.create_deployment_report
create-IsFaithful db t now last none f = f
create-IsFaithful db t now last (some r) f =
    if_either (λ (out : Reports.Reporting Reports.Report). IsFaithful db out.0)
      (Reports.is_reportable r)
      (for_found db t now last r (get_certificate_generation db (pos_part r.generation_id)) f refl)
      f

update-IsFaithful :
    (db : Db) (t : Reports.Reports) (now id : ℕ) (status : Reports.DeploymentStatus) (detail : Text)
    → IsFaithful db t
    → IsFaithful db (Reports.update_report_status t now id status detail).0
unfolding Reports.update_report_status Reports.with_report_status
update-IsFaithful db t now id status detail f =
    let change = Reports.with_report_status now status detail in
    if_either Kept (not (Reports.valid_deployment_status status)) f (
      if_either Kept (any (Reports.has_id id) t.rows)
        (record {
          apart =
              AllPairs-update Apart (Reports.has_id id) change t.rows (λ x y r. r) (λ x y r. r)
                f.apart;
          drawn =
              All-update (λ r. r.id < t.next_id) (Reports.has_id id) change t.rows (λ r d _. d)
                f.drawn;
          reflecting =
              All-update (Reflects db) (Reports.has_id id) change t.rows
                (λ r h _. record {
                  generation = h.generation;
                  found = h.found;
                  same_ref = h.same_ref;
                  same_revision = h.same_revision;
                  same_digest = h.same_digest;
                })
                f.reflecting;
        })
        f)
  where
    Kept : Reports.Reporting (Unit {0}) → Type 0
    Kept out = IsFaithful db out.0

delete-IsFaithful :
    (db : Db) (t : Reports.Reports) (id : ℕ)
    → IsFaithful db t
    → IsFaithful db (Reports.delete_deployment_report t id).0
unfolding Reports.delete_deployment_report
delete-IsFaithful db t id f =
    let p : Reports.Report → Bool = λ r. not (Reports.has_id id r) in
    if_either (λ (out : Reports.Reporting (Unit {0})). IsFaithful db out.0)
      (any (Reports.has_id id) t.rows)
      (record {
        apart = AllPairs-filter Apart p t.rows f.apart;
        drawn = All-kept (λ r. r.id < t.next_id) p t.rows f.drawn;
        reflecting = All-kept (Reflects db) p t.rows f.reflecting;
      })
      f

pub data Change : Type 0 where
  creates : ℕ → Option Reports.ReportRequest → Change
  sets_status : ℕ → Reports.DeploymentStatus → Text → Change
  deletes : ℕ → Change

unfoldable pub change : Db → Reports.Reports → ℕ × Change → Reports.Reports
change db t (now, creates last r) = (Reports.create_deployment_report db t now last r).0
change db t (now, sets_status id status detail) =
    (Reports.update_report_status t now id status detail).0
change db t (now, deletes id) = (Reports.delete_deployment_report t id).0

unfoldable pub change_all : Db → Reports.Reports → List (ℕ × Change) → Reports.Reports
change_all db t [] = t
change_all db t (c ∷ cs) = change_all db (change db t c) cs

change-IsFaithful :
    (db : Db) (t : Reports.Reports) (c : ℕ × Change)
    → IsFaithful db t
    → IsFaithful db (change db t c)
unfolding change
change-IsFaithful db t (now, creates last r) f = create-IsFaithful db t now last r f
change-IsFaithful db t (now, sets_status id status detail) f =
    update-IsFaithful db t now id status detail f
change-IsFaithful db t (now, deletes id) f = delete-IsFaithful db t id f

-- If each row of deployment_reports repeats the reference, the revision and the digest of its
-- generation, no two have one id, nor one generation and target, and the ids have been drawn, then
-- so it is after any calls of CreateDeploymentReport, UpdateDeploymentReportStatus and
-- DeleteDeploymentReport while the generations stay as they are.
pub change_all-IsFaithful :
    (db : Db) (t : Reports.Reports) (cs : List (ℕ × Change))
    → IsFaithful db t
    → IsFaithful db (change_all db t cs)
unfolding change_all
change_all-IsFaithful db t [] f = f
change_all-IsFaithful db t (c ∷ cs) f =
    change_all-IsFaithful db (change db t c) cs (change-IsFaithful db t c f)
