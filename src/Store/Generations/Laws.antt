-- ===== src/Store/Generations/Laws.antt =====
-- At most one generation of a domain is current, and it is issued.
use cert_keeper.Prelude.{
  ℕ, ◌+◌, ◌<◌, Text, Bool, true, false, not, ◌&&◌, ◌||◌, ◌==◌, nat_eq, text_eq, Option, none, some,
  List, [], ◌∷◌, any, ◌≡◌, inl, inr, refl, arith, Bool-cases, Option-cases, if_either, All,
  is_empty,
}
use cert_keeper.Prelude.Int.{ℤ, pos, leb_ℤ, beq_ℤ, pos_part}
use cert_keeper.Store.Sql.{find}
use cert_keeper.Store.Sql.Laws.{
  AllPairs, AllPairs-snoc, AllPairs-filter, All-update, All-snoc, All-kept, All-zip, All-update_to,
}
use cert_keeper.Store.Schema.{
  GenerationStatus, Job, Generation, GenerationRequest, GenerationArtifact, Db, Outcome,
}
use cert_keeper.Store.Jobs.Values.{member_text}
use cert_keeper.Store.Generations.{
  is_issued, is_current_of, conflicts, insert_generation, new_generation, create_for_job,
  create_certificate_generation, is_revision_taken, is_creatable, create_numbered, numbered,
  revised, with_outcome, update_generation_status, with_artifact, update_generation_artifact,
  delete_generation, valid_generation_status, valid_sha256_digest, default_generation_status,
}
use cert_keeper.Store.Generations.Apart.{
  switched-Apart, switched-IsSound, switched-status, found_alone, Apart, IsSound, IsConsistent,
  issued_of, issued_when, demoted-Apart, demoted-IsSound,
}

module _ (db : Db) (now id : ℕ) (w : IsConsistent db) where
  pub update_status-IsConsistent :
      (status : GenerationStatus) (certificate_ref private_key_ref message : Text)
      (not_before not_after : Option ℕ)
      → IsConsistent
          (update_generation_status db now id status certificate_ref private_key_ref message
            not_before not_after).0
  unfolding update_generation_status with_outcome
  update_status-IsConsistent status certificate_ref private_key_ref message not_before not_after =
      if_either (λ (o : Outcome (Unit {0})). IsConsistent o.0)
        (not (valid_generation_status status)) w
        (elim (Option-cases (find (λ g. g.id == id) db.generations)) [
          | inl n ↦ rw n w
          | inr (g, e) ↦ rw e (record {
            apart =
                switched-Apart id now g db.generations _
                  (is_issued status && not (is_empty certificate_ref)) (λ h. refl) (λ h. refl)
                  (λ h. refl) w.apart e;
            sound =
                All-update (IsSound db.next_generation_id) (λ h. h.id == id) _ _
                  (λ h (drawn, _) _. (drawn, λ c. issued_of (is_issued status) _ c))
                  (switched-IsSound _ now db.generations _
                    (is_issued status && not (is_empty certificate_ref)) w.sound);
          })
        ])

  pub update_artifact-IsConsistent :
      (a : GenerationArtifact) → IsConsistent (update_generation_artifact db now id a).0
  unfolding update_generation_artifact with_artifact
  update_artifact-IsConsistent a =
      if_either (λ (o : Outcome (Unit {0})). IsConsistent o.0)
        (not (
          leb_ℤ (pos 1) a.revision
          && valid_sha256_digest a.manifest_digest
          && valid_sha256_digest a.fingerprint))
        w
        (elim (Option-cases (find (λ g. g.id == id) db.generations)) [
          | inl n ↦ rw n w
          | inr (g, e) ↦ elim (Bool-cases (a.current && not (is_issued g.status))) [
            | inl refused ↦ rw (e, refused) w
            | inr allowed ↦
                rw (e, allowed)
                  (if_either (λ (o : Outcome (Unit {0})). IsConsistent o.0)
                    (is_revision_taken db id g.domain (pos_part a.revision)) w
                    (record {
                      apart =
                          switched-Apart id now g db.generations (with_artifact now a) a.current
                            (λ h. refl) (λ h. refl) (λ h. refl) w.apart e;
                      sound =
                          All-update_to
                            {P = λ h.
                              IsSound db.next_generation_id h
                              × ((h.id == id) ≡ true → h.status ≡ g.status)}
                            (λ h. h.id == id) _ _ (λ h (s, _). s)
                            (λ h ((drawn, _), same) here. (
                              drawn,
                              λ c.
                                  rw (same here)
                                    (issued_when a.current (is_issued g.status) allowed c),
                            ))
                            (All-zip _ (λ h s t. (s, t))
                              (switched-IsSound _ now db.generations _ a.current w.sound)
                              (switched-status id now g db.generations _ a.current
                                (found_alone id db.generations w.apart e)));
                    }))
          ]
        ])

  pub delete-IsConsistent : IsConsistent (delete_generation db id).0
  unfolding delete_generation
  delete-IsConsistent =
      if_either (λ (o : Outcome (Unit {0})). IsConsistent o.0)
        (any (λ g. g.id == id) db.generations)
        (if_either (λ (o : Outcome (Unit {0})). IsConsistent o.0) (any (λ i. i == id) db.reported) w
          (record {
            apart = AllPairs-filter Apart (λ g. not (g.id == id)) db.generations w.apart;
            sound =
                All-kept (IsSound db.next_generation_id) (λ g. not (g.id == id)) db.generations
                  w.sound;
          }))
        w

or-false_both : (a b : Bool) → (a || b) ≡ false → (a ≡ false) × (b ≡ false)
or-false_both a b h = ground arith

last_test : (a b c d : Bool) → (a || b || c || d) ≡ false → d ≡ false
last_test a b c d h = ground arith

less_apart : (a b : ℕ) → a < b → (a == b) ≡ false
less_apart a b h = ground arith

module _ (db : Db) (now : ℕ) (w : IsConsistent db) where
  insert-IsConsistent :
      (rows : List Generation) (g : Generation)
      → AllPairs Apart rows
      → All (IsSound db.next_generation_id) rows
      → g.id ≡ db.next_generation_id
      → (g.current ≡ true → is_issued g.status ≡ true)
      → IsConsistent (insert_generation db rows g).0
  unfolding insert_generation conflicts
  insert-IsConsistent rows g a s drawn issued_current = elim (Bool-cases (any (conflicts g) rows)) [
    | inl c ↦ rw c w
    | inr free ↦ rw free (
        if_either (λ (o : Outcome Generation). IsConsistent o.0) (member_text g.domain db.certs)
          (record {
            apart = AllPairs-snoc Apart rows g a (apart_of_free rows s free);
            sound =
                All-snoc (IsSound (db.next_generation_id + 1)) rows
                  (All-zip rows (λ h (l, c) _. (ground arith, c)) s s)
                  (ground arith, issued_current);
          })
          w)
  ]
    where
      apart_of_free :
          (hs : List Generation)
          → All (IsSound db.next_generation_id) hs
          → any (conflicts g) hs ≡ false
          → All (λ h. Apart h g) hs
      apart_of_free [] t n = tt
      apart_of_free (h ∷ hs) ((l, _), ts) n =
          let (mine, rest) = or-false_both (conflicts g h) _ n in
          (
            rw
                (
                  less_apart h.id g.id (rw drawn l),
                  last_test (h.job_id == g.job_id && beq_ℤ h.generation g.generation)
                      (h.domain == g.domain && beq_ℤ h.generation g.generation)
                      (h.domain == g.domain && h.revision == g.revision)
                      (h.domain == g.domain && h.current && g.current) mine,
                )
                refl,
            apart_of_free hs ts rest,
          )

  create_for_job-IsConsistent :
      (r : GenerationRequest) (generation : ℤ) (revision : ℕ) (job : Job)
      → IsConsistent (create_for_job db now r (new_generation db now r generation revision) job).0
  unfolding create_for_job new_generation
  create_for_job-IsConsistent r generation revision job =
      if_either (λ (o : Outcome Generation). IsConsistent o.0) (not (job.domain == r.domain)) w
        (elim (Bool-cases (r.current && not (is_issued (default_generation_status r.status)))) [
          | inl refused ↦ rw refused w
          | inr allowed ↦ rw allowed (
              if_either (λ (o : Outcome Generation). IsConsistent o.0) r.current
                (insert-IsConsistent _ _
                  (demoted-Apart (is_current_of r.domain) now db.generations w.apart)
                  (demoted-IsSound _ (is_current_of r.domain) now db.generations w.sound) refl
                  (issued_when _ _ allowed))
                (insert-IsConsistent _ _ w.apart w.sound refl (issued_when _ _ allowed)))
        ])

  create_numbered-IsConsistent :
      (r : GenerationRequest) (generation : ℤ) (revision : ℕ)
      → IsConsistent (create_numbered db now r generation revision).0
  unfolding create_numbered
  create_numbered-IsConsistent r generation revision =
      elim (Option-cases (find (λ j. j.id == r.job_id) db.jobs)) [
        | inl n ↦ rw (n, create_numbered) w
        | inr (job, e) ↦
            rw (e, create_numbered) (create_for_job-IsConsistent r generation revision job)
      ]

  pub create-IsConsistent :
      (r : Option GenerationRequest) → IsConsistent (create_certificate_generation db now r).0
  unfolding create_certificate_generation
  create-IsConsistent none = w
  create-IsConsistent (some r) =
      if_either (λ (o : Outcome Generation). IsConsistent o.0) (is_creatable db r)
        (create_numbered-IsConsistent r (numbered db r) (pos_part (revised db r))) w
