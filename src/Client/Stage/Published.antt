-- ===== src/Client/Stage/Published.antt =====
-- The release that is published holds what was staged, and nothing else changes.
use cert_keeper.Prelude.{
  Text, nat_eq, text_eq, none, some, Result, ok, err, List, [], ◌∷◌, ◌≡◌, refl, ◌⊎◌, inl, arith, ap,
  sym, ◌∙◌,
}
use mathlib.Core.Path.{subst}
use cert_keeper.Prelude.Steps.{next, bind-by, ◌>>◌}
use cert_keeper.Client.Tree.{Tree, link, World, sync_out, Failure, switching, Release, directory}
use cert_keeper.Client.Certificate.{Crypto}
use cert_keeper.Client.Read.{release_target, lookup}
use cert_keeper.Client.Current.{write_deployment_current}
use cert_keeper.Client.Current.Laws.{Keeps, write-fails, write-releases, write-succeeds}
use cert_keeper.Client.Stage
use cert_keeper.Client.Stage.Laws.{IsFilled, fill_staging-Keeps, fill_staging-IsFilled}

-- The releases are as before, or one of the generation is new among them.
abbrev pub Grown : Text → Release → List (Text × Release) → List (Text × Release) → Type 0
Grown g r old new = (new ≡ old) ⊎ ((lookup g old ≡ none) × (new ≡ (g, r) ∷ old))

module _ {Certificate Key : Type 0} (crypto : Crypto Certificate Key) (w : World) where
  publish_release-current :
      (g : Text) (t : Tree) → (Stage.publish_release crypto w g t).0.current ≡ t.current
  unfolding Stage.publish_release Stage.published
  publish_release-current g t = ground arith

  publish_release-Grown :
      (g : Text) (t : Tree)
      → Grown g (Stage.release_of t) t.releases (Stage.publish_release crypto w g t).0.releases
  unfolding Stage.publish_release Stage.published
  publish_release-Grown g t = ground arith

  publish_release-ok :
      (g : Text) (t : Tree)
      → (Stage.publish_release crypto w g t).1 ≡ ok tt
      → (Stage.publish_release crypto w g t).0.releases ≡ (g, Stage.release_of t) ∷ t.releases
  unfolding Stage.publish_release Stage.published
  publish_release-ok g t h = ground arith

  publish_release-fresh :
      (g : Text) (t : Tree)
      → (Stage.publish_release crypto w g t).1 ≡ ok tt
      → lookup g t.releases ≡ none
  unfolding Stage.publish_release Stage.published
  publish_release-fresh g t h = ground arith

  -- The release of the generation, with the files that the manifest gives, is new.
  pub record IsPublished (opts : Stage.GenerationDeployOpts) (s t : Tree) : Type 0 where
    pub source : Tree
    pub filled : IsFilled crypto w opts source
    pub release : t.releases ≡ (opts.generation, Stage.release_of source) ∷ s.releases
    pub fresh : lookup opts.generation s.releases ≡ none

  pub record Filled (opts : Stage.GenerationDeployOpts) (s : Tree)
      (out : Tree × Result Failure (Unit {0})) : Type 0 where
    pub current : out.0.current ≡ s.current
    pub release : Release
    pub grown : Grown opts.generation release s.releases out.0.releases
    pub published : out.1 ≡ ok tt → IsPublished opts s out.0

  publish_release-Filled :
      (opts : Stage.GenerationDeployOpts) (s t : Tree)
      → Keeps s t
      → IsFilled crypto w opts t
      → Filled opts s (Stage.publish_release crypto w opts.generation t)
  publish_release-Filled opts s t k filled = record {
    current = publish_release-current opts.generation t ∙ k.current;
    release = Stage.release_of t;
    grown =
        subst
          (λ old.
            Grown opts.generation (Stage.release_of t) old
              (Stage.publish_release crypto w opts.generation t).0.releases)
          k.releases (publish_release-Grown opts.generation t);
    published = λ h. record {
      source = t;
      filled = filled;
      release =
          publish_release-ok opts.generation t h
          ∙ ap (λ old. (opts.generation, Stage.release_of t) ∷ old) k.releases;
      fresh =
          subst (λ old. lookup opts.generation old ≡ none) k.releases
            (publish_release-fresh opts.generation t h);
    };
  }

  fill_release-Filled :
      (opts : Stage.GenerationDeployOpts) (fetch : Text → Result Text Text) (s : Tree)
      → s.staging ≡ some []
      → Filled opts s (Stage.fill_release crypto w opts fetch s)
  unfolding Stage.fill_release
  fill_release-Filled opts fetch s e =
      let m = Stage.fill_staging crypto w opts fetch in
      let k = fill_staging-Keeps crypto w opts fetch s in
      bind-by (Filled opts s) m (λ _. Stage.publish_release crypto w opts.generation) s
        (λ f _. record {
          current = k.current;
          release = directory [];
          grown = inl k.releases;
          published = λ h. cc;
        })
        (λ u h.
          publish_release-Filled opts s (m s).0 k (fill_staging-IsFilled crypto w opts fetch s e h))

  without_staging-Keeps : (t : Tree) → Keeps t (Stage.without_staging w t)
  unfolding Stage.without_staging
  without_staging-Keeps t = ground arith

  cleaned-Filled :
      (opts : Stage.GenerationDeployOpts) (s : Tree) (out : Tree × Result Failure (Unit {0}))
      → Filled opts s out
      → Filled opts s (Stage.cleaned crypto w out)
  cleaned-Filled opts s (t, ok u) h = h
  cleaned-Filled opts s (t, err e) h =
      let k = without_staging-Keeps t in
      record {
        current = k.current ∙ h.current;
        release = h.release;
        grown = subst (Grown opts.generation h.release s.releases) (sym k.releases) h.grown;
        published = λ i. cc;
      }

  make_release-Filled :
      (opts : Stage.GenerationDeployOpts) (fetch : Text → Result Text Text) (s : Tree)
      → Filled opts s (Stage.make_release crypto w opts fetch s)
  unfolding Stage.make_release Stage.fill_and_clean Stage.new_staging
  make_release-Filled opts fetch s =
      let t = Stage.new_staging s in
      let h = fill_release-Filled opts fetch t refl in
      cleaned-Filled opts s (Stage.fill_release crypto w opts fetch t) (record {
        current = h.current;
        release = h.release;
        grown = h.grown;
        published = λ i.
            let p = h.published i in
            record { source = p.source; filled = p.filled; release = p.release; fresh = p.fresh };
      })

  -- What `publish` does to the directory.
  pub record Switched (opts : Stage.GenerationDeployOpts) (s : Tree)
      (out : Tree × Result Failure (Unit {0})) : Type 0 where
    pub kept :
        (e : Failure)
        → out.1 ≡ err e
        → w.fails (sync_out switching) ≡ none
        → out.0.current ≡ s.current
    pub release : Release
    pub grown : Grown opts.generation release s.releases out.0.releases
    pub current : out.1 ≡ ok tt → out.0.current ≡ link (release_target opts.generation)
    pub published : out.1 ≡ ok tt → IsPublished opts s out.0

  unchanged :
      (opts : Stage.GenerationDeployOpts) (s t : Tree) (e : Failure)
      → t ≡ s
      → Switched opts s (t, err e)
  unchanged opts s t e h = record {
    kept = λ _ _ _. ap (λ u. u.current) h;
    release = directory [];
    grown = inl (ap (λ u. u.releases) h);
    current = λ i. cc;
    published = λ i. cc;
  }

  check_inputs-unchanged :
      (opts : Stage.GenerationDeployOpts) (s : Tree) → (Stage.check_inputs crypto w opts s).0 ≡ s
  unfolding Stage.check_inputs Stage.validate_deployment_manifest
  check_inputs-unchanged opts s = ground arith

  IsPublished-write :
      (opts : Stage.GenerationDeployOpts) (s t u : Tree)
      → u.releases ≡ t.releases
      → IsPublished opts s t
      → IsPublished opts s u
  IsPublished-write opts s t u e p = record {
    source = p.source;
    filled = p.filled;
    release = e ∙ p.release;
    fresh = p.fresh;
  }

  write-Switched :
      (opts : Stage.GenerationDeployOpts) (s t : Tree)
      → Filled opts s (t, ok tt)
      → Switched opts s (write_deployment_current w switching opts.generation t)
  write-Switched opts s t h =
      let e = write-releases w switching opts.generation t in
      record {
        kept = λ f i sync. write-fails w switching opts.generation t sync i ∙ h.current;
        release = h.release;
        grown = subst (Grown opts.generation h.release s.releases) (sym e) h.grown;
        current = λ i. write-succeeds w switching opts.generation t i;
        published = λ i. IsPublished-write opts s t _ e (h.published refl);
      }

  made :
      (opts : Stage.GenerationDeployOpts) (s : Tree) (out : Tree × Result Failure (Unit {0}))
      → Filled opts s out
      → Switched opts s (next (λ _. write_deployment_current w switching opts.generation) out)
  made opts s (t, ok u) h = write-Switched opts s t h
  made opts s (t, err e) h = record {
    kept = λ _ _ _. h.current;
    release = h.release;
    grown = h.grown;
    current = λ i. cc;
    published = λ i. cc;
  }

  pub publish-Switched :
      (opts : Stage.GenerationDeployOpts) (s : Tree)
      → Switched opts s (Stage.publish crypto w opts s)
  unfolding Stage.publish
  publish-Switched opts s =
      let m = Stage.check_inputs crypto w opts in
      let e = check_inputs-unchanged opts s in
      bind-by (Switched opts s) m
        (λ fetch.
          Stage.make_release crypto w opts fetch
          >> write_deployment_current w switching opts.generation)
        s (λ f _. unchanged opts s (m s).0 f e)
        (λ fetch _.
          subst
            (λ t. Switched opts s (
              (Stage.make_release crypto w opts fetch
                  >> write_deployment_current w switching opts.generation)
                t))
            (sym e)
            (made opts s (Stage.make_release crypto w opts fetch s)
              (make_release-Filled opts fetch s)))
