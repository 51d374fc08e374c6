-- ===== src/Client/Stage/Laws.antt =====
-- What is staged has the sizes and the digests that the manifest gives.
use cert_keeper.Prelude.{
  Text, nat_eq, text_eq, Option, some, Result, ok, List, [], ◌∷◌, ◌≡◌, refl, arith, ap, sym, ◌∙◌,
  map, All, ℕ, length, true, Bool-cases, inl, inr, ◌==◌, text_beq_iff,
}
use mathlib.Core.Path.{subst}
use cert_keeper.Prelude.Steps.{lift, Relates, bind-Relates, bind-ok, ◌>>◌}
use cert_keeper.Prelude.Int.{ℤ, pos, negsuc, beq_ℤ}
use cert_keeper.Protocol.Manifest.{FileManifest, fixed_file_names}
use cert_keeper.Client.Tree.{Tree, World}
use cert_keeper.Client.Certificate.{Crypto}
use cert_keeper.Client.Certificate.Laws.{IsServable, validate-IsServable}
use cert_keeper.Client.Read.{call}
use cert_keeper.Client.Current.Laws.{Keeps, Keeps-trans}
use cert_keeper.Client.Stage

module _ {Certificate Key : Type 0} (crypto : Crypto Certificate Key) (w : World) where
  write-Keeps :
      (name : Text) (item : FileManifest) (content : Text)
      → Relates Keeps (Stage.write_and_validate_staged_file crypto w name item content)
  unfolding Stage.write_and_validate_staged_file Stage.with_staged
  write-Keeps name item content t = ground arith

  stage_files-Keeps :
      (fetch : Text → Result Text Text) (manifest : List FileManifest) (names : List Text)
      → Relates Keeps (Stage.stage_files crypto w fetch manifest names)
  unfolding Stage.stage_files
  stage_files-Keeps fetch manifest [] = λ t. record { current = refl; releases = refl }
  stage_files-Keeps fetch manifest (name ∷ names) =
      bind-Relates Keeps Keeps-trans (lift (Stage.fetch_file crypto fetch name))
        (λ content.
          Stage.write_and_validate_staged_file crypto w name
            (Stage.item_named name manifest Stage.no_item) content
          >> Stage.stage_files crypto w fetch manifest names)
        (λ t. record { current = refl; releases = refl })
        (λ content.
          bind-Relates Keeps Keeps-trans
            (Stage.write_and_validate_staged_file crypto w name _ content)
            (λ _. Stage.stage_files crypto w fetch manifest names) (write-Keeps name _ content)
            (λ _. stage_files-Keeps fetch manifest names))

  -- A file has the size and the digest that the manifest gives.
  pub record IsChecked (manifest : List FileManifest) (entry : Text × Text) : Type 0 where
    pub size : pos (length entry.1) ≡ (Stage.item_named entry.0 manifest Stage.no_item).size
    pub digest :
        crypto.sha256_hex entry.1 ≡ (Stage.item_named entry.0 manifest Stage.no_item).sha256

  pos_sound : (n : ℕ) (z : ℤ) → beq_ℤ (pos n) z ≡ true → pos n ≡ z
  pos_sound n (pos m) h = ap pos (ground (arith, h))
  pos_sound n (negsuc m) h = absurd (ground arith)

  matches-ok :
      (item : FileManifest) (name content : Text)
      → Stage.matches_manifest crypto item name content ≡ ok tt
      → (pos (length content) ≡ item.size) × (crypto.sha256_hex content ≡ item.sha256)
  unfolding Stage.matches_manifest
  matches-ok item name content h = elim (Bool-cases (beq_ℤ (pos (length content)) item.size)) [
    | inr fails ↦ let h' = rw fails at h in absurd cc
    | inl size ↦ elim (Bool-cases (crypto.sha256_hex content == item.sha256)) [
      | inr fails ↦ let h' = rw (size, fails) at h in absurd cc
      | inl digest ↦ (
        pos_sound (length content) item.size size,
        (text_beq_iff (crypto.sha256_hex content) item.sha256).0 digest,
      )
    ]
  ]

  write-matches :
      (name : Text) (item : FileManifest) (content : Text) (t : Tree)
      → (Stage.write_and_validate_staged_file crypto w name item content t).1 ≡ ok tt
      → ((Stage.write_and_validate_staged_file crypto w name item content t).0.staging
          ≡ some ((name, content) ∷ Stage.files_of t.staging))
        × (Stage.matches_manifest crypto item name content ≡ ok tt)
  unfolding Stage.write_and_validate_staged_file Stage.with_staged
  write-matches name item content t h = ground arith

  write-IsChecked :
      (name : Text) (manifest : List FileManifest) (content : Text) (t : Tree)
      → (Stage.write_and_validate_staged_file crypto w name
          (Stage.item_named name manifest Stage.no_item)
          content
          t).1
        ≡ ok tt
      → ((Stage.write_and_validate_staged_file crypto w name
            (Stage.item_named name manifest Stage.no_item)
            content
            t).0.staging
          ≡ some ((name, content) ∷ Stage.files_of t.staging))
        × IsChecked manifest (name, content)
  write-IsChecked name manifest content t h =
      let (staged, matched) =
        write-matches name (Stage.item_named name manifest Stage.no_item) content t h in
      let (size, digest) =
        matches-ok (Stage.item_named name manifest Stage.no_item) name content matched in
      (staged, record { size = size; digest = digest })

  -- What is staged has the names, the last first, before those that were there.
  abbrev names_before : List Text → List Text → List Text
  names_before [] old = old
  names_before (name ∷ names) old = names_before names (name ∷ old)

  abbrev names_of : List (Text × Text) → List Text
  names_of files = map (λ entry. entry.0) files

  pub record IsStaged (manifest : List FileManifest) (names : List Text)
      (files : List (Text × Text)) : Type 0 where
    pub checked : All (IsChecked manifest) files
    pub named : names_of files ≡ names

  with_more-IsStaged :
      (manifest : List FileManifest) (old : List Text) (name content : Text)
      (files : List (Text × Text)) (staging : Option (List (Text × Text)))
      → staging ≡ some ((name, content) ∷ files)
      → IsChecked manifest (name, content)
      → IsStaged manifest old files
      → IsStaged manifest (name ∷ old) (Stage.files_of staging)
  with_more-IsStaged manifest old name content files staging e c s = record {
    checked = rw e (c, s.checked);
    named = rw e (ap (λ names. name ∷ names) s.named);
  }

  stage_files-IsStaged :
      (fetch : Text → Result Text Text) (manifest : List FileManifest) (names old : List Text)
      (t : Tree)
      → IsStaged manifest old (Stage.files_of t.staging)
      → (Stage.stage_files crypto w fetch manifest names t).1 ≡ ok tt
      → IsStaged manifest
          (names_before names old)
          (Stage.files_of (Stage.stage_files crypto w fetch manifest names t).0.staging)
  unfolding Stage.stage_files
  stage_files-IsStaged fetch manifest [] old t s h = s
  stage_files-IsStaged fetch manifest (name ∷ names) old t s h =
      let whole =
        bind-ok (lift (Stage.fetch_file crypto fetch name))
          (λ content.
            Stage.write_and_validate_staged_file crypto w name
              (Stage.item_named name manifest Stage.no_item) content
            >> Stage.stage_files crypto w fetch manifest names)
          t tt h in
      let write =
        Stage.write_and_validate_staged_file crypto w name
          (Stage.item_named name manifest Stage.no_item) whole.value in
      let rest =
        bind-ok write (λ _. Stage.stage_files crypto w fetch manifest names) t tt whole.rest_ok in
      let (staged, checked) = write-IsChecked name manifest whole.value t rest.first_ok in
      let after =
        with_more-IsStaged manifest old name whole.value (Stage.files_of t.staging)
          (write t).0.staging staged checked s in
      subst (λ u. IsStaged manifest (names_before names (name ∷ old)) (Stage.files_of u.staging))
        (sym (whole.end_ok ∙ rest.end_ok))
        (stage_files-IsStaged fetch manifest names (name ∷ old) (write t).0 after rest.rest_ok)

  abbrev pub fixed_last : List Text
  fixed_last = names_before fixed_file_names []

  pub fill_staging-Keeps :
      (opts : Stage.GenerationDeployOpts) (fetch : Text → Result Text Text)
      → Relates Keeps (Stage.fill_staging crypto w opts fetch)
  unfolding Stage.fill_staging Stage.validate_staging
  fill_staging-Keeps opts fetch =
      bind-Relates Keeps Keeps-trans (lift (call w Stage.chmod_staging))
        (λ _.
          Stage.stage_files crypto w fetch opts.manifest fixed_file_names
          >> Stage.validate_staging crypto w opts)
        (λ t. record { current = refl; releases = refl })
        (λ _.
          bind-Relates Keeps Keeps-trans
            (Stage.stage_files crypto w fetch opts.manifest fixed_file_names)
            (λ _. Stage.validate_staging crypto w opts)
            (stage_files-Keeps fetch opts.manifest fixed_file_names)
            (λ _ t. record { current = refl; releases = refl }))

  -- The staging directory holds what the manifest gives, and a certificate to serve.
  pub record IsFilled (opts : Stage.GenerationDeployOpts) (t : Tree) : Type 0 where
    pub staged : IsStaged opts.manifest fixed_last (Stage.files_of t.staging)
    pub servable : IsServable crypto (Stage.staged_read crypto w t) (opts.domain ∷ opts.san) w.now

  validate-IsFilled :
      (opts : Stage.GenerationDeployOpts) (t : Tree)
      → IsStaged opts.manifest fixed_last (Stage.files_of t.staging)
      → (Stage.validate_staging crypto w opts t).1 ≡ ok tt
      → IsFilled opts t
  unfolding Stage.validate_staging
  validate-IsFilled opts t s h = record {
    staged = s;
    servable =
        validate-IsServable crypto (Stage.staged_read crypto w t) opts.domain opts.san w.now h;
  }

  pub fill_staging-IsFilled :
      (opts : Stage.GenerationDeployOpts) (fetch : Text → Result Text Text) (t : Tree)
      → t.staging ≡ some []
      → (Stage.fill_staging crypto w opts fetch t).1 ≡ ok tt
      → IsFilled opts (Stage.fill_staging crypto w opts fetch t).0
  unfolding Stage.fill_staging Stage.validate_staging
  fill_staging-IsFilled opts fetch t e h =
      let files = Stage.stage_files crypto w fetch opts.manifest fixed_file_names in
      let a =
        bind-ok (lift (call w Stage.chmod_staging))
          (λ _. files >> Stage.validate_staging crypto w opts) t tt h in
      let b = bind-ok files (λ _. Stage.validate_staging crypto w opts) t tt a.rest_ok in
      subst (IsFilled opts) (sym (a.end_ok ∙ b.end_ok)) (
        validate-IsFilled opts (files t).0
          (stage_files-IsStaged fetch opts.manifest fixed_file_names [] t
            (rw e (record { checked = tt; named = refl })) b.first_ok)
          b.rest_ok)
