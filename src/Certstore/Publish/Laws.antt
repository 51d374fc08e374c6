-- ===== src/Certstore/Publish/Laws.antt =====
-- What a publication leaves.
use cert_keeper.Prelude.{
  ℕ, zero, suc, Text, text_eq, none, some, ok, err, List, [], ◌∷◌, ◌≡◌, ◌≢◌, ◌∙◌, refl, ap, arith,
  >>-eq-ok, Option-cases, inl, inr,
}
use cert_keeper.Prelude.Steps.{
  lift, modify, inspect, return, ◌>>=◌, ◌>>◌, Relates, bind-Relates, bind-by,
}
use cert_keeper.Client.Tree.{Node}
use cert_keeper.Client.Read.{lookup}
use cert_keeper.Client.Certificate.{Crypto}
use cert_keeper.Certstore.{
  Entry, directory, Folder, folder, missing, unsafe, DomainDir, World, stat_entry,
  validate_generation, make_temporary, chmod_temporary, sync_releases, Checked, Storing, call,
  entries_of, without_entry,
}
use cert_keeper.Certstore.Entries.{
  released, lookup-without_entry, lookup-with_entry, lookup-on_folder,
}
use cert_keeper.Certstore.Manifest.{Formats, GenerationManifest}
use cert_keeper.Certstore.Collect.Laws.{remove_all-released}
use cert_keeper.Certstore.Read.{current_state}
use cert_keeper.Certstore.Current.{write_current, sync_or_restore, with_current}
use cert_keeper.Certstore.Build.{Staged, prepare, new_generation_path, if_found}
use cert_keeper.Certstore.Publish

-- The entries of all other names are the same.
abbrev pub Outside : World → Text → DomainDir → DomainDir → Type 0
Outside w g s t = (name : Text) → name ≢ w.temporary → name ≢ g → released name t ≡ released name s

Outside-trans :
    (w : World) (g : Text) (s t u : DomainDir) → Outside w g s t → Outside w g t u → Outside w g s u
Outside-trans w g s t u p q name a b = q name a b ∙ p name a b

pub write_current-releases :
    (w : World) (g : Text) (s : DomainDir) → (write_current w g s).0.releases ≡ s.releases
unfolding write_current sync_or_restore with_current
write_current-releases w g s = ground arith

module _ (w : World) (g : Text) where
  -- The two names that a publication removes.
  IsOwn : Text → Type 0
  IsOwn x = (name : Text) → name ≢ w.temporary → name ≢ g → name ≢ x

  removed-Outside :
      {A : Type 0} (x : Text)
      → IsOwn x
      → (s : DomainDir) (out : DomainDir × Checked A) → Outside w g s out.0
      → Outside w g s (Publish.removed_on_failure w x out).0
  unfolding IsOwn
  removed-Outside x own s (t, ok a) h name a' b = h name a' b
  removed-Outside x own s (t, err e) h name a b =
      remove_all-released w x name t (own name a b) ∙ h name a b

  or_remove-Outside :
      {A : Type 0} (x : Text) (m : Storing A)
      → IsOwn x
      → Relates (Outside w g) m
      → Relates (Outside w g) (Publish.or_remove w x m)
  or_remove-Outside x m own h s = removed-Outside x own s (m s) (h s)

  temporary-IsOwn : IsOwn w.temporary
  unfolding IsOwn
  temporary-IsOwn name a b = a

  generation-IsOwn : IsOwn g
  unfolding IsOwn
  generation-IsOwn name a b = b

  then_Outside :
      {A B : Type 0} (m : Storing A) (k : A → Storing B)
      → Relates (Outside w g) m
      → ((a : A) → Relates (Outside w g) (k a))
      → Relates (Outside w g) (m >>= k)
  then_Outside m k = bind-Relates (Outside w g) (Outside-trans w g) m k

  write_current-Outside : Relates (Outside w g) (write_current w g)
  write_current-Outside s name a b =
      ap (λ (f : Folder). lookup name (entries_of f)) (write_current-releases w g s)

  finish-Outside : Relates (Outside w g) (Publish.finish w g)
  unfolding Publish.finish
  finish-Outside =
      then_Outside (Publish.or_remove w g (lift (call w sync_releases)))
        (λ _. Publish.or_remove w g (write_current w g))
        (or_remove-Outside g (lift (call w sync_releases)) generation-IsOwn (λ s name a b. refl))
        (λ _. or_remove-Outside g (write_current w g) generation-IsOwn write_current-Outside)

  with_generation-Outside :
      (files : List (Text × Node)) (s : DomainDir)
      → Outside w g s (Publish.with_generation w g files s)
  unfolding Publish.with_generation
  with_generation-Outside files s name a b =
      lookup-on_folder _ name
        (λ es.
          lookup-with_entry name g (directory files) (without_entry w.temporary es) b
          ∙ lookup-without_entry name w.temporary es a)
        s.releases

  with_temporary-Outside : (s : DomainDir) → Outside w g s (Publish.with_temporary w s)
  unfolding Publish.with_temporary
  with_temporary-Outside s name a b =
      lookup-on_folder _ name (λ es. lookup-with_entry name w.temporary (directory []) es a)
        s.releases

module _ {Certificate Key : Type 0} (crypto : Crypto Certificate Key)
    (formats : Formats Certificate) (w : World) (domain : Text) (staged : Staged)
    (files : List (Text × Text)) (g : Text) where
  install-Outside : Relates (Outside w g) (Publish.install crypto formats w domain g staged files)
  unfolding Publish.install
  install-Outside =
      then_Outside w g (inspect (prepare crypto formats w domain g staged files))
        (λ p. modify (Publish.with_generation w g p.1) >> (Publish.finish w g >> return p.0))
        (λ s name a b. refl)
        (λ p.
          then_Outside w g (modify (Publish.with_generation w g p.1))
            (λ _. Publish.finish w g >> return p.0) (with_generation-Outside w g _)
            (λ _.
              then_Outside w g (Publish.finish w g) (λ _. return p.0) (finish-Outside w g)
                (λ _ s name a b. refl)))

  place-Outside : Relates (Outside w g) (Publish.place crypto formats w domain staged files g)
  unfolding Publish.place
  place-Outside =
      let installing =
        Publish.or_remove w w.temporary (Publish.install crypto formats w domain g staged files) in
      let last : Storing (Text × GenerationManifest) = installing >>= λ m. return (g, m) in
      let checking : Storing (Unit {0}) =
        Publish.or_remove w w.temporary (lift (call w chmod_temporary)) in
      then_Outside w g (lift (call w make_temporary))
        (λ _. modify (Publish.with_temporary w) >> (checking >> last)) (λ s name a b. refl)
        (λ _.
          then_Outside w g (modify (Publish.with_temporary w)) (λ _. checking >> last)
            (with_temporary-Outside w g)
            (λ _.
              then_Outside w g checking (λ _. last)
                (or_remove-Outside w g w.temporary (lift (call w chmod_temporary))
                  (temporary-IsOwn w g) (λ s name a b. refl))
                (λ _.
                  then_Outside w g installing (λ m. return (g, m))
                    (or_remove-Outside w g w.temporary
                      (Publish.install crypto formats w domain g staged files) (temporary-IsOwn w g)
                      install-Outside)
                    (λ m s name a b. refl))))

pub new_generation_path-fresh :
    (w : World) (attempts : ℕ) (drawn : List Text) (es : List (Text × Entry)) (g : Text)
    → new_generation_path w attempts drawn es ≡ ok g
    → lookup g es ≡ none
unfolding new_generation_path
new_generation_path-fresh w zero drawn es g h = cc
new_generation_path-fresh w (suc attempts) [] es g h = cc
new_generation_path-fresh w (suc attempts) (id ∷ drawn) es g h =
    let (valid_ok, rest) = >>-eq-ok (validate_generation id) _ h in
    let (seen_ok, rest') = >>-eq-ok (call w (stat_entry id)) _ rest in
    elim (Option-cases (lookup id es)) [
      | inl free ↦ let same = rw free at rest' in cc
      | inr (e, taken) ↦ new_generation_path-fresh w attempts drawn es g (rw taken at rest')
    ]

made-entries : (f : Folder) → entries_of (Publish.made f) ≡ entries_of f
made-entries missing = refl
made-entries unsafe = refl
made-entries (folder es) = refl

pub make_domain_paths-entries :
    (w : World) (domain : Text) (s : DomainDir)
    → entries_of (Publish.make_domain_paths w domain s).0.releases ≡ entries_of s.releases
unfolding Publish.make_domain_paths Publish.with_releases
make_domain_paths-entries w domain s = ground (arith, made-entries s.releases)

taken_free :
    (name g : Text) (e : Entry) (s : DomainDir)
    → name ≡ g
    → released name s ≡ some e
    → released g s ≡ none
    → ⊥
taken_free name g e s same h free = cc

module _ {Certificate Key : Type 0} (crypto : Crypto Certificate Key)
    (formats : Formats Certificate) (w : World) (domain : Text) (staged : Staged) where
  -- An entry that is still the same.
  abbrev Stays {ℓ} : {A : Type ℓ} → Text → Entry → DomainDir × Checked A → Type 0
  Stays name e out = released name out.0 ≡ some e

  place_new-Stays :
      (files : List (Text × Text)) (safe name : Text) (e : Entry) (s : DomainDir)
      → name ≢ w.temporary
      → released name s ≡ some e
      → Stays name e (Publish.place_new crypto formats w domain staged files safe s)
  unfolding Publish.place_new
  place_new-Stays files safe name e s n h =
      let search_id : Storing Text =
        inspect (λ d. new_generation_path w 8 w.drawn (entries_of d.releases)) in
      bind-by (Stays name e) (inspect (λ d. if_found (current_state crypto formats w safe d)))
        (λ _. search_id >>= λ g. Publish.place crypto formats w domain staged files g) s (λ _ _. h)
        (λ _ _.
          bind-by (Stays name e) search_id
            (λ g. Publish.place crypto formats w domain staged files g) s (λ _ _. h)
            (λ g found.
              let free = new_generation_path-fresh w 8 w.drawn (entries_of s.releases) g found in
              place-Outside crypto formats w domain staged files g s name n
                (λ same. absurd (taken_free name g e s same h free))
              ∙ h))

  -- A publication changes or removes no entry of `releases` but a temporary one, whether it succeeds
  -- or fails, and whichever calls fail.
  pub publish-Stays :
      (name : Text) (e : Entry) (s : DomainDir)
      → name ≢ w.temporary
      → released name s ≡ some e
      → Stays name e (Publish.publish crypto formats w domain staged s)
  unfolding Publish.publish Publish.publish_files
  publish-Stays name e s n h =
      bind-by (Stays name e) (lift staged.files)
        (λ files. Publish.publish_files crypto formats w domain staged files) s (λ _ _. h)
        (λ files _.
          let k : released name (Publish.make_domain_paths w domain s).0 ≡ some e =
            ap (λ es. lookup name es) (make_domain_paths-entries w domain s) ∙ h in
          bind-by (Stays name e) (Publish.make_domain_paths w domain)
            (λ safe. Publish.place_new crypto formats w domain staged files safe) s (λ _ _. k)
            (λ safe _. place_new-Stays files safe name e _ n k))
