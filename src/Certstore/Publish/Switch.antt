-- ===== src/Certstore/Publish/Switch.antt =====
-- What a publication does to `current`.
use cert_keeper.Prelude.{
  Text, text_eq, Option, none, some, ok, err, List, [], ◌∷◌, ◌++◌, codes, join, split, >>=-eq-ok,
  >>-eq-ok, ◌≡◌, ◌∙◌, refl, sym, ap, arith, text_beq_iff,
}
use cert_keeper.Prelude.Steps.{lift, modify, inspect, return, next, ◌>>=◌, ◌>>◌, Relates, bind-by}
use cert_keeper.Prelude.Trim.{trim_space}
use cert_keeper.Prelude.Splits.{join-split}
use cert_keeper.Client.Read.{release_target, managed_target, base_of}
use cert_keeper.Client.Certificate.{Crypto}
use cert_keeper.Certstore.{
  random, make_link, rename_link, StoreFailure, DomainDir, World, restore_current, sync_domain,
  make_temporary, chmod_temporary, sync_releases, Checked, Storing, call, entries_of, Pointer,
  absent, link, regular, special, read_current, stat_current, validate_generation,
}
use cert_keeper.Certstore.Manifest.{Formats, GenerationManifest}
use cert_keeper.Certstore.Read.{
  current_state, capture_current, captured, check_target, prepare_link, read_current_link,
  or_unsafe,
}
use cert_keeper.Certstore.Current.{write_current, sync_or_restore, synced, restored, with_current}
use cert_keeper.Certstore.Build.{Staged, prepare, new_generation_path, if_found}
use cert_keeper.Certstore.Publish
use cert_keeper.Certstore.Publish.{remove_all}

-- An operation that failed has left `current` as it was.
abbrev pub Restores {ℓ} : {A : Type ℓ} → DomainDir → DomainDir × Checked A → Type 0
Restores s (t, ok a) = Unit
Restores s (t, err e) = t.current ≡ s.current

join-base_of :
    (parts : List Text) (b : Text)
    → base_of parts ≡ some b
    → join b'/' parts ≡ codes "releases/" ++ b
unfolding join
join-base_of [] b h = cc
join-base_of (dir ∷ []) b h = cc
join-base_of (dir ∷ base ∷ []) b h = ground (arith, text_beq_iff dir (codes "releases"))
join-base_of (dir ∷ base ∷ x ∷ rest) b h = cc

-- A link that is accepted has the one form that the store writes.
managed_target-release_target :
    (target g : Text) → managed_target target ≡ some g → release_target g ≡ target
unfolding managed_target release_target
managed_target-release_target target g h =
    sym (join-base_of (split b'/' target) g h) ∙ join-split b'/' target

or_unsafe-eq-ok : (o : Option Text) (g : Text) → or_unsafe o ≡ ok g → o ≡ some g
or_unsafe-eq-ok none g h = cc
or_unsafe-eq-ok (some x) g h = cc

link_read :
    (w : World) (target g : Text) → read_current_link w target ≡ ok g → release_target g ≡ target
unfolding read_current_link
link_read w target g h =
    let (read_ok, rest) = >>-eq-ok (call w read_current) _ h in
    let (generation, named, rest') = >>=-eq-ok (or_unsafe (managed_target target)) _ rest in
    let (valid_ok, end) = >>-eq-ok (validate_generation generation) _ rest' in
    let same : generation ≡ g = cc in
    managed_target-release_target target g
      (or_unsafe-eq-ok (managed_target target) g (named ∙ ap ok same))

abbrev SameCurrent : DomainDir → DomainDir → Type 0
SameCurrent s t = t.current ≡ s.current

Restores-from {ℓ} :
    {A : Type ℓ} (s t : DomainDir) (out : DomainDir × Checked A)
    → SameCurrent s t
    → Restores t out
    → Restores s out
Restores-from s t (u, ok a) h r = tt
Restores-from s t (u, err e) h r = r ∙ h

captured-same : (w : World) (p q : Pointer) → captured w p ≡ ok q → q ≡ p
unfolding captured
captured-same w absent q h = cc
captured-same w special q h = cc
captured-same w (link target) q h =
    let (g, read_ok, end) = >>=-eq-ok (read_current_link w target) _ h in
    let same = link_read w target g read_ok in cc
captured-same w (regular content) q h =
    let (read_ok, rest) = >>-eq-ok (call w read_current) _ h in
    let (valid_ok, end) = >>-eq-ok (validate_generation (trim_space content)) _ rest in cc

capture-same :
    (w : World) (d : DomainDir) (q : Pointer) → capture_current w d ≡ ok q → q ≡ d.current
unfolding capture_current
capture-same w d q h = captured-same w d.current q (>>-eq-ok (call w stat_current) _ h).1

prepare_link-same :
    (w : World) (g : Text) (d : DomainDir) (q : Pointer) → prepare_link w g d ≡ ok q → q ≡ d.current
unfolding prepare_link
prepare_link-same w g d q h =
    let (valid_ok, rest) = >>-eq-ok (validate_generation g) _ h in
    let (target_ok, rest') = >>-eq-ok (check_target w g d) _ rest in
    let (p, capture_ok, rest'') = >>=-eq-ok (capture_current w d) _ rest' in
    let (random_ok, last) = >>-eq-ok (call w random) _ rest'' in
    let (made_ok, last') = >>-eq-ok (call w make_link) _ last in
    let (renamed_ok, end) = >>-eq-ok (call w rename_link) _ last' in
    let same = capture-same w d p capture_ok in cc

module _ (w : World) (mendable : w.fails restore_current ≡ none) where
  restored-Restores :
      (q : Pointer) (s t : DomainDir) (e : StoreFailure) (r : Option StoreFailure)
      → r ≡ none
      → q ≡ s.current
      → Restores s (restored q e r t)
  unfolding with_current
  restored-Restores q s t e none m h = h
  restored-Restores q s t e (some x) m h = cc

  synced-Restores :
      (q : Pointer) (s t : DomainDir) (r : Option StoreFailure)
      → q ≡ s.current
      → Restores s (synced w q r t)
  synced-Restores q s t none h = tt
  synced-Restores q s t (some e) h = restored-Restores q s t e (w.fails restore_current) mendable h

  write_current-Restores : (g : Text) (s : DomainDir) → Restores s (write_current w g s)
  unfolding write_current sync_or_restore
  write_current-Restores g s =
      bind-by (Restores s) (inspect (prepare_link w g))
        (λ snapshot. modify (with_current (link (release_target g))) >> sync_or_restore w snapshot)
        s (λ e h. refl)
        (λ q h. synced-Restores q s _ (w.fails sync_domain) (prepare_link-same w g s q h))

  removed-Restores {ℓ} :
      {A : Type ℓ} (x : Text) (s : DomainDir) (out : DomainDir × Checked A)
      → Restores s out
      → Restores s (Publish.removed_on_failure w x out)
  unfolding remove_all
  removed-Restores x s (t, ok a) h = tt
  removed-Restores x s (t, err e) h = h

  -- A program that leaves `current` alone, followed by one that restores it.
  then_Restores {ℓ κ} :
      {A : Type ℓ} {B : Type κ} (m : Storing A) (k : A → Storing B)
      → Relates SameCurrent m
      → ((a : A) (s : DomainDir) → Restores s (k a s))
      → (s : DomainDir) → Restores s ((m >>= k) s)
  then_Restores m k h f s =
      bind-by (Restores s) m k s (λ e _. h s)
        (λ a _. Restores-from s (m s).0 (k a (m s).0) (h s) (f a (m s).0))

  removed-SameCurrent {ℓ} :
      {A : Type ℓ} (x : Text) (s : DomainDir) (out : DomainDir × Checked A)
      → SameCurrent s out.0
      → SameCurrent s (Publish.removed_on_failure w x out).0
  unfolding remove_all
  removed-SameCurrent x s (t, ok a) h = h
  removed-SameCurrent x s (t, err e) h = h

  -- A value that is computed from what a program returns.
  with_value_Restores {ℓ κ} :
      {A : Type ℓ} {B : Type κ} (f : A → B) (s : DomainDir) (out : DomainDir × Checked A)
      → Restores s out
      → Restores s (next (λ a. return (f a)) out)
  with_value_Restores f s (t, ok a) h = tt
  with_value_Restores f s (t, err e) h = h

  finish-Restores : (g : Text) (s : DomainDir) → Restores s (Publish.finish w g s)
  unfolding Publish.finish
  finish-Restores g =
      then_Restores (Publish.or_remove w g (lift (call w sync_releases)))
        (λ _. Publish.or_remove w g (write_current w g))
        (λ s. removed-SameCurrent g s (lift (call w sync_releases) s) refl)
        (λ _ s. removed-Restores g s (write_current w g s) (write_current-Restores g s))

  module _ {Certificate Key : Type 0} (crypto : Crypto Certificate Key)
      (formats : Formats Certificate) (domain : Text) (staged : Staged) where
    install-Restores :
        (files : List (Text × Text)) (g : Text) (s : DomainDir)
        → Restores s (Publish.install crypto formats w domain g staged files s)
    unfolding Publish.install Publish.with_generation
    install-Restores files g =
        then_Restores (inspect (prepare crypto formats w domain g staged files))
          (λ p. modify (Publish.with_generation w g p.1) >> (Publish.finish w g >> return p.0))
          (λ s. refl)
          (λ p.
            then_Restores (modify (Publish.with_generation w g p.1))
              (λ _. Publish.finish w g >> return p.0) (λ s. refl)
              (λ _ s.
                with_value_Restores (λ _. p.0) s (Publish.finish w g s) (finish-Restores g s)))

    place-Restores :
        (files : List (Text × Text)) (g : Text) (s : DomainDir)
        → Restores s (Publish.place crypto formats w domain staged files g s)
    unfolding Publish.place Publish.with_temporary
    place-Restores files g =
        let installing : Storing GenerationManifest =
          Publish.or_remove w w.temporary
            (Publish.install crypto formats w domain g staged files) in
        let last : Storing (Text × GenerationManifest) = installing >>= λ m. return (g, m) in
        let checking : Storing (Unit {0}) =
          Publish.or_remove w w.temporary (lift (call w chmod_temporary)) in
        then_Restores (lift (call w make_temporary))
          (λ _. modify (Publish.with_temporary w) >> (checking >> last)) (λ s. refl)
          (λ _.
            then_Restores (modify (Publish.with_temporary w)) (λ _. checking >> last) (λ s. refl)
              (λ _.
                then_Restores checking (λ _. last)
                  (λ s. removed-SameCurrent w.temporary s (lift (call w chmod_temporary) s) refl)
                  (λ _ s.
                    with_value_Restores (λ m. (g, m)) s (installing s)
                      (removed-Restores w.temporary s
                        (Publish.install crypto formats w domain g staged files s)
                        (install-Restores files g s)))))

    place_new-Restores :
        (files : List (Text × Text)) (safe : Text) (s : DomainDir)
        → Restores s (Publish.place_new crypto formats w domain staged files safe s)
    unfolding Publish.place_new
    place_new-Restores files safe =
        let search_id : Storing Text =
          inspect (λ d. new_generation_path w 8 w.drawn (entries_of d.releases)) in
        then_Restores (inspect (λ d. if_found (current_state crypto formats w safe d)))
          (λ _. search_id >>= λ g. Publish.place crypto formats w domain staged files g) (λ s. refl)
          (λ _.
            then_Restores search_id (λ g. Publish.place crypto formats w domain staged files g)
              (λ s. refl) (λ g. place-Restores files g))

    make_domain_paths-SameCurrent : Relates SameCurrent (Publish.make_domain_paths w domain)
    unfolding Publish.make_domain_paths Publish.with_releases
    make_domain_paths-SameCurrent s = ground arith

    publish-restored :
        (s : DomainDir) → Restores s (Publish.publish crypto formats w domain staged s)
    unfolding Publish.publish Publish.publish_files
    publish-restored =
        then_Restores (lift staged.files)
          (λ files. Publish.publish_files crypto formats w domain staged files) (λ s. refl)
          (λ files.
            then_Restores (Publish.make_domain_paths w domain)
              (λ safe. Publish.place_new crypto formats w domain staged files safe)
              make_domain_paths-SameCurrent (λ safe. place_new-Restores files safe))

-- Where the call that restores `current` does not fail, a publication that fails leaves `current` as
-- it was, whichever other calls fail.
pub publish-Restores :
    {Certificate Key : Type 0} (crypto : Crypto Certificate Key) (formats : Formats Certificate)
    (w : World) (domain : Text) (staged : Staged) (s : DomainDir)
    → w.fails restore_current ≡ none
    → Restores s (Publish.publish crypto formats w domain staged s)
publish-Restores crypto formats w domain staged s h =
    publish-restored w h crypto formats domain staged s
