-- ===== src/Certstore/Publish/Success.antt =====
-- What a publication that succeeds has done.
use cert_keeper.Prelude.{Text, Option, none, some, ok, err, List, [], ◌≡◌, ◌∙◌, refl, sym, ap}
use cert_keeper.Prelude.Steps.{lift, modify, inspect, return, next, ◌>>=◌, ◌>>◌, bind-by}
use mathlib.Core.Path.{subst}
use cert_keeper.Client.Tree.{Node}
use cert_keeper.Client.Read.{lookup, release_target}
use cert_keeper.Client.Certificate.{Crypto}
use cert_keeper.Certstore.{
  StoreFailure, Entry, directory, Folder, folder, missing, unsafe, DomainDir, World,
  restore_current, sync_domain, make_temporary, chmod_temporary, sync_releases, Checked, Storing,
  call, assert_folder, entries_of, on_folder, without_entry, with_entry, Pointer, link,
}
use cert_keeper.Certstore.Entries.{released, lookup-with_entry_self}
use cert_keeper.Certstore.Manifest.{Formats, GenerationManifest}
use cert_keeper.Certstore.Read.{current_state, prepare_link}
use cert_keeper.Certstore.Current.{write_current, sync_or_restore, synced, restored, with_current}
use cert_keeper.Certstore.Build.{
  Staged, make_domain_directory, prepare, new_generation_path, if_found,
}
use cert_keeper.Certstore.Publish
use cert_keeper.Certstore.Publish.Written.{IsWritten, prepare-IsWritten}
use cert_keeper.Certstore.Publish.Laws.{
  write_current-releases, new_generation_path-fresh, make_domain_paths-entries,
}

-- What holds of the outcome of an operation that succeeds.
abbrev pub OnSuccess {ℓ κ} :
    {A : Type ℓ} → (A → DomainDir → Type κ) → DomainDir × Checked A → Type κ
OnSuccess P (t, ok a) = P a t
OnSuccess P (t, err e) = Unit

module _ {ℓ κ ι} {A : Type ℓ} {B : Type κ} (P : B → DomainDir → Type ι) where
  -- A program of two parts succeeds where its parts do.
  pub then-OnSuccess :
      (m : Storing A) (k : A → Storing B) (s : DomainDir)
      → ((a : A) → (m s).1 ≡ ok a → OnSuccess P (k a (m s).0))
      → OnSuccess P ((m >>= k) s)
  then-OnSuccess m k s f = bind-by (OnSuccess P) m k s (λ e _. tt) f

module _ {ℓ ι} {A : Type ℓ} (P : A → DomainDir → Type ι) where
  removed-OnSuccess :
      (w : World) (x : Text) (out : DomainDir × Checked A)
      → OnSuccess P out
      → OnSuccess P (Publish.removed_on_failure w x out)
  removed-OnSuccess w x (t, ok a) h = h
  removed-OnSuccess w x (t, err e) h = tt

abbrev IsFolder : Folder → Type 0
IsFolder (folder es) = Unit
IsFolder _ = ⊥

ok_injective {ℓ} : {A : Type ℓ} (a b : A) → ◌≡◌ {A = Checked A} (ok a) (ok b) → a ≡ b
ok_injective a b h = cc

success-by {ℓ ι} :
    {A : Type ℓ} (P : A → DomainDir → Type ι) (out : DomainDir × Checked A) (a : A)
    → out.1 ≡ ok a
    → OnSuccess P out
    → P a out.0
success-by P (t, ok b) a h k = subst (λ x. P x t) (ok_injective b a h) k
success-by P (t, err e) a h k = cc

assert-IsFolder :
    (f : Folder) (u : Unit {0}) → Publish.no_entries (assert_folder f) ≡ ok u → IsFolder f
assert-IsFolder missing u h = cc
assert-IsFolder unsafe u h = cc
assert-IsFolder (folder es) u h = tt

module _ (w : World) (g : Text) (files : List (Text × Node)) where
  -- `current` names the generation, which holds the files.
  pub record IsInstalled (t : DomainDir) : Type 0 where
    pub named : t.current ≡ link (release_target g)
    pub held : released g t ≡ some (directory files)

  Switched : Unit {0} → DomainDir → Type 0
  Switched _ t = t.current ≡ link (release_target g)

  restored-Switched :
      (q : Pointer) (e : StoreFailure) (r : Option StoreFailure) (t : DomainDir)
      → OnSuccess Switched (restored q e r t)
  restored-Switched q e none t = tt
  restored-Switched q e (some x) t = tt

  synced-Switched :
      (q : Pointer) (r : Option StoreFailure) (t : DomainDir)
      → t.current ≡ link (release_target g)
      → OnSuccess Switched (synced w q r t)
  unfolding Switched
  synced-Switched q none t h = h
  synced-Switched q (some e) t h = restored-Switched q e (w.fails restore_current) t

  write_current-Switched : (s : DomainDir) → OnSuccess Switched (write_current w g s)
  unfolding write_current sync_or_restore with_current
  write_current-Switched s =
      then-OnSuccess Switched (inspect (prepare_link w g))
        (λ snapshot. modify (with_current (link (release_target g))) >> sync_or_restore w snapshot)
        s (λ q _. synced-Switched q (w.fails sync_domain) _ refl)

  Switched-IsInstalled :
      (s : DomainDir) (out : DomainDir × Checked (Unit {0}))
      → out.0.releases ≡ s.releases
      → released g s ≡ some (directory files)
      → OnSuccess Switched out
      → OnSuccess (λ (_ : Unit {0}) t. IsInstalled t) out
  unfolding Switched
  Switched-IsInstalled s (t, err e) r h k = tt
  Switched-IsInstalled s (t, ok u) r h k = record {
    named = k;
    held = ap (λ (f : Folder). lookup g (entries_of f)) r ∙ h;
  }

  removed-same {ℓ} :
      {A : Type ℓ} (x : Text) (out : DomainDir × Checked A) (a : A)
      → (Publish.removed_on_failure w x out).1 ≡ ok a
      → (Publish.removed_on_failure w x out).0 ≡ out.0
  removed-same x (t, ok b) a h = refl
  removed-same x (t, err e) a h = cc

  finish-IsInstalled :
      (s : DomainDir)
      → released g s ≡ some (directory files)
      → OnSuccess (λ (_ : Unit {0}) t. IsInstalled t) (Publish.finish w g s)
  unfolding Publish.finish
  finish-IsInstalled s h =
      let syncing : Storing (Unit {0}) = Publish.or_remove w g (lift (call w sync_releases)) in
      then-OnSuccess (λ _ t. IsInstalled t) syncing (λ _. Publish.or_remove w g (write_current w g))
        s
        (λ u synced.
          let s' = (syncing s).0 in
          let same : s' ≡ s = removed-same g (lift (call w sync_releases) s) u synced in
          removed-OnSuccess (λ _ t. IsInstalled t) w g (write_current w g s')
            (Switched-IsInstalled s' (write_current w g s') (write_current-releases w g s')
              (ap (λ (d : DomainDir). released g d) same ∙ h) (write_current-Switched s')))

lookup-with_generation :
    (g x : Text) (e : Entry) (f : Folder)
    → IsFolder f
    → lookup g (entries_of (on_folder (λ es. with_entry g e (without_entry x es)) f)) ≡ some e
lookup-with_generation g x e missing h = absurd h
lookup-with_generation g x e unsafe h = absurd h
lookup-with_generation g x e (folder es) h = lookup-with_entry_self g e (without_entry x es)

on_folder-IsFolder :
    (h : List (Text × Entry) → List (Text × Entry)) (f : Folder)
    → IsFolder f
    → IsFolder (on_folder h f)
on_folder-IsFolder h (folder es) k = tt
on_folder-IsFolder h missing k = absurd k
on_folder-IsFolder h unsafe k = absurd k

module _ {Certificate Key : Type 0} (crypto : Crypto Certificate Key)
    (formats : Formats Certificate) (w : World) (domain : Text) (staged : Staged) where
  -- The files of a generation, with its manifest.
  Holds : List (Text × Text) → Text → GenerationManifest → DomainDir → Type 0
  Holds files g m t =
      (contents : List (Text × Node)) × IsInstalled w g contents t
      × IsWritten (formats.encode_manifest m) files contents

  install-Holds :
      (files : List (Text × Text)) (g : Text) (s : DomainDir)
      → IsFolder s.releases
      → OnSuccess (Holds files g) (Publish.install crypto formats w domain g staged files s)
  unfolding Publish.install Publish.with_generation Holds
  install-Holds files g s h =
      then-OnSuccess (Holds files g) (inspect (prepare crypto formats w domain g staged files))
        (λ p. modify (Publish.with_generation w g p.1) >> (Publish.finish w g >> return p.0)) s
        (λ p made.
          let s' = Publish.with_generation w g p.1 s in
          with_value p (prepare-IsWritten crypto formats w domain g staged files s p made)
            (Publish.finish w g s')
            (finish-IsInstalled w g p.1 s' (lookup-with_generation g w.temporary _ s.releases h)))
    where
      with_value :
          (p : GenerationManifest × List (Text × Node))
          → IsWritten (formats.encode_manifest p.0) files p.1
          → (out : DomainDir × Checked (Unit {0}))
          → OnSuccess (λ (_ : Unit {0}) t. IsInstalled w g p.1 t) out
          → OnSuccess (Holds files g) (next (λ _. return p.0) out)
      with_value p k (t, ok u) i = (p.1, i, k)
      with_value p k (t, err e) i = tt

  with_temporary-IsFolder :
      (s : DomainDir) → IsFolder s.releases → IsFolder (Publish.with_temporary w s).releases
  unfolding Publish.with_temporary
  with_temporary-IsFolder s h = on_folder-IsFolder _ s.releases h

  -- The same of what `publish` returns.
  Placed : List (Text × Text) → Text × GenerationManifest → DomainDir → Type 0
  Placed files (g, m) t = Holds files g m t

  paired :
      (files : List (Text × Text)) (g : Text) (out : DomainDir × Checked GenerationManifest)
      → OnSuccess (Holds files g) out
      → OnSuccess
          (λ (p : Text × GenerationManifest) t. (p.0 ≡ g) × Placed files p t)
          (next (λ m. return (g, m)) out)
  unfolding Placed
  paired files g (t, ok m) h = (refl, h)
  paired files g (t, err e) h = tt

  place-Placed :
      (files : List (Text × Text)) (g : Text) (s : DomainDir)
      → IsFolder s.releases
      → OnSuccess
          (λ (p : Text × GenerationManifest) t. (p.0 ≡ g) × Placed files p t)
          (Publish.place crypto formats w domain staged files g s)
  unfolding Publish.place
  place-Placed files g s h =
      let P : Text × GenerationManifest → DomainDir → Type 0 =
        λ p t. (p.0 ≡ g) × Placed files p t in
      let installing : Storing GenerationManifest =
        Publish.or_remove w w.temporary (Publish.install crypto formats w domain g staged files) in
      let last : Storing (Text × GenerationManifest) = installing >>= λ m. return (g, m) in
      let checking : Storing (Unit {0}) =
        Publish.or_remove w w.temporary (lift (call w chmod_temporary)) in
      then-OnSuccess P (lift (call w make_temporary))
        (λ _. modify (Publish.with_temporary w) >> (checking >> last)) s
        (λ _ _.
          let s' = Publish.with_temporary w s in
          then-OnSuccess P checking (λ _. last) s'
            (λ u checked.
              let s'' = (checking s').0 in
              let same : s'' ≡ s' =
                removed-same w g [] w.temporary (lift (call w chmod_temporary) s') u checked in
              let there : IsFolder s''.releases =
                subst (λ (d : DomainDir). IsFolder d.releases) (sym same)
                  (with_temporary-IsFolder s h) in
              paired files g (installing s'') (
                removed-OnSuccess (Holds files g) w w.temporary
                  (Publish.install crypto formats w domain g staged files s'')
                  (install-Holds files g s'' there))))

  -- What a publication that succeeds did: it drew an id that no entry had, wrote the staged files and
  -- their manifest under it, and made it current.
  pub record IsPublished (s : DomainDir) (p : Text × GenerationManifest) (t : DomainDir)
      : Type 0 where
    pub files : List (Text × Text)
    pub staged_ok : staged.files ≡ ok files
    pub fresh : released p.0 s ≡ none
    pub named : t.current ≡ link (release_target p.0)
    pub contents : List (Text × Node)
    pub held : released p.0 t ≡ some (directory contents)
    pub written : IsWritten (formats.encode_manifest p.1) files contents

  place_new-IsPublished :
      (files : List (Text × Text)) (safe : Text) (s r : DomainDir)
      → staged.files ≡ ok files
      → entries_of s.releases ≡ entries_of r.releases
      → IsFolder s.releases
      → OnSuccess (IsPublished r) (Publish.place_new crypto formats w domain staged files safe s)
  unfolding Publish.place_new Placed Holds
  place_new-IsPublished files safe s r ready same there =
      let search_id : Storing Text =
        inspect (λ d. new_generation_path w 8 w.drawn (entries_of d.releases)) in
      then-OnSuccess (IsPublished r)
        (inspect (λ d. if_found (current_state crypto formats w safe d)))
        (λ _. search_id >>= λ g. Publish.place crypto formats w domain staged files g) s
        (λ _ _.
          then-OnSuccess (IsPublished r) search_id
            (λ g. Publish.place crypto formats w domain staged files g) s
            (λ g found.
              published files g r
                (ap (λ es. lookup g es) (sym same)
                  ∙ new_generation_path-fresh w 8 w.drawn (entries_of s.releases) g found)
                ready (Publish.place crypto formats w domain staged files g s)
                (place-Placed files g s there)))
    where
      published :
          (fs : List (Text × Text)) (g : Text) (d : DomainDir)
          → released g d ≡ none
          → staged.files ≡ ok fs
          → (out : DomainDir × Checked (Text × GenerationManifest))
          → OnSuccess (λ (p : Text × GenerationManifest) t. (p.0 ≡ g) × Placed fs p t) out
          → OnSuccess (IsPublished d) out
      published fs g d free k (t, err e) h = tt
      published fs g d free k (t, ok (g', m)) (e, (contents, installed, written)) = record {
        files = fs;
        staged_ok = k;
        fresh = rw e free;
        named = installed.named;
        contents = contents;
        held = installed.held;
        written = written;
      }

  make_domain_paths-IsFolder :
      (s : DomainDir)
      → OnSuccess
          (λ (_ : Text) (t : DomainDir). IsFolder t.releases)
          (Publish.make_domain_paths w domain s)
  unfolding Publish.make_domain_paths Publish.with_releases
  make_domain_paths-IsFolder s =
      let P : Text → DomainDir → Type 0 = λ _ t. IsFolder t.releases in
      let look : Storing (Unit {0}) =
        inspect (λ d. Publish.no_entries (assert_folder d.releases)) in
      then-OnSuccess P (lift (make_domain_directory w domain))
        (λ safe. modify Publish.with_releases >> (look >> return safe)) s
        (λ safe _.
          let s' = Publish.with_releases s in
          then-OnSuccess P look (λ _. return safe) s'
            (λ u seen. assert-IsFolder s'.releases u seen))

  -- A publication that succeeds has stored the staged files and their manifest under an id that no
  -- entry had, and made that id the current one.
  pub publish-IsPublished :
      (s : DomainDir) → OnSuccess (IsPublished s) (Publish.publish crypto formats w domain staged s)
  unfolding Publish.publish Publish.publish_files
  publish-IsPublished s =
      then-OnSuccess (IsPublished s) (lift staged.files)
        (λ files. Publish.publish_files crypto formats w domain staged files) s
        (λ files ready.
          then-OnSuccess (IsPublished s) (Publish.make_domain_paths w domain)
            (λ safe. Publish.place_new crypto formats w domain staged files safe) s
            (λ safe made.
              place_new-IsPublished files safe (Publish.make_domain_paths w domain s).0 s ready
                (make_domain_paths-entries w domain s)
                (success-by (λ (_ : Text) (t : DomainDir). IsFolder t.releases)
                  (Publish.make_domain_paths w domain s) safe made (make_domain_paths-IsFolder s))))
