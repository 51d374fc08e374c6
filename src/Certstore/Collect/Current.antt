-- ===== src/Certstore/Collect/Current.antt =====
-- The generation that `current` names outlives a collection.
use cert_keeper.Prelude.{
  inl, Text, text_eq, Option, some, ok, err, ◌>>=◌, >>=-eq-ok, >>-eq-ok, List, ◌≡◌, refl, ap, ◌∙◌,
}
use cert_keeper.Prelude.Trim.{trim_space}
use cert_keeper.Client.Certificate.{Crypto}
use cert_keeper.Client.Read.{lookup}
use cert_keeper.Certstore.{
  StoreFailure, Entry, DomainDir, World, Call, stat_entry, stat_current, read_current, call,
  Checked, Pointer, absent, link, regular, special, open_entry, entries_of, validate_generation,
}
use cert_keeper.Certstore.Entries.{released}
use cert_keeper.Certstore.Manifest.{Formats, load_generation}
use cert_keeper.Certstore.Read
use cert_keeper.Certstore.Collect
use cert_keeper.Certstore.Collect.Laws.{SameBeside, collected-IsCollected, planned-protected}

open_entry-same :
    (w : World) (stat : Text → Call) (name : Text) (es fs : List (Text × Entry))
    → lookup name fs ≡ lookup name es
    → open_entry w stat name fs ≡ open_entry w stat name es
unfolding open_entry
open_entry-same w stat name es fs h = rw h refl

find_generation-same :
    (w : World) (g : Text) (s t : DomainDir)
    → released g t ≡ released g s
    → t.legacy ≡ s.legacy
    → Read.find_generation w g t ≡ Read.find_generation w g s
unfolding Read.find_generation open_entry
find_generation-same w g s t h l = rw (h, l) refl

module _ {Certificate Key : Type 0} (crypto : Crypto Certificate Key)
    (formats : Formats Certificate) (w : World) where
  named_state-same :
      (safe : Text) (p : Pointer) (s t : DomainDir) (g : Text) (place : Read.Place)
      → Read.named_state crypto formats w safe p s ≡ ok (g, place)
      → released g t ≡ released g s
      → t.legacy ≡ s.legacy
      → Read.named_state crypto formats w safe p t ≡ ok (g, place)
  unfolding Read.named_state
  named_state-same safe absent s t g place h r l = cc
  named_state-same safe special s t g place h r l = cc
  named_state-same safe (link target) s t g place h r l =
      let (g', link_ok, rest) = >>=-eq-ok (Read.read_current_link w target) _ h in
      let (files, open_ok, rest') =
        >>=-eq-ok (open_entry w stat_entry g' (entries_of s.releases)) _ rest in
      let (loaded, load_ok, end) =
        >>=-eq-ok (load_generation crypto formats w safe g' files) _ rest' in
      let same : g' ≡ g = cc in
      let r' : released g' t ≡ released g' s = rw same r in
      rw (link_ok, open_entry-same w stat_entry g' _ _ r', open_ok, load_ok) end
  named_state-same safe (regular content) s t g place h r l =
      let (read_ok, rest) = >>-eq-ok (call w read_current) _ h in
      let (valid_ok, rest') = >>-eq-ok (validate_generation (trim_space content)) _ rest in
      let (found, find_ok, rest'') =
        >>=-eq-ok (Read.find_generation w (trim_space content) s) _ rest' in
      let (loaded, load_ok, end) =
        >>=-eq-ok (load_generation crypto formats w safe (trim_space content) found.1) _ rest'' in
      let same : trim_space content ≡ g = cc in
      let r' : released (trim_space content) t ≡ released (trim_space content) s = rw same r in
      rw (read_ok, valid_ok, find_generation-same w (trim_space content) s t r' l, find_ok, load_ok)
        end

  -- What `current` names is the same in two directories that hold the same under its name.
  current_state-same :
      (safe : Text) (s t : DomainDir) (g : Text) (place : Read.Place)
      → Read.current_state crypto formats w safe s ≡ ok (g, place)
      → released g t ≡ released g s
      → SameBeside s t
      → Read.current_state crypto formats w safe t ≡ ok (g, place)
  unfolding Read.current_state
  current_state-same safe s t g place h r b =
      let (stat_ok, rest) = >>-eq-ok (call w stat_current) _ h in
      rw stat_ok (
        ap (λ (p : Pointer). Read.named_state crypto formats w safe p t) b.current
        ∙ named_state-same safe s.current s t g place rest r b.legacy)

  named_by :
      (g : Text) (place : Read.Place) (d : DomainDir) (safe : Text) (current : Option Text)
      → Read.current_state crypto formats w safe d ≡ ok (g, place)
      → Collect.current_or_none (Read.current_state crypto formats w safe d >>= λ found. ok found.0)
        ≡ ok current
      → current ≡ some g
  named_by g place d safe current c h = let h' = rw c at h in cc

  -- The plan knows the generation that `current` names.
  plan-current :
      (domain : Text) (o : Collect.GcOptions) (d : DomainDir) (safe g : Text) (place : Read.Place)
      (plan : Collect.Plan crypto formats w)
      → Collect.plan_collection crypto formats w domain o d ≡ ok plan
      → Read.domain_paths w domain d ≡ ok safe
      → Read.current_state crypto formats w safe d ≡ ok (g, place)
      → plan.current ≡ some g
  unfolding Collect.plan_collection
  plan-current domain o d safe g place plan h p c =
      let (protected, protected_ok, rest) = >>=-eq-ok (Collect.protected_by o) _ h in
      let (safe', path_ok, rest') = >>=-eq-ok (Read.domain_paths w domain d) _ rest in
      let (current, current_ok, rest'') =
        >>=-eq-ok
          (Collect.current_or_none
            (Read.current_state crypto formats w safe' d >>= λ found. ok found.0))
          _ rest' in
      let (found, found_ok, end) =
        >>=-eq-ok (Collect.listed crypto formats w domain d.releases) _ rest'' in
      let same : safe' ≡ safe = cc in
      let named : current ≡ some g = named_by g place d safe' current (rw same c) current_ok in cc

  collected_err :
      (o : Collect.GcOptions) (d : DomainDir) (e : StoreFailure)
      → (Collect.collected crypto formats w o d (err e)).0 ≡ d
  unfolding Collect.collected
  collected_err o d e = refl

  collected-current :
      (domain : Text) (o : Collect.GcOptions) (d : DomainDir) (safe g : Text) (place : Read.Place)
      → Read.domain_paths w domain d ≡ ok safe
      → Read.current_state crypto formats w safe d ≡ ok (g, place)
      → (r : Checked (Collect.Plan crypto formats w))
      → Collect.plan_collection crypto formats w domain o d ≡ r
      → Read.current_state crypto formats w safe (Collect.collected crypto formats w o d r).0
        ≡ ok (g, place)
  collected-current domain o d safe g place p c (err e) h = rw (collected_err o d e) c
  collected-current domain o d safe g place p c (ok plan) h =
      let known = plan-current domain o d safe g place plan h p c in
      let after =
        collected-IsCollected crypto formats w o d plan
          (planned-protected crypto formats w domain o d plan h) in
      current_state-same safe d _ g place c (after.spared g (inl known)) after.beside

  -- Where `current` names a generation that loads, it names the same one, which still loads, after a
  -- collection, whatever the options and whichever calls fail.
  pub collect-current_state :
      (domain : Text) (o : Collect.GcOptions) (d : DomainDir) (safe g : Text) (place : Read.Place)
      → Read.domain_paths w domain d ≡ ok safe
      → Read.current_state crypto formats w safe d ≡ ok (g, place)
      → Read.current_state crypto formats w safe
          (Collect.garbage_collect crypto formats w domain o d).0
        ≡ ok (g, place)
  unfolding Collect.garbage_collect
  collect-current_state domain o d safe g place p c =
      collected-current domain o d safe g place p c _ refl
