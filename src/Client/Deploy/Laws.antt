-- ===== src/Client/Deploy/Laws.antt =====
-- What a deployment leaves behind.
use cert_keeper.Prelude.{
  Text, Bool, true, false, text_eq, Option, none, some, ok, err, [], ◌≡◌, refl, ◌⊎◌, inl, inr,
  arith, ap, sym, ◌∙◌, if_by, >>-eq-ok,
}
use mathlib.Core
use mathlib.Core.Path.{subst}
use cert_keeper.Protocol.Deployment.{validate_outcome}
use cert_keeper.Protocol.Identifiers.{validate_generation_id}
use cert_keeper.Client.Tree.{
  Tree, Current, absent, link, regular, special, World, Failure, Release, switching, sync_out,
  stat_current, Checked, directory, command,
}
use cert_keeper.Client.Certificate.{Crypto}
use cert_keeper.Client.Read.{
  release_target, read_deployment_current, read_named, generation_of_target, call,
}
use cert_keeper.Client.Current.{restore_deployment_current}
use cert_keeper.Client.Current.Laws.{restored_to, restore-succeeds, restore-releases, read-link}
use cert_keeper.Client.Stage.{GenerationDeployOpts, publish}
use cert_keeper.Client.Stage.Published.{Grown, publish-Switched}
use cert_keeper.Client.Deploy

-- The report agrees with its state, as the protocol asks of it.
abbrev pub Agrees : (Failure → Text) → Deploy.Report → Type 0
Agrees describe r =
    validate_outcome r.state r.success (Core.Option.map (Deploy.error_response describe) r.failure)
    ≡ ok tt

failure-Agrees :
    (describe : Failure → Text) (r : Deploy.Report) (f : Failure) (again : Bool)
    → Agrees describe (Deploy.deployment_failure r f again)
unfolding Deploy.deployment_failure validate_outcome
failure-Agrees describe r f again = refl

rolled_back-Agrees :
    (describe : Failure → Text) (r : Deploy.Report) (e : Text) (out : Tree × Checked (Unit {0}))
    → Agrees describe (Deploy.rolled_back r e out).report
rolled_back-Agrees describe r e (t, ok u) = failure-Agrees describe r _ false
rolled_back-Agrees describe r e (t, err f) = failure-Agrees describe r _ false

skipped-Agrees : (describe : Failure → Text) (g : Text) → Agrees describe (Deploy.skipped_report g)
unfolding Deploy.skipped_report Deploy.new_report validate_outcome
skipped-Agrees describe g = refl

after_reload-Agrees :
    (describe : Failure → Text) (opts : GenerationDeployOpts) (r : Deploy.Report) (t : Tree)
    (o : Option Text)
    → Agrees describe (Deploy.after_reload opts r t o).report
unfolding Deploy.succeeded_report Deploy.new_report validate_outcome
after_reload-Agrees describe opts r t (some e) = failure-Agrees describe r (command e) true
after_reload-Agrees describe opts r t none = refl

after_verify-Agrees :
    (describe : Failure → Text) (w : World) (opts : GenerationDeployOpts) (previous : Option Text)
    (t : Tree) (o : Option Text)
    → Agrees describe (Deploy.after_verify w opts previous t o).report
unfolding Deploy.reload_release
after_verify-Agrees describe w opts previous t (some e) =
    rolled_back-Agrees describe _ e (restore_deployment_current w previous t)
after_verify-Agrees describe w opts previous t none =
    after_reload-Agrees describe opts (Deploy.verified_report opts.generation) t
      (Deploy.run_command opts.reload t)

-- A rollback leaves the releases alone, and `current` as it was before the switch.
rolled_back-tree :
    (r : Deploy.Report) (e : Text) (out : Tree × Checked (Unit {0}))
    → (Deploy.rolled_back r e out).tree ≡ out.0
rolled_back-tree r e (t, ok u) = refl
rolled_back-tree r e (t, err f) = refl

after_reload-tree :
    (opts : GenerationDeployOpts) (r : Deploy.Report) (t : Tree) (o : Option Text)
    → (Deploy.after_reload opts r t o).tree ≡ t
after_reload-tree opts r t none = refl
after_reload-tree opts r t (some e) = refl

after_verify-releases :
    (w : World) (opts : GenerationDeployOpts) (previous : Option Text) (t : Tree) (o : Option Text)
    → (Deploy.after_verify w opts previous t o).tree.releases ≡ t.releases
unfolding Deploy.reload_release
after_verify-releases w opts previous t none =
    ap (λ u. u.releases)
      (after_reload-tree opts (Deploy.verified_report opts.generation) t
        (Deploy.run_command opts.reload t))
after_verify-releases w opts previous t (some e) =
    ap (λ u. u.releases) (rolled_back-tree _ e (restore_deployment_current w previous t))
    ∙ restore-releases w previous t

pub prepare-ok :
    (w : World) (opts : GenerationDeployOpts) (t : Tree) (previous : Option Text)
    → Deploy.prepare w opts t ≡ ok previous
    → (validate_generation_id opts.generation ≡ ok tt) × (read_deployment_current w t ≡ ok previous)
unfolding Deploy.prepare
prepare-ok w opts t previous h = ground arith

read_named-none : (w : World) (c : Current) → read_named w c ≡ ok none → c ≡ absent
unfolding read_named generation_of_target
read_named-none w absent h = refl
read_named-none w (link target) h = ground arith
read_named-none w (regular content) h = ground arith
read_named-none w special h = cc

read-none : (w : World) (t : Tree) → read_deployment_current w t ≡ ok none → t.current ≡ absent
unfolding read_deployment_current
read-none w t h =
    read_named-none w t.current (>>-eq-ok (call w stat_current) (read_named w t.current) h).1

pub read-some :
    (w : World) (t : Tree) (g : Text) (previous : Option Text)
    → t.current ≡ link (release_target g)
    → validate_generation_id g ≡ ok tt
    → read_deployment_current w t ≡ ok previous
    → previous ≡ some g
unfolding read_deployment_current
read-some w t g previous e v h =
    read-link w g v
      (ap (read_named w) (sym e) ∙ (>>-eq-ok (call w stat_current) (read_named w t.current) h).1)

-- What names the generation that was current.
abbrev pub Restored : World → Tree → Current → Type 0
Restored w t c =
    (c ≡ t.current)
    ⊎ ((previous : Text) × (read_deployment_current w t ≡ ok (some previous))
        × (c ≡ link (release_target previous)))

previous-Restored :
    (w : World) (t : Tree) (previous : Option Text) (c : Current)
    → read_deployment_current w t ≡ ok previous
    → c ≡ restored_to previous
    → Restored w t c
previous-Restored w t none c h e = inl (e ∙ sym (read-none w t h))
previous-Restored w t (some g) c h e = inr (g, h, e)

-- What is `current` beside an error.
abbrev pub IsAfter :
    World → GenerationDeployOpts → Tree → Option Deploy.DeployError → Current → Type 0
IsAfter w opts t none c = Unit
IsAfter w opts t (some (Deploy.plain f)) c = Restored w t c
IsAfter w opts t (some (Deploy.retryable f)) c = c ≡ link (release_target opts.generation)
IsAfter w opts t (some (Deploy.not_restored f g)) c = Unit

after_reload-IsAfter :
    (w : World) (opts : GenerationDeployOpts) (t u : Tree) (r : Deploy.Report) (o : Option Text)
    → u.current ≡ link (release_target opts.generation)
    → IsAfter w opts t
        (Deploy.after_reload opts r u o).error
        (Deploy.after_reload opts r u o).tree.current
after_reload-IsAfter w opts t u r none h = tt
after_reload-IsAfter w opts t u r (some e) h = h

rolled_back-IsAfter :
    (w : World) (opts : GenerationDeployOpts) (t : Tree) (r : Deploy.Report) (e : Text)
    (previous : Option Text) (out : Tree × Checked (Unit {0}))
    → read_deployment_current w t ≡ ok previous
    → (out.1 ≡ ok tt → out.0.current ≡ restored_to previous)
    → IsAfter w opts t (Deploy.rolled_back r e out).error (Deploy.rolled_back r e out).tree.current
rolled_back-IsAfter w opts t r e previous (u, ok x) read h =
    previous-Restored w t previous u.current read (h refl)
rolled_back-IsAfter w opts t r e previous (u, err f) read h = tt

after_verify-IsAfter :
    (w : World) (opts : GenerationDeployOpts) (t : Tree) (previous : Option Text) (u : Tree)
    (o : Option Text)
    → read_deployment_current w t ≡ ok previous
    → u.current ≡ link (release_target opts.generation)
    → IsAfter w opts t
        (Deploy.after_verify w opts previous u o).error
        (Deploy.after_verify w opts previous u o).tree.current
unfolding Deploy.reload_release
after_verify-IsAfter w opts t previous u none read h =
    after_reload-IsAfter w opts t u (Deploy.verified_report opts.generation)
      (Deploy.run_command opts.reload u) h
after_verify-IsAfter w opts t previous u (some e) read h =
    rolled_back-IsAfter w opts t (Deploy.new_report opts.generation) e previous
      (restore_deployment_current w previous u) read (restore-succeeds w previous u)

module _ {Certificate Key : Type 0} (crypto : Crypto Certificate Key) (w : World)
    (opts : GenerationDeployOpts) where
  published_by {ℓ} :
      (P : Deploy.Deployed → Type ℓ) (previous : Option Text) (out : Tree × Checked (Unit {0}))
      → ((e : Failure)
          → out.1 ≡ err e
          → P (Deploy.refused out.0 (Deploy.new_report opts.generation) e))
      → (out.1 ≡ ok tt → P (Deploy.verify_release w opts previous out.0))
      → P (Deploy.after_publish crypto w opts previous out)
  published_by P previous (u, ok x) failed done = done refl
  published_by P previous (u, err e) failed done = failed e refl

  prepared_by {ℓ} :
      (P : Deploy.Deployed → Type ℓ) (t : Tree) (r : Checked (Option Text))
      → ((e : Failure) → P (Deploy.refused t (Deploy.new_report opts.generation) e))
      → ((previous : Option Text)
          → r ≡ ok previous
          → P (Deploy.after_prepare crypto w opts t (ok previous)))
      → P (Deploy.after_prepare crypto w opts t r)
  prepared_by P t (err e) refused next = refused e
  prepared_by P t (ok previous) refused next = next previous refl

  -- A property of what is returned, by the ways to return.
  pub by_cases {ℓ} :
      (P : Deploy.Deployed → Type ℓ) (t : Tree)
      → ((e : Failure) → P (Deploy.refused t (Deploy.new_report opts.generation) e))
      → ((previous : Option Text)
          → Deploy.prepare w opts t ≡ ok previous
          → Deploy.is_same previous opts.generation ≡ true
          → P (Deploy.deployed t (Deploy.skipped_report opts.generation) none))
      → ((e : Failure)
          → (publish crypto w opts t).1 ≡ err e
          → P (Deploy.refused (publish crypto w opts t).0 (Deploy.new_report opts.generation) e))
      → ((previous : Option Text)
          → Deploy.prepare w opts t ≡ ok previous
          → Deploy.is_same previous opts.generation ≡ false
          → (publish crypto w opts t).1 ≡ ok tt
          → P (Deploy.verify_release w opts previous (publish crypto w opts t).0))
      → P (Deploy.deploy_generation crypto w opts t)
  unfolding Deploy.deploy_generation
  by_cases P t refused same failed done =
      prepared_by P t (Deploy.prepare w opts t) refused (λ previous p.
        if_by P (Deploy.is_same previous opts.generation) (same previous p)
          (λ n. published_by P previous (publish crypto w opts t) failed (done previous p n)))

  -- Whatever fails, and whatever text describes the failure, the state, the success and the error
  -- of the report are such as DeploymentReport.Validate demands.
  pub deploy_generation-Agrees :
      (describe : Failure → Text) (t : Tree)
      → Agrees describe (Deploy.deploy_generation crypto w opts t).report
  unfolding Deploy.refused Deploy.verify_release
  deploy_generation-Agrees describe t =
      by_cases (λ d. Agrees describe d.report) t
        (λ e. failure-Agrees describe (Deploy.new_report opts.generation) e false)
        (λ previous _ _. skipped-Agrees describe opts.generation)
        (λ e _. failure-Agrees describe (Deploy.new_report opts.generation) e false)
        (λ previous _ _ _.
          after_verify-Agrees describe w opts previous (publish crypto w opts t).0
            (Deploy.run_command opts.verify (publish crypto w opts t).0))

  -- Whatever fails, DeployGeneration leaves the releases as they are, or adds one of its
  -- generation, of which there was none.
  pub deploy_generation-Grown :
      (t : Tree)
      → (r : Release) × Grown opts.generation r t.releases
          (Deploy.deploy_generation crypto w opts t).tree.releases
  unfolding Deploy.refused Deploy.verify_release
  deploy_generation-Grown t =
      let s = publish-Switched crypto w opts t in
      let u = (publish crypto w opts t).0 in
      by_cases (λ d. (r : Release) × Grown opts.generation r t.releases d.tree.releases) t
        (λ e. (directory [], inl refl)) (λ _ _ _. (directory [], inl refl))
        (λ e _. (s.release, s.grown))
        (λ previous _ _ _. (
          s.release,
          subst (Grown opts.generation s.release t.releases)
              (sym (after_verify-releases w opts previous u (Deploy.run_command opts.verify u)))
              s.grown,
        ))

  -- Whatever the returned error, if the directory's sync after the switch of `current` does not
  -- fail: after an error that is neither a failed reload nor a failed rollback, `current` is as
  -- before, or a link to the generation that it named before; after a failed reload it is a link
  -- to the new generation. Nothing is said where a rollback fails.
  pub deploy_generation-Restored :
      (t : Tree)
      → w.fails (sync_out switching) ≡ none
      → IsAfter w opts t
          (Deploy.deploy_generation crypto w opts t).error
          (Deploy.deploy_generation crypto w opts t).tree.current
  unfolding Deploy.refused Deploy.verify_release
  deploy_generation-Restored t sync =
      let s = publish-Switched crypto w opts t in
      let u = (publish crypto w opts t).0 in
      by_cases (λ d. IsAfter w opts t d.error d.tree.current) t (λ e. inl refl) (λ _ _ _. tt)
        (λ e h. inl (s.kept e h sync))
        (λ previous p _ done.
          after_verify-IsAfter w opts t previous u (Deploy.run_command opts.verify u)
            (prepare-ok w opts t previous p).1 (s.current done))
