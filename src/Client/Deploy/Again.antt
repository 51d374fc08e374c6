-- ===== src/Client/Deploy/Again.antt =====
-- What a deployment that was verified has done, and what the next one of the generation does.
use cert_keeper.Prelude.{
  Text, Bool, true, false, text_eq, Option, none, some, ok, err, ◌≡◌, ◌≢◌, refl, ◌⊎◌, inl, inr,
  arith, ap, sym, ◌∙◌, >>-eq-ok, text_beq_iff, ==_refl,
}
use cert_keeper.Client.Tree.{
  Tree, Current, absent, link, regular, special, World, Release, stat_current, Checked,
}
use cert_keeper.Client.Certificate.{Crypto}
use cert_keeper.Client.Read.{
  release_target, lookup, read_deployment_current, read_named, generation_of_target, call,
}
use cert_keeper.Client.Current.{restore_deployment_current}
use cert_keeper.Client.Stage.{GenerationDeployOpts, publish}
use cert_keeper.Client.Stage.Published.{IsPublished, publish-Switched}
use cert_keeper.Client.Deploy
use cert_keeper.Client.Deploy.Laws.{by_cases, prepare-ok, read-some}

read_named_unique :
    (w v : World) (c : Current) (a b : Option Text)
    → read_named w c ≡ ok a
    → read_named v c ≡ ok b
    → b ≡ a
unfolding read_named generation_of_target
read_named_unique w v absent a b h k = ground arith
read_named_unique w v (link target) a b h k = ground arith
read_named_unique w v (regular content) a b h k = ground arith
read_named_unique w v special a b h k = cc

read_unique :
    (w v : World) (t : Tree) (a b : Option Text)
    → read_deployment_current w t ≡ ok a
    → read_deployment_current v t ≡ ok b
    → b ≡ a
unfolding read_deployment_current
read_unique w v t a b h k =
    read_named_unique w v t.current a b
      (>>-eq-ok (call w stat_current) (read_named w t.current) h).1
      (>>-eq-ok (call v stat_current) (read_named v t.current) k).1

is_same_sound : (o : Option Text) (g : Text) → Deploy.is_same o g ≡ true → o ≡ some g
is_same_sound none g h = cc
is_same_sound (some p) g h = ap some ((text_beq_iff p g).0 h)

-- The generation is valid, and `current` names it as far as it is readable.
abbrev pub Names : Text → Tree → Type 0
Names g t =
    (w : World) (previous : Option Text)
    → read_deployment_current w t ≡ ok previous
    → previous ≡ some g

rolled_back-verified :
    (g : Text) (e : Text) (out : Tree × Checked (Unit {0}))
    → (Deploy.rolled_back (Deploy.new_report g) e out).report.verified ≡ false
unfolding Deploy.new_report Deploy.deployment_failure
rolled_back-verified g e (t, ok u) = refl
rolled_back-verified g e (t, err f) = refl

after_reload-tree :
    (opts : GenerationDeployOpts) (r : Deploy.Report) (t : Tree) (o : Option Text)
    → (Deploy.after_reload opts r t o).tree ≡ t
after_reload-tree opts r t none = refl
after_reload-tree opts r t (some e) = refl

-- A verified report leaves the directory as the switch made it.
after_verify-verified :
    (w : World) (opts : GenerationDeployOpts) (previous : Option Text) (t : Tree) (o : Option Text)
    → (Deploy.after_verify w opts previous t o).report.verified ≡ true
    → (Deploy.after_verify w opts previous t o).tree ≡ t
unfolding Deploy.reload_release
after_verify-verified w opts previous t none h =
    after_reload-tree opts (Deploy.verified_report opts.generation) t
      (Deploy.run_command opts.reload t)
after_verify-verified w opts previous t (some e) h = absurd (
    false_not_true
      (rolled_back-verified opts.generation e (restore_deployment_current w previous t)) h)
  where
    false_not_true : {b : Bool} → b ≡ false → b ≡ true → ⊥
    false_not_true f t = cc

none_not_some : {A : Type 0} {a : A} → none ≡ some a → ⊥
none_not_some h = cc

module _ {Certificate Key : Type 0} (crypto : Crypto Certificate Key) (w : World)
    (opts : GenerationDeployOpts) where
  skips :
      (v : World) (again : GenerationDeployOpts) (u : Tree) (previous : Option Text) (g : Text)
      → Deploy.prepare v again u ≡ ok previous
      → previous ≡ some g
      → again.generation ≡ g
      → Deploy.deploy_generation crypto v again u ≡ Deploy.deployed u (Deploy.skipped_report g) none
  unfolding Deploy.deploy_generation
  skips v again u previous g p q same = rw (p, q, same, ==_refl g) refl

  verified-Names :
      (t : Tree)
      → (Deploy.deploy_generation crypto w opts t).report.verified ≡ true
      → Names opts.generation (Deploy.deploy_generation crypto w opts t).tree
  unfolding Deploy.refused Deploy.verify_release Deploy.deployment_failure Deploy.new_report
  verified-Names t =
      let s = publish-Switched crypto w opts t in
      let u = (publish crypto w opts t).0 in
      by_cases crypto w opts (λ d. d.report.verified ≡ true → Names opts.generation d.tree) t
        (λ e h. cc)
        (λ previous p same h v q k.
          read_unique w v t previous q (prepare-ok w opts t previous p).1 k
          ∙ is_same_sound previous opts.generation same)
        (λ e _ h. cc)
        (λ previous p _ done h v q k.
          read-some v u opts.generation q (s.current done) (prepare-ok w opts t previous p).0 (
            ap (read_deployment_current v)
              (sym (after_verify-verified w opts previous u (Deploy.run_command opts.verify u) h))
            ∙ k))

  -- If the report of a deployment is verified, be it that the reload failed, then the next
  -- deployment of the generation that can read `current` changes nothing and reports that it was
  -- skipped, verified and reloaded, whatever its commands are.
  pub deploy-verified_once :
      (t : Tree) (v : World) (again : GenerationDeployOpts) (previous : Option Text)
      → (Deploy.deploy_generation crypto w opts t).report.verified ≡ true
      → again.generation ≡ opts.generation
      → Deploy.prepare v again (Deploy.deploy_generation crypto w opts t).tree ≡ ok previous
      → Deploy.deploy_generation crypto v again (Deploy.deploy_generation crypto w opts t).tree
        ≡ Deploy.deployed
            (Deploy.deploy_generation crypto w opts t).tree
            (Deploy.skipped_report opts.generation)
            none
  deploy-verified_once t v again previous h same p =
      let q = verified-Names t h v previous (prepare-ok v again _ previous p).1 in
      skips v again _ previous opts.generation p q same

  -- What a deployment that succeeds has done.
  pub record IsDeployed (s t : Tree) : Type 0 where
    pub current : t.current ≡ link (release_target opts.generation)
    pub published : IsPublished crypto w opts s t
    pub verified : Deploy.run_command opts.verify t ≡ none
    pub reloaded : Deploy.run_command opts.reload t ≡ none

  reload-succeeded :
      (r : Deploy.Report) (s t : Tree) (o : Option Text)
      → Deploy.run_command opts.reload t ≡ o
      → Deploy.run_command opts.verify t ≡ none
      → t.current ≡ link (release_target opts.generation)
      → IsPublished crypto w opts s t
      → (Deploy.after_reload opts r t o).error ≡ none
      → IsDeployed s (Deploy.after_reload opts r t o).tree
  reload-succeeded r s t none e v c p h = record {
    current = c;
    published = p;
    verified = v;
    reloaded = e;
  }
  reload-succeeded r s t (some x) e v c p h = cc

  rolled_back-error :
      (r : Deploy.Report) (e : Text) (out : Tree × Checked (Unit {0}))
      → (Deploy.rolled_back r e out).error ≢ none
  rolled_back-error r e (t, ok u) = λ h. cc
  rolled_back-error r e (t, err f) = λ h. cc

  verify-succeeded :
      (previous : Option Text) (s t : Tree) (o : Option Text)
      → Deploy.run_command opts.verify t ≡ o
      → t.current ≡ link (release_target opts.generation)
      → IsPublished crypto w opts s t
      → (Deploy.after_verify w opts previous t o).error ≡ none
      → IsDeployed s (Deploy.after_verify w opts previous t o).tree
  unfolding Deploy.reload_release
  verify-succeeded previous s t none e c p h =
      reload-succeeded (Deploy.verified_report opts.generation) s t
        (Deploy.run_command opts.reload t) refl e c p h
  verify-succeeded previous s t (some x) e c p h = absurd (
      rolled_back-error (Deploy.new_report opts.generation) x
        (restore_deployment_current w previous t) h)

  -- The two ways to return without an error.
  abbrev pub Succeeds : Tree → Deploy.Deployed → Type 0
  Succeeds t d =
      ((read_deployment_current w t ≡ ok (some opts.generation))
        × (d ≡ Deploy.deployed t (Deploy.skipped_report opts.generation) none))
      ⊎ ((read_deployment_current w t ≢ ok (some opts.generation)) × IsDeployed t d.tree)

  differs :
      (r : Checked (Option Text)) (previous : Option Text)
      → r ≡ ok previous
      → Deploy.is_same previous opts.generation ≡ false
      → r ≢ ok (some opts.generation)
  differs r none e n h = let clash = sym e ∙ h in cc
  differs r (some p) e n h =
      let clash = sym e ∙ h in
      let same : p ≡ opts.generation = cc in
      let equal = (text_beq_iff p opts.generation).1 same in false_or_true n equal
    where
      false_or_true : {b : Bool} → b ≡ false → b ≡ true → ⊥
      false_or_true f t = cc

  -- Where DeployGeneration returns no error, one of two things has happened. `current` named the
  -- generation before, and it changed nothing and reports that it was skipped; or `current` did
  -- not name it, and now is a link to the generation, whose release is new and holds exactly what
  -- was staged for it, one file for each fixed name, with the size and the SHA-256 digest that the
  -- manifest gives, and a certificate to serve (the leaf is in its time and covers the names, and
  -- the key is its own), and the commands to verify and to reload, where they are given, have
  -- succeeded on that directory.
  pub deploy-success :
      (t : Tree)
      → (Deploy.deploy_generation crypto w opts t).error ≡ none
      → Succeeds t (Deploy.deploy_generation crypto w opts t)
  unfolding Deploy.refused Deploy.verify_release
  deploy-success t =
      let s = publish-Switched crypto w opts t in
      let u = (publish crypto w opts t).0 in
      by_cases crypto w opts (λ d. d.error ≡ none → Succeeds t d) t (λ e h. cc)
        (λ previous p same _. inl (
          (prepare-ok w opts t previous p).1 ∙ ap ok (is_same_sound previous opts.generation same),
          refl,
        ))
        (λ e _ h. cc)
        (λ previous p n done h. inr (
          differs (read_deployment_current w t) previous (prepare-ok w opts t previous p).1 n,
          verify-succeeded previous t u (Deploy.run_command opts.verify u) refl (s.current done)
              (s.published done) h,
        ))

  -- If there is a release of the generation, a deployment of it without an error changed nothing
  -- and was skipped.
  pub deploy-blocked :
      (t : Tree) (r : Release)
      → lookup opts.generation t.releases ≡ some r
      → (Deploy.deploy_generation crypto w opts t).error ≡ none
      → Deploy.deploy_generation crypto w opts t
        ≡ Deploy.deployed t (Deploy.skipped_report opts.generation) none
  deploy-blocked t r there h = elim (deploy-success t h) [
    | inl (_, skip) ↦ skip
    | inr (_, d) ↦ absurd (none_not_some (sym d.published.fresh ∙ there))
  ]
