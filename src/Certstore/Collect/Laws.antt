-- ===== src/Certstore/Collect/Laws.antt =====
-- What a collection leaves.
use cert_keeper.Prelude.{
  ℕ, zero, suc, ◌≤◌, Text, Bool, true, false, not, ◌||◌, text_eq, Option, none, some, ok, drop, map,
  List, [], ◌∷◌, ◌++◌, ◌≡◌, ◌≢◌, ◌⊎◌, inl, inr, ==_refl, >>=-eq-ok, ◌>>=◌, ◌∙◌, if_by, if_either,
  refl, ap, arith, text_beq_iff,
}
use cert_keeper.Prelude.Distinct.{member}
use cert_keeper.Prelude.Int.{pos_part}
use cert_keeper.Store.Sql.{order_by}
use cert_keeper.Store.Sql.Laws.{AllPairs}
use cert_keeper.Store.Sql.Order.{order_by-AllPairs}
use cert_keeper.Client.Certificate.{Crypto}
use cert_keeper.Client.Read.{lookup}
use cert_keeper.Certstore.Read.{domain_paths, current_state}
use cert_keeper.Certstore.Collect.Spared.{IsProtected, protected-member, protected_by-ok}
use cert_keeper.Certstore.{Checked, StoreFailure, Entry, DomainDir, World, remove_entry}
use cert_keeper.Certstore.Entries.{released, lookup-without_entry, lookup-leave, lookup-on_folder}
use cert_keeper.Certstore.Manifest.{Formats}
use cert_keeper.Certstore.Publish.{remove_all, removal}
use cert_keeper.Certstore.Collect

lookup-removal :
    (w : World) (x name : Text) (r : Option StoreFailure) (es : List (Text × Entry))
    → name ≢ x
    → lookup name (removal w x r es) ≡ lookup name es
lookup-removal w x name none es n = lookup-without_entry name x es n
lookup-removal w x name (some e) es n = lookup-leave name x (w.left x) es n

-- A removal touches no other entry.
pub remove_all-released :
    (w : World) (x name : Text) (d : DomainDir)
    → name ≢ x
    → released name (remove_all w x d) ≡ released name d
unfolding remove_all
remove_all-released w x name d n =
    lookup-on_folder (removal w x (w.fails (remove_entry x))) name
      (λ es. lookup-removal w x name (w.fails (remove_entry x)) es n) d.releases

-- `current` and the older generations are left alone.
pub record SameBeside (s t : DomainDir) : Type 0 where
  pub current : t.current ≡ s.current
  pub legacy : t.legacy ≡ s.legacy

not_both : (a b c : Bool) → a ≡ false → b ≡ true → (a || not (b || c)) ≡ true → ⊥
not_both a b c p q h = ground arith

SameBeside-trans : (s t u : DomainDir) → SameBeside s t → SameBeside t u → SameBeside s u
SameBeside-trans s t u p q = record {
  current = q.current ∙ p.current;
  legacy = q.legacy ∙ p.legacy;
}

module _ {Certificate Key : Type 0} (crypto : Crypto Certificate Key)
    (formats : Formats Certificate) (w : World) where
  after_remove-released :
      (c : Collect.Candidate) (name : Text) (r : Option StoreFailure)
      (s : DomainDir × Collect.GcResult)
      → name ≢ c.generation
      → released name (Collect.after_remove crypto formats w c r s).0 ≡ released name s.0
  after_remove-released c name none (d, r) n = remove_all-released w c.generation name d n
  after_remove-released c name (some e) (d, r) n = remove_all-released w c.generation name d n

  after_remove-SameBeside :
      (c : Collect.Candidate) (r : Option StoreFailure) (s : DomainDir × Collect.GcResult)
      → SameBeside s.0 (Collect.after_remove crypto formats w c r s).0
  unfolding remove_all
  after_remove-SameBeside c none (d, r) = record { current = refl; legacy = refl }
  after_remove-SameBeside c (some e) (d, r) = record { current = refl; legacy = refl }

  -- The generations that the rule does not keep.
  abbrev pub beyond : ℕ → List Collect.Candidate → List Text
  beyond keep cs = map (λ (c : Collect.Candidate). c.generation) (drop keep cs)

  module _ (current : Option Text) (protected : List Text) where
    -- The loop keeps it, or does not reach it.
    abbrev Stays : ℕ → List Collect.Candidate → Text → Type 0
    Stays keep cs name =
        (Collect.is_kept crypto formats w current protected name
          || not (member name (beyond keep cs)))
        ≡ true

    retain-same :
        (c : Collect.Candidate) (s : DomainDir × Collect.GcResult)
        → (Collect.retain crypto formats w c s).0 ≡ s.0
    retain-same c (d, r) = refl

    other_than :
        (name : Text) (c : Collect.Candidate) (cs : List Collect.Candidate)
        → Stays 0 (c ∷ cs) name
        → Collect.is_kept crypto formats w current protected c.generation ≡ false
        → name ≢ c.generation
    other_than name c cs h k e =
        not_both _ _ _
          (ap (λ (n : Text). Collect.is_kept crypto formats w current protected n) e ∙ k)
          ((text_beq_iff name c.generation).1 e) h

    sweep_one-released :
        (name : Text) (c : Collect.Candidate) (cs : List Collect.Candidate)
        (s : DomainDir × Collect.GcResult)
        → Stays 0 (c ∷ cs) name
        → released name (Collect.sweep_one crypto formats w current protected c s).0
          ≡ released name s.0
    sweep_one-released name c cs s h =
        if_by {A = DomainDir × Collect.GcResult} (λ out. released name out.0 ≡ released name s.0)
          (Collect.is_kept crypto formats w current protected c.generation)
          (λ _. ap (λ (d : DomainDir). released name d) (retain-same c s))
          (λ k. after_remove-released c name _ s (other_than name c cs h k))

    Stays-rest :
        (name : Text) (c : Collect.Candidate) (cs : List Collect.Candidate)
        → Stays 0 (c ∷ cs) name
        → Stays 0 cs name
    Stays-rest name c cs h = ground arith

    sweep-released :
        (name : Text) (keep : ℕ) (cs : List Collect.Candidate) (s : DomainDir × Collect.GcResult)
        → Stays keep cs name
        → released name (Collect.sweep crypto formats w current protected keep cs s).0
          ≡ released name s.0
    unfolding Collect.sweep
    sweep-released name keep [] s h = refl
    sweep-released name (suc keep) (c ∷ cs) s h =
        sweep-released name keep cs (Collect.retain crypto formats w c s) h
        ∙ ap (λ (d : DomainDir). released name d) (retain-same c s)
    sweep-released name zero (c ∷ cs) s h =
        sweep-released name zero cs (Collect.sweep_one crypto formats w current protected c s)
          (Stays-rest name c cs h)
        ∙ sweep_one-released name c cs s h

    sweep_one-SameBeside :
        (c : Collect.Candidate) (s : DomainDir × Collect.GcResult)
        → SameBeside s.0 (Collect.sweep_one crypto formats w current protected c s).0
    sweep_one-SameBeside c (d, r) =
        if_either {A = DomainDir × Collect.GcResult} (λ out. SameBeside d out.0)
          (Collect.is_kept crypto formats w current protected c.generation)
          (record { current = refl; legacy = refl }) (after_remove-SameBeside c _ (d, r))

    sweep-SameBeside :
        (keep : ℕ) (cs : List Collect.Candidate) (s : DomainDir × Collect.GcResult)
        → SameBeside s.0 (Collect.sweep crypto formats w current protected keep cs s).0
    unfolding Collect.sweep
    sweep-SameBeside keep [] s = record { current = refl; legacy = refl }
    sweep-SameBeside (suc keep) (c ∷ cs) (d, r) = sweep-SameBeside keep cs (d, _)
    sweep-SameBeside zero (c ∷ cs) s =
        SameBeside-trans _ _ _ (sweep_one-SameBeside c s)
          (sweep-SameBeside zero cs (Collect.sweep_one crypto formats w current protected c s))

  synced-same :
      (s : DomainDir × Collect.GcResult) (e : Option StoreFailure)
      → (Collect.synced crypto formats w s e).0 ≡ s.0
  synced-same (d, r) none = refl
  synced-same (d, r) (some e) = refl

  -- The plan's candidates, in the order in which the rule keeps them.
  abbrev pub ordered : Collect.Plan crypto formats w → List Collect.Candidate
  ordered plan = order_by Collect.later_candidate plan.found.candidates

  -- The current generation, a protected one, or one that is not beyond those that are kept.
  abbrev pub IsSpared : Collect.GcOptions → Collect.Plan crypto formats w → Text → Type 0
  IsSpared o plan name =
      (plan.current ≡ some name)
      ⊎ IsProtected o name
      ⊎ (member name (beyond (pos_part o.keep_recent) (ordered plan)) ≡ false)

  IsSpared-Stays :
      (o : Collect.GcOptions) (plan : Collect.Plan crypto formats w) (name : Text)
      → plan.protected ≡ Collect.references o ++ Collect.reported o
      → IsSpared o plan name
      → Stays plan.current plan.protected (pos_part o.keep_recent) (ordered plan) name
  IsSpared-Stays o plan name known (inl named) = rw (named, ==_refl name) refl
  IsSpared-Stays o plan name known (inr (inl p)) =
      rw (known, protected-member o name p) (middle _ _)
    where
      middle : (a b : Bool) → ((a || true) || b) ≡ true
      middle a b = ground arith
  IsSpared-Stays o plan name known (inr (inr near)) = rw near (last _)
    where
      last : (a : Bool) → (a || true) ≡ true
      last a = ground arith

  -- What a collection with a plan leaves of a domain's directory.
  pub record IsCollected (o : Collect.GcOptions) (plan : Collect.Plan crypto formats w)
      (s t : DomainDir) : Type 0 where
    pub beside : SameBeside s t
    pub spared : (name : Text) → IsSpared o plan name → released name t ≡ released name s
    pub latest_first :
        AllPairs (λ (a b : Collect.Candidate). b.revision ≤ a.revision) (ordered plan)

  pub collected-IsCollected :
      (o : Collect.GcOptions) (d : DomainDir) (plan : Collect.Plan crypto formats w)
      → plan.protected ≡ Collect.references o ++ Collect.reported o
      → IsCollected o plan d (Collect.collected crypto formats w o d (ok plan)).0
  unfolding Collect.collected
  collected-IsCollected o d plan known =
      let start : DomainDir × Collect.GcResult = (d, plan.found.result) in
      let end : DomainDir × Collect.GcResult =
        Collect.sweep crypto formats w plan.current plan.protected (pos_part o.keep_recent)
          (ordered plan) start in
      let same = synced-same end (Collect.sync_error crypto formats w end.1.removed) in
      record {
        beside = rw same (sweep-SameBeside plan.current plan.protected _ (ordered plan) start);
        spared = λ name h.
            ap (λ (t : DomainDir). released name t) same
            ∙ sweep-released plan.current plan.protected name _ (ordered plan) start
                (IsSpared-Stays o plan name known h);
        latest_first =
            order_by-AllPairs (λ (a b : Collect.Candidate). b.revision ≤ a.revision)
              (λ a b c p q. omega arith) Collect.later_candidate (λ a b e. ground arith)
              (λ a b e. ground arith) plan.found.candidates;
      }

  plan_of_ok :
      (a b : Collect.Plan crypto formats w)
      → ◌≡◌ {A = Checked (Collect.Plan crypto formats w)} (ok a) (ok b)
      → b ≡ a
  plan_of_ok a b h = cc

  pub planned-protected :
      (domain : Text) (o : Collect.GcOptions) (d : DomainDir) (plan : Collect.Plan crypto formats w)
      → Collect.plan_collection crypto formats w domain o d ≡ ok plan
      → plan.protected ≡ Collect.references o ++ Collect.reported o
  unfolding Collect.plan_collection
  planned-protected domain o d plan h =
      let (ids, listed, h1) = >>=-eq-ok (Collect.protected_by o) _ h in
      let (safe, named, h2) = >>=-eq-ok (domain_paths w domain d) _ h1 in
      let (current, known, h3) =
        >>=-eq-ok
          (Collect.current_or_none (current_state crypto formats w safe d >>= λ found. ok found.0))
          _ h2 in
      let (found, entries, end) =
        >>=-eq-ok (Collect.listed crypto formats w domain d.releases) _ h3 in
      ap (λ (x : Collect.Plan crypto formats w). x.protected) (plan_of_ok _ plan end)
      ∙ protected_by-ok o ids listed
