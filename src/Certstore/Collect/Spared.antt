-- ===== src/Certstore/Collect/Spared.antt =====
-- What the options of a collection protect.
use cert_keeper.Prelude.{
  Text, Bool, true, false, not, ◌||◌, text_eq, ◌==◌, ok, List, [], ◌∷◌, ◌++◌, filter, is_empty, ◌≡◌,
  refl, ◌⊎◌, inl, inr, ◌∙◌, sym, arith, text_beq_iff, ==_refl, >>-eq-ok, refuse, if_by,
}
use cert_keeper.Prelude.Distinct.{member}
use cert_keeper.Prelude.Int.{is_negative}
use cert_keeper.Certstore.{invalid_options, Checked}
use cert_keeper.Certstore.Collect.{GcOptions, validate_all, references, reported, protected_by}

-- A generation that a report or a deployment refers to, or that the options name, of which the
-- deployment reports may name none.
pub IsProtected : GcOptions → Text → Type 0
IsProtected o name =
    (member name o.report_references ≡ true)
    ⊎ (member name o.deployment_references ≡ true)
    ⊎ (member name o.protected_generations ≡ true)
    ⊎ (member name o.protected ≡ true)
    ⊎ ((member name o.deployment_reports ≡ true) × (is_empty name ≡ false))

member-++ : (x : Text) (xs ys : List Text) → member x (xs ++ ys) ≡ (member x xs || member x ys)
member-++ x [] ys = ground arith
member-++ x (z ∷ xs) ys = ground (arith, member-++ x xs ys)

or_cases : (a b : Bool) → (a || b) ≡ true → (a ≡ true) ⊎ (b ≡ true)
or_cases true b h = inl refl
or_cases false b h = inr h

member-filter :
    (p : Text → Bool) (x : Text) (ys : List Text)
    → member x ys ≡ true
    → p x ≡ true
    → member x (filter p ys) ≡ true
member-filter p x [] h k = cc
member-filter p x (y ∷ ys) h k = elim (or_cases (x == y) (member x ys) h) [
  | inl e ↦ here ((text_beq_iff x y).0 e)
  | inr e ↦ there (member-filter p x ys e k)
]
  where
    here : x ≡ y → member x (filter p (y ∷ ys)) ≡ true
    here e = rw (sym e, k, ==_refl x) refl

    there : member x (filter p ys) ≡ true → member x (filter p (y ∷ ys)) ≡ true
    there e = if_by (λ zs. member x zs ≡ true) (p y) (λ _. ground (arith, e)) (λ _. e)

or_inl : (a b : Bool) → a ≡ true → (a || b) ≡ true
or_inl a b h = ground arith

or_inr : (a b : Bool) → b ≡ true → (a || b) ≡ true
or_inr a b h = ground arith

member-references :
    (o : GcOptions) (name : Text)
    → member name (references o) ≡ (
        member name o.report_references
        || (member name o.deployment_references
            || (member name o.protected_generations || member name o.protected)))
member-references o name =
    rw
      (
        member-++ name o.report_references
            (o.deployment_references ++ (o.protected_generations ++ o.protected)),
        member-++ name o.deployment_references (o.protected_generations ++ o.protected),
        member-++ name o.protected_generations o.protected,
      )
      refl

-- The keys of `protected` hold what the options protect.
pub protected-member :
    (o : GcOptions) (name : Text)
    → IsProtected o name
    → member name (references o ++ reported o) ≡ true
unfolding IsProtected
protected-member o name h = member-++ name (references o) (reported o) ∙ elim h [
  | inl a ↦ or_inl _ _ (in_first a)
  | inr (inl a) ↦ or_inl _ _ (in_second a)
  | inr (inr (inl a)) ↦ or_inl _ _ (in_third a)
  | inr (inr (inr (inl a))) ↦ or_inl _ _ (in_fourth a)
  | inr (inr (inr (inr (a, n)))) ↦
      or_inr _ _ (member-filter (λ id. not (is_empty id)) name o.deployment_reports a (rw n refl))
]
  where
    in_first : member name o.report_references ≡ true → member name (references o) ≡ true
    in_first a = rw (member-references o name) (ground (arith, a))

    in_second : member name o.deployment_references ≡ true → member name (references o) ≡ true
    in_second a = rw (member-references o name) (ground (arith, a))

    in_third : member name o.protected_generations ≡ true → member name (references o) ≡ true
    in_third a = rw (member-references o name) (ground (arith, a))

    in_fourth : member name o.protected ≡ true → member name (references o) ≡ true
    in_fourth a = rw (member-references o name) (ground (arith, a))

ids_of_ok : (a b : List Text) → ◌≡◌ {A = Checked (List Text)} (ok a) (ok b) → a ≡ b
ids_of_ok a b h = cc

pub protected_by-ok :
    (o : GcOptions) (ids : List Text) → protected_by o ≡ ok ids → ids ≡ references o ++ reported o
unfolding protected_by
protected_by-ok o ids h =
    let (sign, h1) = >>-eq-ok (refuse (is_negative o.keep_recent) invalid_options) _ h in
    let (valid, h2) = >>-eq-ok (validate_all (references o)) _ h1 in
    let (valid', h3) = >>-eq-ok (validate_all (reported o)) _ h2 in sym (ids_of_ok _ ids h3)
