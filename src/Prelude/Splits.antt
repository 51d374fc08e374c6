-- ===== src/Prelude/Splits.antt =====
-- Splitting a text at a byte and joining parts with it undo one another.
use mathlib.Core.Path.{◌≡◌, refl, ap, ◌∙◌, subst}
use mathlib.Core.Logic.{inl, inr}
use mathlib.Core.Bool.{false}
use mathlib.Core.List.{List, [], ◌∷◌, ◌++◌}
use Prim.Native.Nat.{ℕ}
use native.Mathlib.Omega.{arith}
use cert_keeper.Prelude.Tests.{Text, ◌==◌, nat_eq, Bool-cases, nat_beq_iff}
use cert_keeper.Prelude.Lists.{All}
use cert_keeper.Prelude.Texts.{contains_byte, split, join}

pub split_shape : (sep : ℕ) (s : Text) → (p : Text) × (ps : List Text) × (split sep s ≡ p ∷ ps)
unfolding split
split_shape sep [] = ([], [], refl)
split_shape sep (c ∷ s) =
    let (p, ps, e) = split_shape sep s in
    elim (Bool-cases (c == sep)) [
      | inl here ↦ ([], split sep s, rw here)
      | inr on ↦ (c ∷ p, ps, rw (on, e))
    ]

pub join-split : (sep : ℕ) (s : Text) → join sep (split sep s) ≡ s
unfolding split join
join-split sep [] = refl
join-split sep (c ∷ s) =
    let (p, ps, e) = split_shape sep s in
    let ih : join sep (p ∷ ps) ≡ s = rw (← e) (join-split sep s) in
    elim (Bool-cases (c == sep)) [
      | inl here ↦ rw (here, e) (ground (arith, nat_beq_iff c sep))
      | inr on ↦ rw (on, e) (join_push sep c p ps ∙ ap (λ t. c ∷ t) ih)
    ]
  where
    join_push :
        (sep c : ℕ) (p : Text) (ps : List Text) → join sep ((c ∷ p) ∷ ps) ≡ c ∷ join sep (p ∷ ps)
    join_push sep c p [] = refl
    join_push sep c p (q ∷ ps) = refl

split-part : (sep : ℕ) (part : Text) → contains_byte sep part ≡ false → split sep part ≡ part ∷ []
unfolding split
split-part sep [] h = refl
split-part sep (c ∷ part) h = (ground (arith, split-part sep part))

split-append :
    (sep : ℕ) (part s : Text)
    → contains_byte sep part ≡ false
    → split sep (part ++ sep ∷ s) ≡ part ∷ split sep s
unfolding split
split-append sep [] s h = (ground arith)
split-append sep (c ∷ part) s h = (ground (arith, split-append sep part s))

-- Parts without the separator are found again.
pub split-join :
    (sep : ℕ) (part : Text) (parts : List Text)
    → All (λ p. contains_byte sep p ≡ false) (part ∷ parts)
    → split sep (join sep (part ∷ parts)) ≡ part ∷ parts
unfolding join
split-join sep part [] h = split-part sep part h.0
split-join sep part (next ∷ parts) h =
    split-append sep part (join sep (next ∷ parts)) h.0
    ∙ ap (λ t. part ∷ t) (split-join sep next parts h.1)

pub split_parts : (sep : ℕ) (s : Text) → All (λ p. contains_byte sep p ≡ false) (split sep s)
unfolding split
split_parts sep [] = (refl, tt)
split_parts sep (c ∷ s) =
    let (p, ps, e) = split_shape sep s in
    let ih : All (λ p. contains_byte sep p ≡ false) (p ∷ ps) =
      subst (All (λ p. contains_byte sep p ≡ false)) e (split_parts sep s) in
    elim (Bool-cases (c == sep)) [
      | inl here ↦ rw (here, e) (refl, ih)
      | inr on ↦ rw (on, e) (rw on ih.0, ih.1)
    ]
