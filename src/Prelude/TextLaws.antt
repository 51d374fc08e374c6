-- ===== src/Prelude/TextLaws.antt =====
-- Laws of the text functions that the validated names rely on.
use Prim.Native.Nat.{ℕ}
use mathlib.Core.Path.{◌≡◌, refl, subst, sym}
use mathlib.Core.Logic.{inl, inr}
use mathlib.Core.Bool.{Bool, true, false, ◌&&◌, ◌||◌}
use mathlib.Core.List.{List, [], ◌∷◌, ◌++◌, reverse, reverse-cons}
use native.Mathlib.Omega.{arith}
use cert_keeper.Prelude.Tests.{Text, ◌==◌, nat_eq, Bool-cases, ltb, leb}
use cert_keeper.Prelude.Lists.{All, all, length}
use cert_keeper.Prelude.Texts.{
  contains_byte, split, is_padded, space_first, space_last, to_lower, between,
}
use cert_keeper.Prelude.Splits.{split_shape}

module _ {ℓ} {A : Type ℓ} (p : A → Bool) where
  pub all-append : (xs ys : List A) → all p (xs ++ ys) ≡ (all p xs && all p ys)
  all-append [] ys = refl
  all-append (x ∷ xs) ys = ground (arith, all-append xs ys)

  pub all-reverse : (xs : List A) → all p xs ≡ true → all p (reverse xs) ≡ true
  all-reverse [] h = refl
  all-reverse (x ∷ xs) h = rw (reverse-cons, all-append) (ground (arith, all-reverse xs))

-- A text holds the separator exactly if it has two parts or more.
pub contains-split : (sep : ℕ) (s : Text) → contains_byte sep s ≡ ltb 1 (length (split sep s))
unfolding split
contains-split sep [] = refl
contains-split sep (c ∷ s) =
    let (p, ps, e) = split_shape sep s in
    let ih : contains_byte sep s ≡ ltb 1 (length (p ∷ ps)) =
      subst (λ t. contains_byte sep s ≡ ltb 1 (length t)) e (contains-split sep s) in
    elim (Bool-cases (c == sep)) [ inl here ↦ rw (here, e) (ground arith) | inr on ↦ rw (on, e) ih ]

-- The bytes of a text are those of its parts and the separator.
pub split-all :
    (p : ℕ → Bool) (sep : ℕ) (s : Text)
    → All (λ part. all p part ≡ true) (split sep s)
    → all (λ c. p c || c == sep) s ≡ true
unfolding split
split-all p sep [] h = refl
split-all p sep (c ∷ s) h =
    let (q, qs, e) = split_shape sep s in
    elim (Bool-cases (c == sep)) [
      | inl here ↦
          let h' : All (λ part. all p part ≡ true) ([] ∷ split sep s) =
            subst (All (λ part. all p part ≡ true)) {y = [] ∷ split sep s} (rw here) h in
          ground (arith, split-all p sep s h'.1)
      | inr on ↦
          let h' : All (λ part. all p part ≡ true) ((c ∷ q) ∷ qs) =
            subst (All (λ part. all p part ≡ true)) {y = (c ∷ q) ∷ qs} (rw (on, e)) h in
          let rest : All (λ part. all p part ≡ true) (q ∷ qs) = (ground (arith, h'.0), h'.1) in
          ground
            (arith, h'.0, split-all p sep s (subst (All (λ part. all p part ≡ true)) (sym e) rest))
    ]

-- A byte that stands in no upper-case letter, in no space rune and in no longer rune.
abbrev pub is_plain : ℕ → Bool
is_plain c = leb 0x21 c && leb c 0x7e && (ltb c b'A' || ltb b'Z' c)

pub to_lower_of_plain : (s : Text) → all is_plain s ≡ true → to_lower s ≡ s
unfolding to_lower
to_lower_of_plain [] h = refl
to_lower_of_plain (c ∷ s) h = ground (arith, to_lower_of_plain s)

space_first_of_plain : (s : Text) → all is_plain s ≡ true → space_first between s ≡ false
unfolding space_first
space_first_of_plain [] h = refl
space_first_of_plain (c ∷ s) h = ground arith

space_last_of_plain : (s : Text) → all is_plain s ≡ true → space_last s ≡ false
unfolding space_last
space_last_of_plain [] h = refl
space_last_of_plain (c ∷ []) h = ground arith
space_last_of_plain (c ∷ b ∷ []) h = ground arith
space_last_of_plain (c ∷ b ∷ a ∷ s) h = ground arith

pub is_padded_of_plain : (s : Text) → all is_plain s ≡ true → is_padded s ≡ false
unfolding is_padded
is_padded_of_plain s h =
    rw (space_first_of_plain s h, space_last_of_plain (reverse s) (all-reverse is_plain s h))
