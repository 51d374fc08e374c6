-- ===== src/Prelude/Distinct.antt =====
-- Lists of texts without repetition, and the pigeonhole principle for them.
use Prim.Native.Nat.{suc, ◌≤◌}
use mathlib.Core.Path.{◌≡◌, refl}
use mathlib.Core.Logic.{◌≢◌, ◌↔◌}
use mathlib.Core.Bool.{true, false, Bool}
use mathlib.Core.List.{List, [], ◌∷◌}
use native.Mathlib.Omega.{arith}
use cert_keeper.Prelude.Tests.{Text, text_eq, ◌==◌, text_beq_iff, if◌then◌else◌}
use cert_keeper.Prelude.Lists.{All, any, length}

abbrev pub Distinct : List Text → Type 0
Distinct [] = Unit
Distinct (x ∷ xs) = All (λ y. x ≢ y) xs × Distinct xs

-- Membership, as the loops test it.
abbrev pub member : Text → List Text → Bool
member x ys = any (λ y. x == y) ys

-- All but the first occurrence.
without : Text → List Text → List Text
without x [] = []
without x (y ∷ ys) = let rest = without x ys in if x == y then ys else y ∷ rest

length-without :
    (x : Text) (ys : List Text) → member x ys ≡ true → length ys ≡ suc (length (without x ys))
unfolding without
length-without x [] h = cc
length-without x (y ∷ ys) h = ground (arith, length-without x ys)

member-without :
    (x z : Text) (ys : List Text) → x ≢ z → member z ys ≡ true → member z (without x ys) ≡ true
unfolding without
member-without x z [] n h = h
member-without x z (y ∷ ys) n h =
    ground (arith, text_beq_iff x y, text_beq_iff z y, member-without x z ys)

All-member-without :
    (x : Text) (xs ys : List Text)
    → All (λ z. x ≢ z) xs
    → All (λ z. member z ys ≡ true) xs
    → All (λ z. member z (without x ys) ≡ true) xs
All-member-without x [] ys n h = tt
All-member-without x (z ∷ xs) ys n h =
    (member-without x z ys n.0 h.0, All-member-without x xs ys n.1 h.1)

-- Distinct members of a list are no more than its elements.
pub Distinct-length-le :
    (xs ys : List Text) → Distinct xs → All (λ z. member z ys ≡ true) xs → length xs ≤ length ys
Distinct-length-le [] ys d h = omega arith
Distinct-length-le (x ∷ xs) ys d h =
    let ih = Distinct-length-le xs (without x ys) d.1 (All-member-without x xs ys d.0 h.1) in
    omega (arith, length-without x ys h.0)

-- A text that is not met among others differs from each.
pub member-false_iff : (x : Text) (ys : List Text) → (member x ys ≡ false) ↔ All (λ y. x ≢ y) ys
member-false_iff x [] = (λ _. tt, λ _. refl)
member-false_iff x (y ∷ ys) = ground (arith, text_beq_iff x y, member-false_iff x ys)
