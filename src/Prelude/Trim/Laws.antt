-- ===== src/Prelude/Trim/Laws.antt =====
-- Trimming makes a text no longer.
use Prim.Native.Nat.{ℕ, zero, suc, ◌+◌, ◌≤◌, ◌<◌}
use mathlib.Core.Path.{◌≡◌, refl}
use mathlib.Core.Logic.{inl, inr}
use mathlib.Core.Option.{Option, none, some}
use mathlib.Core.List.{[], ◌∷◌, reverse, reverse_aux}
use cert_keeper.Prelude.Tests.{Text, Option-cases}
use cert_keeper.Prelude.Lists.{length}
use cert_keeper.Prelude.Texts.{SpaceState, between, space_step}
use cert_keeper.Prelude.Trim.{without_space, trim_left, trim_right, trim_space}
use native.Mathlib.Omega.{arith}

length-reverse_aux : (xs ys : Text) → length (reverse_aux xs ys) ≡ length xs + length ys
length-reverse_aux [] ys = ground arith
length-reverse_aux (x ∷ xs) ys = ground (arith, length-reverse_aux xs (x ∷ ys))

length-reverse : (xs : Text) → length (reverse xs) ≡ length xs
length-reverse xs = ground (arith, length-reverse_aux xs [])

without_space-length :
    (st : SpaceState) (s rest : Text) → without_space st s ≡ some rest → length rest < length s
unfolding without_space
without_space-length st [] rest h = cc
without_space-length st (c ∷ s) rest h = elim (Option-cases (space_step st c)) [
  | inl n ↦ ground arith
  | inr (u, e) ↦ ground (arith, without_space-length u s rest)
]

rest_of-length :
    (o : Option Text) (s : Text) (trimmed : Text → Text)
    → ((rest : Text) → o ≡ some rest → length (trimmed rest) ≤ length s)
    → length (elim o [ none ↦ s | some rest ↦ trimmed rest ]) ≤ length s
rest_of-length none s trimmed h = ground arith
rest_of-length (some rest) s trimmed h = h rest refl

trim_left-length : (fuel : ℕ) (s : Text) → length (trim_left fuel s) ≤ length s
unfolding trim_left
trim_left-length zero s = ground arith
trim_left-length (suc fuel) s =
    rest_of-length (without_space between s) s (trim_left fuel)
      (λ rest e. ground (arith, without_space-length between s rest e, trim_left-length fuel rest))

trim_right-length : (s : Text) → length (trim_right s) ≤ length s
unfolding trim_right
trim_right-length [] = ground arith
trim_right-length (c ∷ []) = ground arith
trim_right-length (c ∷ b ∷ []) = ground (arith, trim_right-length (b ∷ []))
trim_right-length (c ∷ b ∷ a ∷ s) =
    ground (arith, trim_right-length (b ∷ a ∷ s), trim_right-length (a ∷ s), trim_right-length s)

pub trim_space-length : (s : Text) → length (trim_space s) ≤ length s
unfolding trim_space
trim_space-length s = ground (
  arith,
  length-reverse (trim_right (reverse (trim_left (length s) s))),
  trim_right-length (reverse (trim_left (length s) s)),
  length-reverse (trim_left (length s) s),
  trim_left-length (length s) s,
)
