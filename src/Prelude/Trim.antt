-- ===== src/Prelude/Trim.antt =====
-- `strings.TrimSpace` and `bytes.TrimSpace`.
pub mod Laws
use Prim.Native.Nat.{ℕ, zero, suc, ◌≤◌}
use mathlib.Core.Path.{◌≡◌, refl}
use mathlib.Core.Bool.{Bool, true, false, ◌&&◌, ◌||◌}
use mathlib.Core.Option.{Option, none, some}
use mathlib.Core.List.{List, [], ◌∷◌, reverse}
use cert_keeper.Prelude.Tests.{Text, if◌then◌else◌}
use cert_keeper.Prelude.Lists.{length}
use cert_keeper.Prelude.Texts.{SpaceState, between, space_step, space_last, ascii_space}
use native.Mathlib.Omega.{arith}

-- What follows the first rune, when that is a space.
unfoldable pub without_space : SpaceState → Text → Option Text
without_space st [] = none
without_space st (c ∷ s) = elim (space_step st c) [
  | none ↦ none
  | some between ↦ some s
  | some st' ↦ without_space st' s
]

-- The text less the spaces at its start, of which there are no more than the fuel.
unfoldable pub trim_left : ℕ → Text → Text
trim_left zero s = s
trim_left (suc fuel) s = elim (without_space between s) [
  | none ↦ s
  | some rest ↦ trim_left fuel rest
]

-- The same at the end; the bytes come in reverse, and a space is of one byte to three.
unfoldable pub trim_right : Text → Text
trim_right [] = []
trim_right (c ∷ []) = if ascii_space c then [] else c ∷ []
trim_right (c ∷ b ∷ []) = elim (ascii_space c) [
  | true ↦ trim_right (b ∷ [])
  | false ↦ if space_last (c ∷ b ∷ []) then [] else c ∷ b ∷ []
]
trim_right (c ∷ b ∷ a ∷ s) = elim (ascii_space c) [
  | true ↦ trim_right (b ∷ a ∷ s)
  | false ↦ elim (space_last (c ∷ b ∷ [])) [
    | true ↦ trim_right (a ∷ s)
    | false ↦ elim (space_last (c ∷ b ∷ a ∷ s)) [ true ↦ trim_right s | false ↦ c ∷ b ∷ a ∷ s ]
  ]
]

unfoldable pub trim_space : Text → Text
unfolding trim_left trim_right
trim_space s = reverse (trim_right (reverse (trim_left (length s) s)))
