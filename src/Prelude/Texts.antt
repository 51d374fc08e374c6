-- ===== src/Prelude/Texts.antt =====
-- Go strings, by their bytes: literals, and the functions of the package strings that the code
-- calls.
use Prim.Native.Nat.{ℕ, ◌+◌, ◌≤◌}
use Prim.Native.Char.{code}
use Prim.Native.String.{String}
use mathlib.Core.Bool.{Bool, true, false, ◌&&◌, ◌||◌}
use mathlib.Core.Option.{Option, none, some}
use mathlib.Core.List.{List, [], ◌∷◌, ◌++◌, reverse, map}
use cert_keeper.Prelude.Tests.{Text, leb, if◌then◌else◌, ◌==◌, nat_eq}
use cert_keeper.Prelude.Lists.{any, length}
use native.Mathlib.Omega.{arith}
use mathlib.Core.Path.{◌≡◌}
use mathlib.Core.Logic.{◌↔◌}

-- The bytes of an ASCII literal.
abbrev pub codes : String → Text
codes String.[] = []
codes (String.◌∷◌ c s) = code c ∷ codes s

-- `s == ""`.
abbrev pub is_empty : Text → Bool
is_empty [] = true
is_empty (c ∷ s) = false

pub is_empty_iff : (s : Text) → (is_empty s ≡ false) ↔ (1 ≤ length s)
is_empty_iff [] = ground arith
is_empty_iff (c ∷ s) = ground arith

-- `strings.Contains(s, c)` and one byte of `strings.ContainsAny`.
abbrev pub contains_byte : ℕ → Text → Bool
contains_byte c s = any (λ b. b == c) s

-- The space runes of `unicode.IsSpace` as their UTF-8 bytes: how much of one has been read.
pub data SpaceState : Type 0 where
  between after_c2 after_e1 after_e1_9a after_e2 after_e2_80 after_e2_81 after_e3 after_e3_80 :
      SpaceState

abbrev pub ascii_space : ℕ → Bool
ascii_space c = (leb 0x09 c && leb c 0x0d) || c == 0x20

abbrev expect : Bool → SpaceState → Option SpaceState
expect true s = some s
expect false s = none

abbrev pub space_step : SpaceState → ℕ → Option SpaceState
space_step between c =
    if ascii_space c
    then some between
    else if c == 0xc2
    then some after_c2
    else if c == 0xe1
    then some after_e1
    else if c == 0xe2
    then some after_e2
    else if c == 0xe3
    then some after_e3
    else none
space_step after_c2 c = expect (c == 0x85 || c == 0xa0) between
space_step after_e1 c = expect (c == 0x9a) after_e1_9a
space_step after_e1_9a c = expect (c == 0x80) between
space_step after_e2 c =
    if c == 0x80 then some after_e2_80 else if c == 0x81 then some after_e2_81 else none
space_step after_e2_80 c =
    expect ((leb 0x80 c && leb c 0x8a) || c == 0xa8 || c == 0xa9 || c == 0xaf) between
space_step after_e2_81 c = expect (c == 0x9f) between
space_step after_e3 c = expect (c == 0x80) after_e3_80
space_step after_e3_80 c = expect (c == 0x80) between

-- The rest of a text is made of space runes.
unfoldable pub blank_from : SpaceState → Text → Bool
blank_from between [] = true
blank_from _ [] = false
blank_from st (c ∷ s) = elim (space_step st c) [ none ↦ false | some st' ↦ blank_from st' s ]

-- `strings.TrimSpace(s) == ""`.
unfoldable pub is_blank : Text → Bool
unfolding blank_from
is_blank s = blank_from between s

-- The first rune is a space.
unfoldable pub space_first : SpaceState → Text → Bool
space_first st [] = false
space_first st (c ∷ s) = elim (space_step st c) [
  | none ↦ false
  | some between ↦ true
  | some st' ↦ space_first st' s
]

-- The last rune is a space; the bytes come in reverse.
unfoldable pub space_last : Text → Bool
space_last [] = false
space_last (c ∷ []) = ascii_space c
space_last (c ∷ b ∷ []) = ascii_space c || (b == 0xc2 && (c == 0x85 || c == 0xa0))
space_last (c ∷ b ∷ a ∷ s) =
    ascii_space c
    || (b == 0xc2 && (c == 0x85 || c == 0xa0))
    || (a == 0xe1 && b == 0x9a && c == 0x80)
    || (a == 0xe2
        && b == 0x80
        && ((leb 0x80 c && leb c 0x8a) || c == 0xa8 || c == 0xa9 || c == 0xaf))
    || (a == 0xe2 && b == 0x81 && c == 0x9f)
    || (a == 0xe3 && b == 0x80 && c == 0x80)

-- `strings.TrimSpace(s) != s`.
unfoldable pub is_padded : Text → Bool
unfolding space_first space_last
is_padded s = space_first between s || space_last (reverse s)

-- `strings.ToLower` on one byte. Bytes outside ASCII are left alone.
abbrev pub to_lower_byte : ℕ → ℕ
to_lower_byte c = if leb b'A' c && leb c b'Z' then c + 32 else c

unfoldable pub to_lower : Text → Text
to_lower s = map to_lower_byte s

-- `strings.Split` at one byte: the parts of a text, never none.
abbrev push_byte : ℕ → List Text → List Text
push_byte c [] = (c ∷ []) ∷ []
push_byte c (part ∷ parts) = (c ∷ part) ∷ parts

unfoldable pub split : ℕ → Text → List Text
split sep [] = [] ∷ []
split sep (c ∷ s) = let rest = split sep s in if c == sep then [] ∷ rest else push_byte c rest

-- `strings.Join` with one byte between the parts.
unfoldable pub join : ℕ → List Text → Text
join sep [] = []
join sep (part ∷ []) = part
join sep (part ∷ next ∷ parts) = part ++ sep ∷ join sep (next ∷ parts)
