-- ===== src/Certstore/Entries.antt =====
-- What a change of one entry leaves of the others, and of the generation that `current` names.
use cert_keeper.Prelude.{
  Text, ◌==◌, text_eq, Option, some, List, [], ◌∷◌, map, if◌then◌else◌, ◌≡◌, ◌≢◌, refl, arith,
  text_beq_iff,
}
use cert_keeper.Client.Read.{lookup}
use cert_keeper.Certstore.{
  Entry, Folder, folder, missing, unsafe, DomainDir, entries_of, on_folder, without_entry,
  with_entry,
}

-- The entry of a name in `releases`.
abbrev pub released : Text → DomainDir → Option Entry
released name d = lookup name (entries_of d.releases)

pub lookup-without_entry :
    (name x : Text) (es : List (Text × Entry))
    → name ≢ x
    → lookup name (without_entry x es) ≡ lookup name es
lookup-without_entry name x [] n = refl
lookup-without_entry name x ((key, e) ∷ es) n =
    ground (arith, text_beq_iff key x, text_beq_iff key name, lookup-without_entry name x es n)

pub lookup-leave :
    (name x : Text) (left : Entry) (es : List (Text × Entry))
    → name ≢ x
    → lookup name (map (λ (e : Text × Entry). if e.0 == x then (e.0, left) else e) es)
      ≡ lookup name es
lookup-leave name x left [] n = refl
lookup-leave name x left ((key, e) ∷ es) n =
    ground (arith, text_beq_iff key x, text_beq_iff key name, lookup-leave name x left es n)

pub lookup-with_entry :
    (name x : Text) (e : Entry) (es : List (Text × Entry))
    → name ≢ x
    → lookup name (with_entry x e es) ≡ lookup name es
lookup-with_entry name x e es n =
    ground (arith, text_beq_iff x name, lookup-without_entry name x es n)

pub lookup-with_entry_self :
    (x : Text) (e : Entry) (es : List (Text × Entry)) → lookup x (with_entry x e es) ≡ some e
lookup-with_entry_self x e es = ground (arith, text_beq_iff x x)

pub lookup-on_folder :
    (f : List (Text × Entry) → List (Text × Entry)) (name : Text)
    → ((es : List (Text × Entry)) → lookup name (f es) ≡ lookup name es)
    → (d : Folder) → lookup name (entries_of (on_folder f d)) ≡ lookup name (entries_of d)
lookup-on_folder f name h missing = refl
lookup-on_folder f name h unsafe = refl
lookup-on_folder f name h (folder es) = h es
