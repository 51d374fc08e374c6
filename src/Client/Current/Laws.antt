-- ===== src/Client/Current/Laws.antt =====
-- What is read of `current` after it is written.
use cert_keeper.Prelude.{
  ℕ, Text, Bool, true, false, not, ◌==◌, text_eq, Option, none, some, Result, ok, err, List, [],
  ◌∷◌, ◌≡◌, refl, ◌⊎◌, inl, inr, arith, ap, ◌∙◌, codes, Bool-cases, split, contains_byte, ◌||◌,
  is_empty, is_empty_iff, text_beq_iff,
}
use cert_keeper.Prelude.Splits.{split-join}
use cert_keeper.Prelude.Steps.{Relates}
use cert_keeper.Protocol.Identifiers.{validate_generation_id, is_dots, max_generation_id_length}
use cert_keeper.Protocol.Identifiers.Laws.{
  IsIdentifier, validate_generation_id_iff, IsIdentifier-no_slash,
}
use cert_keeper.Client.Tree.{
  Tree, Phase, Current, link, absent, regular, special, World, sync_out, restoring, Failure,
}
use cert_keeper.Client.Read.{release_target, managed_target, generation_of_target, read_named}
use cert_keeper.Client.Current.{
  is_absent, remove_if_there, remove_deployment_current, without_current,
  restore_deployment_current, prepare_link, write_deployment_current, switched, without_temporary,
  with_temporary,
}

-- The releases and `current` are as before.
pub record Keeps (s t : Tree) : Type 0 where
  pub current : t.current ≡ s.current
  pub releases : t.releases ≡ s.releases

prepare_link-Keeps : (w : World) (phase : Phase) (g : Text) → Relates Keeps (prepare_link w phase g)
unfolding prepare_link without_temporary with_temporary
prepare_link-Keeps w phase g t = ground arith

pub write-releases :
    (w : World) (phase : Phase) (g : Text) (t : Tree)
    → (write_deployment_current w phase g t).0.releases ≡ t.releases
unfolding write_deployment_current prepare_link without_temporary with_temporary switched
write-releases w phase g t = ground arith

pub write-fails :
    (w : World) (phase : Phase) (g : Text) (t : Tree) {e : Failure}
    → w.fails (sync_out phase) ≡ none
    → (write_deployment_current w phase g t).1 ≡ err e
    → (write_deployment_current w phase g t).0.current ≡ t.current
unfolding write_deployment_current prepare_link without_temporary with_temporary switched
write-fails w phase g t s h = ground arith

pub write-succeeds :
    (w : World) (phase : Phase) (g : Text) (t : Tree)
    → (write_deployment_current w phase g t).1 ≡ ok tt
    → (write_deployment_current w phase g t).0.current ≡ link (release_target g)
unfolding write_deployment_current prepare_link without_temporary with_temporary switched
write-succeeds w phase g t h = ground arith

pub restore-releases :
    (w : World) (previous : Option Text) (t : Tree)
    → (restore_deployment_current w previous t).0.releases ≡ t.releases
unfolding restore_deployment_current remove_if_there remove_deployment_current without_current
restore-releases w none t = ground arith
restore-releases w (some g) t = write-releases w restoring g t

-- What `current` is after a rollback.
abbrev pub restored_to : Option Text → Current
restored_to none = absent
restored_to (some g) = link (release_target g)

is_absent_sound : (c : Current) → is_absent c ≡ true → c ≡ absent
is_absent_sound absent h = refl
is_absent_sound (link s) h = cc
is_absent_sound (regular s) h = cc
is_absent_sound special h = cc

pub restore-succeeds :
    (w : World) (previous : Option Text) (t : Tree)
    → (restore_deployment_current w previous t).1 ≡ ok tt
    → (restore_deployment_current w previous t).0.current ≡ restored_to previous
unfolding restore_deployment_current remove_if_there remove_deployment_current without_current
restore-succeeds w none t h = ground (arith, is_absent_sound t.current)
restore-succeeds w (some g) t h = write-succeeds w restoring g t h

target-split :
    (g : Text)
    → contains_byte b'/' g ≡ false
    → split b'/' (release_target g) ≡ codes "releases" ∷ g ∷ []
unfolding release_target split cert_keeper.Prelude.join
target-split g h = ap (λ parts. codes "releases" ∷ parts) (split-join b'/' g [] (h, tt))

valid-is_plain :
    (g : Text) → IsIdentifier max_generation_id_length g → (is_empty g || is_dots g) ≡ false
valid-is_plain g h = ground (
  arith,
  (is_empty_iff g).1 h.not_empty,
  text_beq_iff g (codes "."),
  text_beq_iff g (codes ".."),
  h.not_dot,
  h.not_dot_dot,
)

valid-managed_target :
    (g : Text) → validate_generation_id g ≡ ok tt → managed_target (release_target g) ≡ some g
unfolding managed_target cert_keeper.Prelude.text_beq
valid-managed_target g v =
    let h = (validate_generation_id_iff g).0 v in
    rw (target-split g (IsIdentifier-no_slash h), valid-is_plain g h) refl

-- The generation whose link is written is the one that is read.
pub read-link :
    (w : World) (g : Text) {r : Option Text}
    → validate_generation_id g ≡ ok tt
    → read_named w (link (release_target g)) ≡ ok r
    → r ≡ some g
unfolding read_named generation_of_target
read-link w g v h = ground (arith, valid-managed_target g v)

pub Keeps-trans : (s t u : Tree) → Keeps s t → Keeps t u → Keeps s u
Keeps-trans s t u p q = record {
  current = q.current ∙ p.current;
  releases = q.releases ∙ p.releases;
}
