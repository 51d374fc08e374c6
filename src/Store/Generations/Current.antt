-- ===== src/Store/Generations/Current.antt =====
-- Which generation is current after a certificate is issued.
use mathlib.Core
use cert_keeper.Prelude.{
  ℕ, Text, Bool, true, false, not, ◌&&◌, ◌==◌, nat_eq, text_eq, Option, some, List, [], ◌∷◌, inl,
  inr, ◌≡◌, refl, ap, ◌∙◌, arith, Bool-cases, All, is_empty, ==_refl,
}
use cert_keeper.Store.Sql.{update, find}
use cert_keeper.Store.Sql.Laws.{find-update_other, find_sound}
use cert_keeper.Store.Schema.{issued, Generation, Db}
use cert_keeper.Store.Generations.{
  is_current_of, is_other_current, demoted, with_outcome, update_generation_status,
  get_current_generation,
}
use cert_keeper.Store.Generations.Apart.{Alone, IsConsistent, found_alone, demoted-Alone}

-- Where the row with the id is alone in its domain, a change that makes it current makes it the
-- domain's current row.
find-switched :
    (id : ℕ) (domain : Text) (f : Generation → Generation) (rows : List Generation) {g : Generation}
    → ((h : Generation) → (f h).domain ≡ h.domain)
    → ((h : Generation) → (f h).current ≡ true)
    → All (Alone id domain) rows
    → find (λ h. h.id == id) rows ≡ some g
    → find (is_current_of domain) (update (λ h. h.id == id) f rows) ≡ some (f g)
find-switched id domain f [] sd c s e = absurd (ground arith)
find-switched id domain f (h ∷ hs) {g} sd c ((mine, idle), ss) e = elim (Bool-cases (h.id == id)) [
  | inl here ↦
      let first : some h ≡ some g = rw here at e in
      let chosen : is_current_of domain (f h) ≡ true =
        both_true (ap (λ d. d == domain) (sd h ∙ mine here) ∙ ==_refl domain) (c h) in
      rw (here, chosen) (ap (λ o. Core.Option.map f o) first)
  | inr there ↦
      let skipped : is_current_of domain h ≡ false =
        idle_other (h.domain == domain) (h.id == id) h.current there idle in
      rw (there, skipped) (find-switched id domain f hs sd c ss (rw there at e))
]
  where
    both_true : {a b : Bool} → a ≡ true → b ≡ true → (a && b) ≡ true
    both_true h k = rw (h, k) refl

    idle_other : (a b d : Bool) → b ≡ false → (a && not b && d) ≡ false → (a && d) ≡ false
    idle_other a b d n h = ground arith

-- The rows that marking a generation issued writes.
issue-generations :
    (db : Db) (now id : ℕ) (g : Generation) (certificate_ref private_key_ref message : Text)
    (not_before not_after : Option ℕ)
    → is_empty certificate_ref ≡ false
    → find (λ h. h.id == id) db.generations ≡ some g
    → (update_generation_status db now id issued certificate_ref private_key_ref message not_before
        not_after).0.generations
      ≡ update
          (λ h. h.id == id)
          (with_outcome now issued certificate_ref private_key_ref message not_before not_after)
          (update (is_other_current g.domain id) (demoted now) db.generations)
unfolding update_generation_status
issue-generations db now id g certificate_ref private_key_ref message not_before not_after named e =
    rw (e, named) refl

-- On consistent rows, a generation that is there and is marked issued with a certificate becomes
-- the one that `GetCurrentCertificateGeneration` returns for its domain.
pub issue-get_current :
    (db : Db) (now id : ℕ) (g : Generation) (certificate_ref private_key_ref message : Text)
    (not_before not_after : Option ℕ)
    → IsConsistent db
    → is_empty certificate_ref ≡ false
    → find (λ h. h.id == id) db.generations ≡ some g
    → get_current_generation
        (update_generation_status db now id issued certificate_ref private_key_ref message
          not_before not_after).0
        g.domain
      ≡ some
          (with_outcome now issued certificate_ref private_key_ref message not_before not_after g)
unfolding get_current_generation with_outcome demoted
issue-get_current db now id g certificate_ref private_key_ref message not_before not_after w named
      e =
    ap (find (is_current_of g.domain)) (
      issue-generations db now id g certificate_ref private_key_ref message not_before not_after
        named e)
    ∙ find-switched id g.domain
        (with_outcome now issued certificate_ref private_key_ref message not_before not_after)
        (update (is_other_current g.domain id) (demoted now) db.generations) {g = g} (λ h. refl)
        (λ h. rw named refl)
        (demoted-Alone id now g db.generations (found_alone id db.generations w.apart e))
        (find-update_other (λ h. h.id == id) (is_other_current g.domain id) (demoted now)
          db.generations (λ h. refl)
          (mine (g.domain == g.domain) (g.id == id) g.current
            (find_sound (λ h. h.id == id) db.generations e))
          e)
  where
    mine : (a b c : Bool) → b ≡ true → (a && not b && c) ≡ false
    mine a b c h = ground arith
