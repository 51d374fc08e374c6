-- ===== src/Protocol/Paths/Laws.antt =====
-- What the built URL paths look like, and that they can be told apart.
use mathlib.Core.Path.{subst}
use mathlib.Core.Bool.{false≢true}
use cert_keeper.Prelude.{
  ℕ, Text, Bool, true, false, ◌||◌, ◌&&◌, ◌/◌, ◌%◌, Bool-cases, inl, inr, ◌==◌, nat_eq, ok, codes,
  join, split, contains_byte, List, [], ◌∷◌, ◌++◌, map, ◌≡◌, ◌↔◌, refl, arith, all, All, all_iff,
  text_beq_iff, text_beq, >>-eq-ok, >>=-eq-ok, is_empty_iff,
}
use cert_keeper.Prelude.Splits.{split-join}
use cert_keeper.Protocol.Identifiers.{
  is_unreserved, is_path_traversal, has_control, validate_path_segment, max_job_id_length,
}
use cert_keeper.Protocol.Identifiers.Laws.{
  IsIdentifier, validate_job_id_iff, is_path_traversal_of_unreserved, has_control_of_unreserved,
}
use cert_keeper.Protocol.Paths.{
  path_escape, escape_byte, escapes_to_itself, upper_hex, escape_path_segment, escape_all,
  build_url_path, job_url_path, v2_first, v2_second, jobs_segment,
}

slash_is_escaped : (c : ℕ) → escapes_to_itself c ≡ true → (c == b'/') ≡ false
unfolding escapes_to_itself
slash_is_escaped c h = elim (Bool-cases (c == b'/')) [
  | inl e ↦ absurd (slash (subst (λ x. escapes_to_itself x ≡ true) ((nat_eq.beq_iff c b'/').0 e) h))
  | inr n ↦ n
]
  where
    slash : escapes_to_itself b'/' ≡ true → ⊥
    slash e = false≢true e

upper_hex-no_slash : (d : ℕ) → (upper_hex d == b'/') ≡ false
unfolding upper_hex
upper_hex-no_slash d = ground arith

escape_byte-no_slash : (c : ℕ) → contains_byte b'/' (escape_byte c) ≡ false
unfolding escape_byte
escape_byte-no_slash c = elim (Bool-cases (escapes_to_itself c)) [
  | inl e ↦ rw e (rw (slash_is_escaped c e))
  | inr n ↦ rw n (rw (upper_hex-no_slash (c / 16), upper_hex-no_slash (c % 16)))
]

contains-append :
    (b : ℕ) (s t : Text) → contains_byte b (s ++ t) ≡ (contains_byte b s || contains_byte b t)
contains-append b [] t = refl
contains-append b (c ∷ s) t = ground (arith, contains-append b s t)

-- Escaping leaves no separator behind.
path_escape-no_slash : (s : Text) → contains_byte b'/' (path_escape s) ≡ false
unfolding path_escape
path_escape-no_slash [] = refl
path_escape-no_slash (c ∷ s) = rw (
  contains-append b'/' (escape_byte c) (path_escape s),
  escape_byte-no_slash c,
  path_escape-no_slash s,
)

-- Unreserved bytes are not escaped.
escape_byte_of_unreserved : (c : ℕ) → is_unreserved c ≡ true → escape_byte c ≡ c ∷ []
unfolding escape_byte escapes_to_itself
escape_byte_of_unreserved c h = rw h

path_escape_of_unreserved : (s : Text) → all is_unreserved s ≡ true → path_escape s ≡ s
unfolding path_escape
path_escape_of_unreserved [] h = refl
path_escape_of_unreserved (c ∷ s) h =
    let (u, us) = &&-split (is_unreserved c) _ h in
    rw (escape_byte_of_unreserved c u, path_escape_of_unreserved s us)
  where
    &&-split : (a b : Bool) → (a && b) ≡ true → (a ≡ true) × (b ≡ true)
    &&-split true b e = (refl, e)
    &&-split false b e = cc

escape_path_segment-eq-ok : (s : Text) {v : Text} → escape_path_segment s ≡ ok v → v ≡ path_escape s
unfolding escape_path_segment
escape_path_segment-eq-ok s h = ground arith

escape_all-eq-ok :
    (segments : List Text) {escaped : List Text}
    → escape_all segments ≡ ok escaped
    → escaped ≡ map path_escape segments
unfolding escape_all
escape_all-eq-ok [] h = ground arith
escape_all-eq-ok (s ∷ ss) h =
    let (v, first, rest) = >>=-eq-ok _ _ h in
    let (vs, others, all) = >>=-eq-ok _ _ rest in
    ground (arith, escape_path_segment-eq-ok s first, escape_all-eq-ok ss others, all)

map-no_slash : (ss : List Text) → All (λ p. contains_byte b'/' p ≡ false) (map path_escape ss)
map-no_slash [] = tt
map-no_slash (s ∷ ss) = (path_escape-no_slash s, map-no_slash ss)

-- A path that is built, split at the slashes, is an empty part and then the escaped segments, one
-- level for each.
pub build_url_path-split :
    (segments : List Text) {path : Text}
    → build_url_path segments ≡ ok path
    → split b'/' path ≡ [] ∷ map path_escape segments
unfolding build_url_path join
build_url_path-split [] h = absurd (ground arith)
build_url_path-split (s ∷ ss) {path} h =
    let (escaped, each, built) =
      >>=-eq-ok (escape_all (s ∷ ss)) (λ escaped. ok (b'/' ∷ join b'/' escaped)) h in
    let e : path ≡ join b'/' ([] ∷ map path_escape (s ∷ ss)) =
      ground (arith, built, escape_all-eq-ok (s ∷ ss) each) in
    rw (e, split-join b'/' [] (map path_escape (s ∷ ss)) (refl, map-no_slash (s ∷ ss)))

-- A segment that stands in a path as it is.
abbrev IsPlain : Text → Type 0
IsPlain s = (validate_path_segment s ≡ ok tt) × (all is_unreserved s ≡ true)

escape_all_of_plain : (ss : List Text) → All IsPlain ss → escape_all ss ≡ ok ss
unfolding escape_all escape_path_segment
escape_all_of_plain [] h = refl
escape_all_of_plain (s ∷ ss) ((v, u), h) =
    rw (v, escape_all_of_plain ss h, path_escape_of_unreserved s u)

build_url_path_of_plain :
    (s : Text) (ss : List Text)
    → All IsPlain (s ∷ ss)
    → build_url_path (s ∷ ss) ≡ ok (join b'/' ([] ∷ s ∷ ss))
unfolding build_url_path join
build_url_path_of_plain s ss h = rw (escape_all_of_plain (s ∷ ss) h)

IsIdentifier-IsPlain : {limit : ℕ} (s : Text) → IsIdentifier limit s → IsPlain s
unfolding validate_path_segment
IsIdentifier-IsPlain s h =
    let u : all is_unreserved s ≡ true = (all_iff is_unreserved s).1 h.unreserved in
    (
      ground (
        arith,
        h.not_empty,
        is_empty_iff s,
        h.not_dot,
        h.not_dot_dot,
        text_beq_iff s (codes "."),
        text_beq_iff s (codes ".."),
        is_path_traversal_of_unreserved s u,
        has_control_of_unreserved s u,
      ),
      u,
    )

constants-IsPlain : IsPlain v2_first × IsPlain v2_second × IsPlain jobs_segment
unfolding validate_path_segment is_path_traversal has_control text_beq
constants-IsPlain = ((refl, refl), (refl, refl), (refl, refl))

-- The path of a job is "/api/v2/jobs/" and the id if the id is an identifier of at most 128 bytes,
-- and there is none otherwise.
pub job_url_path_iff :
    (id path : Text)
    → (job_url_path id ≡ ok path)
      ↔ (IsIdentifier max_job_id_length id × (path ≡ codes "/api/v2/jobs/" ++ id))
unfolding job_url_path join
job_url_path_iff id path = (
  λ h.
      let (valid, built) = >>-eq-ok _ _ h in
      let i = (validate_job_id_iff id).0 valid in
      let (a, b, c) = constants-IsPlain in
      (
        i,
        ground (
          arith,
          built,
          build_url_path_of_plain v2_first (v2_second ∷ jobs_segment ∷ id ∷ [])
              (a, (b, (c, (IsIdentifier-IsPlain id i, tt)))),
        ),
      ),
  λ (i, e).
      let (a, b, c) = constants-IsPlain in
      rw (
        (validate_job_id_iff id).1 i,
        build_url_path_of_plain v2_first (v2_second ∷ jobs_segment ∷ id ∷ [])
            (a, (b, (c, (IsIdentifier-IsPlain id i, tt)))),
        e,
      ),
)
