-- ===== src/Certstore/Publish/Written.antt =====
-- What the temporary directory of a publication holds when it takes its name.
use cert_keeper.Prelude.{
  Text, Bool, true, false, ◌==◌, text_eq, ◌||◌, Option, none, some, ok, >>=-eq-ok, >>-eq-ok, List,
  [], ◌∷◌, ◌++◌, ◌≡◌, ◌≢◌, ◌∙◌, refl, sym, ap, if_by, arith, text_beq, text_beq_iff, text_beq_sym,
}
use mathlib.Core.Path.{subst}
use cert_keeper.Prelude.Distinct.{member}
use cert_keeper.Protocol.Manifest.{fixed_file_names}
use cert_keeper.Client.Tree.{Node, file}
use cert_keeper.Client.Read.{lookup}
use cert_keeper.Client.Certificate.{Crypto}
use cert_keeper.Certstore.{
  Checked, DomainDir, World, write_file, sync_temporary, rename_temporary, call,
}
use cert_keeper.Certstore.Manifest.{Formats, GenerationManifest, manifest_file_name}
use cert_keeper.Certstore.Read.{next_revision}
use cert_keeper.Certstore.Build.{
  Staged, staged_content, write_all, prepare, build_generation_manifest,
}

nodes_of_ok :
    (a b : List (Text × Node)) → ◌≡◌ {A = Checked (List (Text × Node))} (ok a) (ok b) → a ≡ b
nodes_of_ok a b h = cc

or_right : (a b : Bool) → a ≡ false → (a || b) ≡ true → b ≡ true
or_right a b h k = ground arith

neither_left : (a b : Bool) → (a || b) ≡ false → a ≡ false
neither_left a b h = ground arith

neither_right : (a b : Bool) → (a || b) ≡ false → b ≡ false
neither_right a b h = ground arith

staged_content-some :
    (name content : Text) (files : List (Text × Text))
    → lookup name files ≡ some content
    → staged_content name files ≡ content
staged_content-some name content files h = rw (h, staged_content) refl

-- Each file that was to be written is there, with its content.
write_all-lookup :
    (w : World) (files : List (Text × Text)) (names : List Text) (es rest : List (Text × Node))
    (name : Text)
    → write_all w files names ≡ ok es
    → member name names ≡ true
    → lookup name (es ++ rest) ≡ some (file (staged_content name files))
unfolding write_all
write_all-lookup w files [] es rest name h k = absurd cc
write_all-lookup w files (n ∷ names) es rest name h k =
    let (written, h1) = >>-eq-ok (call w (write_file n)) _ h in
    let (tail, found, end) = >>=-eq-ok (write_all w files names) _ h1 in
    let same = sym (nodes_of_ok _ es end) in
    rw same (
      if_by (λ (x : Option Node). x ≡ some (file (staged_content name files))) (n == name)
        (λ e. ap (λ (x : Text). some (file (staged_content x files))) ((text_beq_iff n name).0 e))
        (λ e.
          write_all-lookup w files names tail rest name found
            (or_right (name == n) (member name names) (text_beq_sym name n ∙ e) k)))

-- Nothing else is.
write_all-lookup_other :
    (w : World) (files : List (Text × Text)) (names : List Text) (es rest : List (Text × Node))
    (name : Text)
    → write_all w files names ≡ ok es
    → member name names ≡ false
    → lookup name (es ++ rest) ≡ lookup name rest
unfolding write_all
write_all-lookup_other w files [] es rest name h k =
    ap (λ (l : List (Text × Node)). lookup name (l ++ rest)) (sym (nodes_of_ok [] es h))
write_all-lookup_other w files (n ∷ names) es rest name h k =
    let (written, h1) = >>-eq-ok (call w (write_file n)) _ h in
    let (tail, found, end) = >>=-eq-ok (write_all w files names) _ h1 in
    let same = sym (nodes_of_ok _ es end) in
    let other = text_beq_sym n name ∙ neither_left (name == n) (member name names) k in
    rw (same, other)
      (write_all-lookup_other w files names tail rest name found
        (neither_right (name == n) (member name names) k))

-- The fixed files with what was staged, the manifest, and nothing else.
pub record IsWritten (encoded : Text) (files : List (Text × Text)) (contents : List (Text × Node))
    : Type 0 where
  pub fixed :
      (name content : Text)
      → member name fixed_file_names ≡ true
      → lookup name files ≡ some content
      → lookup name contents ≡ some (file content)
  pub described : lookup manifest_file_name contents ≡ some (file (encoded ++ 10 ∷ []))
  pub others :
      (name : Text)
      → member name fixed_file_names ≡ false
      → name ≢ manifest_file_name
      → lookup name contents ≡ none

module _ {Certificate Key : Type 0} (crypto : Crypto Certificate Key)
    (formats : Formats Certificate) where
  pair_of_ok :
      (a b : GenerationManifest × List (Text × Node))
      → ◌≡◌ {A = Checked (GenerationManifest × List (Text × Node))} (ok a) (ok b)
      → a ≡ b
  pair_of_ok a b h = cc

  write_all-IsWritten :
      (w : World) (encoded : Text) (files : List (Text × Text)) (es : List (Text × Node))
      → write_all w files fixed_file_names ≡ ok es
      → IsWritten encoded files (es ++ (manifest_file_name, file (encoded ++ 10 ∷ [])) ∷ [])
  unfolding text_beq
  write_all-IsWritten w encoded files es h = record {
    fixed = λ name content k staged.
        write_all-lookup w files fixed_file_names es _ name h k
        ∙ ap (λ (x : Text). some (file x)) (staged_content-some name content files staged);
    described = write_all-lookup_other w files fixed_file_names es _ manifest_file_name h refl;
    others = λ name k n.
        write_all-lookup_other w files fixed_file_names es _ name h k ∙ unmatched name n;
  }
    where
      unmatched :
          (name : Text)
          → name ≢ manifest_file_name
          → lookup name ((manifest_file_name, file (encoded ++ 10 ∷ [])) ∷ []) ≡ none
      unmatched name n =
          if_by (λ (x : Option Node). x ≡ none) (manifest_file_name == name)
            (λ e. absurd (n (sym ((text_beq_iff manifest_file_name name).0 e)))) (λ _. refl)

  pub prepare-IsWritten :
      (w : World) (domain g : Text) (staged : Staged) (files : List (Text × Text)) (d : DomainDir)
      (p : GenerationManifest × List (Text × Node))
      → prepare crypto formats w domain g staged files d ≡ ok p
      → IsWritten (formats.encode_manifest p.0) files p.1
  unfolding prepare
  prepare-IsWritten w domain g staged files d p h =
      let (r, revised, rest) = >>=-eq-ok (next_revision crypto formats w domain d) _ h in
      let (m, built, h1) =
        >>=-eq-ok (build_generation_manifest crypto formats domain g r staged files) _ rest in
      let (es, found, h2) = >>=-eq-ok (write_all w files fixed_file_names) _ h1 in
      let (described, h3) = >>-eq-ok (call w (write_file manifest_file_name)) _ h2 in
      let (synced, h4) = >>-eq-ok (call w sync_temporary) _ h3 in
      let (renamed, end) = >>-eq-ok (call w rename_temporary) _ h4 in
      subst
        (λ (q : GenerationManifest × List (Text × Node)).
          IsWritten (formats.encode_manifest q.0) files q.1)
        (pair_of_ok _ p end) (write_all-IsWritten w (formats.encode_manifest m) files es found)
