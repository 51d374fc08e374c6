-- ===== src/Certstore/Publish/Latest.antt =====
-- The revision of a generation that is published.
use cert_keeper.Prelude.{
  ℕ, suc, ◌^◌, ◌-◌, ◌≤◌, Text, nat_eq, text_eq, codes, ok, err, ◌>>=◌, List, ◌++◌, All, ◌≡◌, ◌≢◌,
}
use cert_keeper.Client.Certificate.{Crypto}
use cert_keeper.Certstore.{
  StoreFailure, Entry, open_entry, DomainDir, World, Call, entries_of, stat_entry,
  stat_legacy_entry, validate_generation,
}
use cert_keeper.Certstore.Manifest.{Formats, GenerationManifest, load_generation}
use cert_keeper.Client.Tree.{Node}

module _ {Certificate Key : Type 0} (crypto : Crypto Certificate Key)
    (formats : Formats Certificate) (w : World) (domain : Text) where
  module _ (stat : Text → Call) (entries : List (Text × Entry)) where
    -- An entry is a temporary one, has no generation's name, or loads as a generation whose revision
    -- is at most `r`.
    pub data IsWithin (r : ℕ) (name : Text) : Type 0 where
      temporary : (rest : Text) → name ≡ codes ".tmp-" ++ rest → IsWithin r name
      unnamed : (e : StoreFailure) → validate_generation name ≡ err e → IsWithin r name
      loaded :
          (files : List (Text × Node)) (m : GenerationManifest) (contents : List (Text × Text))
          → open_entry w stat name entries ≡ ok files
          → load_generation crypto formats w domain name files ≡ ok (m, contents)
          → m.revision ≤ r
          → IsWithin r name

    -- All entries of a directory are.
    abbrev pub AllWithin : ℕ → List (Text × Entry) → Type 0
    AllWithin r es = All (λ (e : Text × Entry). IsWithin r e.0) es

  -- Every generation of the domain has a revision below `r`.
  pub record IsLatest (d : DomainDir) (r : ℕ) : Type 0 where
    pub greatest : ℕ
    pub next : r ≡ suc greatest
    pub fits : greatest ≢ 2 ^ 64 - 1
    pub releases : AllWithin stat_entry (entries_of d.releases) greatest (entries_of d.releases)
    pub legacy : AllWithin stat_legacy_entry (entries_of d.legacy) greatest (entries_of d.legacy)
