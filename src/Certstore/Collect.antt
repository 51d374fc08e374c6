-- ===== src/Certstore/Collect.antt =====
-- internal/certstore/certstore.go: `GarbageCollect` and `Abort`.
pub mod Spared
pub mod Laws
pub mod Current
use cert_keeper.Prelude.{
  ℕ, zero, suc, ◌-◌, Text, Bool, true, false, not, ◌&&◌, ◌||◌, ◌==◌, nat_eq, text_eq, Option, none,
  some, Result, ok, err, ◌>>=◌, ◌>>◌, refuse, ltb, is_empty, map, filter, List, [], ◌∷◌, ◌++◌,
  if◌then◌else◌,
}
use cert_keeper.Prelude.Distinct.{member}
use cert_keeper.Prelude.Int.{ℤ, pos, pos_part, is_negative}
use cert_keeper.Store.Sql.{order_by, text_before}
use cert_keeper.Client.Tree.{Node}
use cert_keeper.Client.Read.{lookup}
use cert_keeper.Client.Certificate.{Crypto}
use cert_keeper.Certstore.{
  StoreFailure, not_found, unsafe_path, invalid_options, is_current, Checked, Entry, directory,
  symlink, other, Folder, folder, missing, unsafe, DomainDir, Call, stat_entry, read_releases,
  sync_releases, remove_entry, World, call, is_not_found, is_temporary, open_entry, entries_of,
  validate_generation,
}
use cert_keeper.Certstore.Manifest.{
  Formats, GenerationManifest, load_generation, or_invalid, assert_generation_contents,
}
use cert_keeper.Certstore.Read.{domain_paths, current_state}
use cert_keeper.Certstore.Publish.{remove_all}

pub record GcOptions : Type 0 where
  pub keep_recent : ℤ
  pub report_references : List Text
  pub deployment_references : List Text
  pub deployment_reports : List Text  -- the generations of the reports
  pub protected_generations : List Text
  pub protected : List Text

pub record GcResult : Type 0 where
  pub removed : List Text
  pub retained : List Text
  pub failed : List (Text × StoreFailure)

unfoldable pub validate_all : List Text → Checked (Unit {0})
validate_all [] = ok tt
validate_all (id ∷ ids) = do or_invalid (validate_generation id) invalid_options; validate_all ids

-- The generations of the options that have one.
abbrev pub references : GcOptions → List Text
references o =
    o.report_references ++ (o.deployment_references ++ (o.protected_generations ++ o.protected))

abbrev pub reported : GcOptions → List Text
reported o = filter (λ id. not (is_empty id)) o.deployment_reports

-- The keys of `protected`.
unfoldable pub protected_by : GcOptions → Checked (List Text)
protected_by o = do
  refuse (is_negative o.keep_recent) invalid_options
  validate_all (references o)
  validate_all (reported o)
  ok (references o ++ reported o)

-- `currentGeneration`, where there may be none.
abbrev pub current_or_none : Checked Text → Checked (Option Text)
current_or_none (ok generation) = ok (some generation)
current_or_none (err e) = if is_not_found e then ok none else err e

abbrev pub no_result : GcResult
no_result = record { removed = []; retained = []; failed = [] }

pub record Candidate : Type 0 where
  pub generation : Text
  pub revision : ℕ

-- The order of the candidates: the latest revision first.
abbrev pub later_candidate : Candidate → Candidate → Bool
later_candidate a b =
    ltb b.revision a.revision || (a.revision == b.revision && text_before b.generation a.generation)

-- What the loop over the entries has met.
pub record Found : Type 0 where
  pub candidates : List Candidate
  pub result : GcResult

abbrev pub with_failed : Text → StoreFailure → GcResult → GcResult
with_failed id e r = record r { failed = (id, e) ∷ r.failed }

abbrev pub with_retained : Text → GcResult → GcResult
with_retained id r = record r { retained = id ∷ r.retained }

-- `append(result.Retained, generation)` and `append(result.Removed, generation)`.
abbrev pub and_retained : Text → GcResult → GcResult
and_retained id r = record r { retained = r.retained ++ id ∷ [] }

abbrev pub and_removed : Text → GcResult → GcResult
and_removed id r = record r { removed = r.removed ++ id ∷ [] }

-- What is returned: a result, also beside an error.
pub record Collected : Type 0 where
  pub result : GcResult
  pub error : Option StoreFailure

abbrev pub is_symlink : Entry → Bool
is_symlink symlink = true
is_symlink _ = false

module _ {Certificate Key : Type 0} (crypto : Crypto Certificate Key)
    (formats : Formats Certificate) (w : World) where
  abbrev pub after_load :
      Text → Found → Result StoreFailure (GenerationManifest × List (Text × Text)) → Found
  after_load name found (err e) = record found {
    result = with_retained name (with_failed name e found.result);
  }
  after_load name found (ok (m, _)) = record found {
    candidates = record { generation = name; revision = m.revision } ∷ found.candidates;
  }

  abbrev pub after_open : Text → Text → Found → Checked (List (Text × Node)) → Found
  after_open domain name found (err e) = record found { result = with_failed name e found.result }
  after_open domain name found (ok files) =
      after_load name found (load_generation crypto formats w domain name files)

  -- An entry of the directory; one that is no generation is passed over.
  abbrev pub found_entry :
      Text → List (Text × Entry) → Text → Entry → Found → Checked (Unit {0}) → Found
  found_entry domain entries name entry found (err e) = found
  found_entry domain entries name symlink found (ok u) = record found {
    result = with_failed name unsafe_path found.result;
  }
  found_entry domain entries name entry found (ok u) =
      after_open domain name found (open_entry w stat_entry name entries)

  unfoldable pub find_candidates : Text → List (Text × Entry) → List (Text × Entry) → Found
  find_candidates domain entries [] = record { candidates = []; result = no_result }
  find_candidates domain entries ((name, entry) ∷ rest) =
      let found = find_candidates domain entries rest in
      if is_temporary name && not (is_symlink entry)
      then found
      else found_entry domain entries name entry found (validate_generation name)

  abbrev pub is_kept : Option Text → List Text → Text → Bool
  is_kept current protected id =
      elim current [ none ↦ false | some c ↦ id == c ] || member id protected

  abbrev pub after_remove :
      Candidate → Option StoreFailure → DomainDir × GcResult → DomainDir × GcResult
  after_remove c none (d, r) = (remove_all w c.generation d, and_removed c.generation r)
  after_remove c (some e) (d, r) =
      (remove_all w c.generation d, and_retained c.generation (with_failed c.generation e r))

  abbrev pub retain : Candidate → DomainDir × GcResult → DomainDir × GcResult
  retain c (d, r) = (d, and_retained c.generation r)

  abbrev pub sweep_one :
      Option Text → List Text → Candidate → DomainDir × GcResult → DomainDir × GcResult
  sweep_one current protected c s =
      if is_kept current protected c.generation
      then retain c s
      else after_remove c (w.fails (remove_entry c.generation)) s

  -- The loop over the candidates; `keep` of them are still to be kept.
  unfoldable pub sweep :
      Option Text → List Text → ℕ → List Candidate → DomainDir × GcResult → DomainDir × GcResult
  sweep current protected keep [] s = s
  sweep current protected (suc keep) (c ∷ cs) s = sweep current protected keep cs (retain c s)
  sweep current protected zero (c ∷ cs) s =
      sweep current protected zero cs (sweep_one current protected c s)

  abbrev pub sorted_result : GcResult → GcResult
  sorted_result r = record r {
    removed = order_by text_before r.removed;
    retained = order_by text_before r.retained;
  }

  abbrev pub synced : DomainDir × GcResult → Option StoreFailure → DomainDir × Collected
  synced (d, r) none = (d, record { result = sorted_result r; error = none })
  synced (d, r) (some e) = (d, record { result = r; error = some e })

  -- `syncDirectory` is called after a removal.
  abbrev pub sync_error : List Text → Option StoreFailure
  sync_error [] = none
  sync_error (id ∷ ids) = w.fails sync_releases

  abbrev pub sync_swept : DomainDir × GcResult → DomainDir × Collected
  sync_swept s = synced s (sync_error s.1.removed)

  -- What is known before the first change: the protected ids, the current one, and the entries.
  pub record Plan : Type 0 where
    pub protected : List Text
    pub current : Option Text
    pub found : Found

  unfoldable pub listed : Text → Folder → Checked Found
  listed domain missing = ok (record { candidates = []; result = no_result })
  listed domain unsafe = err unsafe_path
  listed domain (folder entries) = do
    call w read_releases
    ok (find_candidates domain entries entries)

  unfoldable pub plan_collection : Text → GcOptions → DomainDir → Checked Plan
  plan_collection domain o d = do
    protected ← protected_by o
    safe ← domain_paths w domain d
    current ← current_or_none (current_state crypto formats w safe d >>= λ found. ok found.0)
    found ← listed domain d.releases
    ok (record { protected = protected; current = current; found = found })

  unfoldable pub collected : GcOptions → DomainDir → Checked Plan → DomainDir × Collected
  collected o d (err e) = (d, record { result = no_result; error = some e })
  collected o d (ok plan) = sync_swept (
      sweep plan.current plan.protected (pos_part o.keep_recent)
        (order_by later_candidate plan.found.candidates) (d, plan.found.result))

  unfoldable pub garbage_collect : Text → GcOptions → DomainDir → DomainDir × Collected
  garbage_collect domain o d = collected o d (plan_collection domain o d)

  -- The checks of `Abort`.
  unfoldable pub check_abort : Text → Text → DomainDir → Checked (Unit {0})
  check_abort domain generation d = do
    validate_generation generation
    safe ← domain_paths w domain d
    current ← current_or_none (current_state crypto formats w safe d >>= λ found. ok found.0)
    refuse (elim current [ none ↦ false | some c ↦ c == generation ]) is_current
    files ← open_entry w stat_entry generation (entries_of d.releases)
    assert_generation_contents w generation files

  abbrev pub after_abort :
      DomainDir → Text → Checked (Unit {0}) → Option StoreFailure → DomainDir × Checked (Unit {0})
  after_abort d generation (err e) r = (d, err e)
  after_abort d generation (ok u) (some e) = (remove_all w generation d, err e)
  after_abort d generation (ok u) none = (remove_all w generation d, call w sync_releases)

  unfoldable pub abort : Text → Text → DomainDir → DomainDir × Checked (Unit {0})
  abort domain generation d =
      after_abort d generation (check_abort domain generation d) (w.fails (remove_entry generation))
