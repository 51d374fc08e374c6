-- ===== src/Store/Generations/History.antt =====
-- Histories of changes to certificate_generations, each with the clock's reading.
use cert_keeper.Prelude.{ℕ, Text, Option, List, [], ◌∷◌}
use cert_keeper.Store.Schema.{GenerationStatus, GenerationRequest, GenerationArtifact, Db}
use cert_keeper.Store.Generations.{
  create_certificate_generation, update_generation_status, update_generation_artifact,
  delete_generation,
}
use cert_keeper.Store.Generations.Apart.{IsConsistent}
use cert_keeper.Store.Generations.Laws.{
  create-IsConsistent, update_status-IsConsistent, update_artifact-IsConsistent,
  delete-IsConsistent,
}

pub data Change : Type 0 where
  creates : Option GenerationRequest → Change
  sets_status : ℕ → GenerationStatus → Text → Text → Text → Option ℕ → Option ℕ → Change
  sets_artifact : ℕ → GenerationArtifact → Change
  deletes : ℕ → Change

unfoldable pub change : Db → ℕ × Change → Db
change db (now, creates r) = (create_certificate_generation db now r).0
change db
      (now, sets_status id status certificate_ref private_key_ref message not_before not_after) =
    (update_generation_status db now id status certificate_ref private_key_ref message not_before
      not_after).0
change db (now, sets_artifact id a) = (update_generation_artifact db now id a).0
change db (now, deletes id) = (delete_generation db id).0

unfoldable pub change_all : Db → List (ℕ × Change) → Db
change_all db [] = db
change_all db (c ∷ cs) = change_all (change db c) cs

change-IsConsistent : (db : Db) (c : ℕ × Change) → IsConsistent db → IsConsistent (change db c)
unfolding change
change-IsConsistent db (now, creates r) w = create-IsConsistent db now w r
change-IsConsistent db (now, sets_status id status c p message not_before not_after) w =
    update_status-IsConsistent db now id w status c p message not_before not_after
change-IsConsistent db (now, sets_artifact id a) w = update_artifact-IsConsistent db now id w a
change-IsConsistent db (now, deletes id) w = delete-IsConsistent db now id w

-- Whatever the history of changes to consistent rows, the rows' ids differ and have been drawn, at most one
-- generation of a domain is current, and a current one is issued.
pub change_all-IsConsistent :
    (db : Db) (changes : List (ℕ × Change)) → IsConsistent db → IsConsistent (change_all db changes)
unfolding change_all
change_all-IsConsistent db [] w = w
change_all-IsConsistent db (c ∷ cs) w =
    change_all-IsConsistent (change db c) cs (change-IsConsistent db c w)
