-- ===== src/SecurityScanner/Worker/Ambiguity.antt =====
-- security_scanner/worker.py: a key that two rows of `file_metadata` have, which is what two
-- developers get who upload the same file.
use filo_j.Prelude.{
  ℕ, String, ◌≡◌, ap, ◌∙◌, none, some, List, [], ◌∷◌, select, nat_eq, ◌==◌, Result, ok, err, Exec,
  lift, modify, ◌>>=◌, ◌>>◌, arith,
}
use filo_j.Shared.Errors.{Exn, exn, multiple_results_found}
use filo_j.Shared.Models.{Job, FileMetaData}
use filo_j.Shared.Values.{text, Dict}
use filo_j.Shared.World.{World, Faults, tick}
use filo_j.Shared.Rows.{one_or_none, select_one, set_job}
use filo_j.SecurityScanner.Frame.{ScanReply, Frame, on_world}
use filo_j.SecurityScanner.Worker.{Libraries, uuid_of, scan_found, scan_job, scan_block}

abbrev no_fault : Faults
no_fault n = none

module _ (lib : Libraries) (scan : Exec World Exn ScanReply) where
  abbrev Refused : Result Exn (Unit {0}) → Type 0
  Refused r = r ≡ err (exn multiple_results_found "Multiple rows were found")

  second_query :
      (s key : String) (payload : Dict) (job : Job) (a b : FileMetaData)
      (rest rows : List FileMetaData) (f : Frame)
      → rows ≡ a ∷ b ∷ rest
      → Refused
          ((on_world (λ w. (one_or_none rows, tick w))
              >>= scan_found lib no_fault scan job (text s) key payload)
            f).0
  second_query s key payload job a b rest rows f e =
      ap
        (λ rows.
          ((on_world (λ w. (one_or_none rows, tick w))
              >>= scan_found lib no_fault scan job (text s) key payload)
            f).0)
        e

  first_query :
      (s key : String) (payload : Dict) (job : Job) (a b : FileMetaData) (rest : List FileMetaData)
      (rows : List Job) (f : Frame)
      → rows ≡ job ∷ []
      → select (λ (file : FileMetaData). file.storage_location == key) f.world.files ≡ a ∷ b ∷ rest
      → Refused
          ((on_world (λ w. (one_or_none rows, tick w)) >>= λ job.
              modify (λ f. record f { job = some job })
              >> scan_job lib no_fault scan (text s) (text key) payload job)
            f).0
  unfolding select_one set_job
  first_query s key payload job a b rest rows f e found =
      ap
        (λ rows.
          ((on_world (λ w. (one_or_none rows, tick w)) >>= λ job.
          modify (λ f. record f { job = some job })
          >> scan_job lib no_fault scan (text s) (text key) payload job)
            f).0)
        e
      ∙ second_query s key payload job a b rest _ _ found

  -- If no call fails, the job exists and two rows have the key of its file, the block of
  -- `job_transaction` raises `MultipleResultsFound`: ClamAV never sees the file.
  pub scan_block_ambiguous :
      (s key : String) (id : ℕ) (payload : Dict) (f : Frame) (job : Job) (a b : FileMetaData)
      (rest : List FileMetaData)
      → lib.parse_uuid s ≡ some id
      → select (λ (job : Job). nat_eq job.id id) f.world.jobs ≡ job ∷ []
      → select (λ (file : FileMetaData). file.storage_location == key) f.world.files ≡ a ∷ b ∷ rest
      → (scan_block lib no_fault scan (text s) (text key) payload f).0
        ≡ err (exn multiple_results_found "Multiple rows were found")
  unfolding scan_block select_one set_job
  scan_block_ambiguous s key id payload f job a b rest hid hjob hfile =
      ap
        (λ x.
          ((lift x >>= λ id.
          on_world (select_one no_fault (λ w. w.jobs) (λ job. nat_eq job.id id)) >>= λ job.
          modify (λ f. record f { job = some job })
          >> scan_job lib no_fault scan (text s) (text key) payload job)
            f).0)
        (uuid_known hid)
      ∙ first_query s key payload job a b rest _ f hjob hfile
    where
      uuid_known : lib.parse_uuid s ≡ some id → uuid_of lib no_fault (text s) ≡ ok id
      uuid_known e = ground (arith, e)
