-- ===== src/ImageProcessor/Worker/Laws.antt =====
-- image_processor/worker.py: what `process_image` leaves in the tables and in the bucket of the copies.
use filo_j.Prelude.{
  ℕ, String, ◌≡◌, refl, sym, ap, ◌∙◌, subst, true, Option, none, some, map, Result, ok, err, pure,
  lift, arith, if◌then◌else◌, ◌==◌, ◌>>=◌, ◌>>◌, All, select, nat_eq, [], ◌∷◌,
}
use filo_j.Prelude.Rules.{bind-rule, if-rule}
use filo_j.Shared.Errors.{Exn}
use filo_j.Shared.Models.{Job, FileMetaData}
use filo_j.Shared.Values.{Json}
use filo_j.Shared.World.{World, Faults, tick, call}
use filo_j.Shared.World.Laws.{call-then}
use filo_j.Shared.Rows.{edit_job, edit_file, set_job, set_file, first_row}
use filo_j.Shared.Broker.{publish}
use filo_j.Shared.Storage.{processed_bucket, has_object}
use filo_j.ImageProcessor.Rotation.{Pillow}
use filo_j.ImageProcessor.Worker.{
  Libraries, Copy, publish_audit, make_copies, with_status, process_file,
}
use filo_j.ImageProcessor.Worker.Copies.{
  SameTables, SameTables-trans, IsStored, publish_audit-SameTables, six_copies, Makes,
  make_copies-Makes,
}
use filo_j.ImageProcessor.Worker.{text_of, with_file}

module _ (p : Pillow) (lib : Libraries p) (fault : Faults) (k : Option ℕ) where
  -- The one job with the id `k`, and the file that it refers to
  pub record IsNamed (job : Job) (file : FileMetaData) (w : World) : Type 0 where
    pub id : ℕ
    pub named : k ≡ some id
    pub job_found : select (λ (row : Job). nat_eq row.id id) w.jobs ≡ job ∷ []
    pub file_found :
        first_row (select (λ (row : FileMetaData). nat_eq row.id job.file_id) w.files) ≡ some file

  -- How far a run got: nothing was written, or the job `k` was taken up, or it is also done, its file
  -- has moved on and its six copies are there.
  pub data Progress (w w' : World) : Type 0 where
    idle : SameTables w w' → Progress w w'
    taken :
        (job : Job) (file : FileMetaData)
        → IsNamed job file w
        → w'.jobs ≡ map (edit_job job.id (with_status p lib fault "processing")) w.jobs
        → w'.files ≡ w.files
        → Progress w w'
    done :
        (job : Job) (file : FileMetaData)
        → IsNamed job file w
        → w'.jobs
          ≡ map
              (edit_job job.id (with_status p lib fault "completed"))
              (map (edit_job job.id (with_status p lib fault "processing")) w.jobs)
        → w'.files
          ≡ map (edit_file file.id (λ row. record row { bucket = processed_bucket })) w.files
        → All (IsStored w') (six_copies p lib fault file.upload_id)
        → Progress w w'

  -- A step that spares what `Progress` speaks of
  Progress-same :
      (w w1 w2 : World) → Progress w w1 → SameTables w1 w2 → w2.objects ≡ w1.objects → Progress w w2
  Progress-same w w1 w2 (idle same) h o = idle (SameTables-trans w w1 w2 same h)
  Progress-same w w1 w2 (taken job file n jobs files) h o =
      taken job file n (h.0 ∙ jobs) (h.1 ∙ files)
  Progress-same w w1 w2 (done job file n jobs files stored) h o =
      done job file n (h.0 ∙ jobs) (h.1 ∙ files) (
        subst
          (λ objects.
            All (λ (copy : Copy). has_object processed_bucket copy.key objects ≡ true)
              (six_copies p lib fault file.upload_id))
          (sym o) stored)

  audit-objects :
      (job_id : Json) (key action : String) (w : World)
      → (publish_audit p lib fault job_id key action w).1.objects ≡ w.objects
  unfolding publish_audit publish
  audit-objects job_id key action w = ground arith

  pub audit-Progress :
      (job_id : Json) (key action : String) (w w1 : World)
      → Progress w w1
      → Progress w (publish_audit p lib fault job_id key action w1).1
  audit-Progress job_id key action w w1 prog =
      Progress-same w w1 (publish_audit p lib fault job_id key action w1).1 prog
        (publish_audit-SameTables p lib fault job_id key action w1)
        (audit-objects job_id key action w1)

  process_file-Progress :
      (job : Job) (file : FileMetaData) (job_id : Json) (file_key : String) (w : World)
      → IsNamed job file w
      → Progress w (process_file p lib fault job file job_id file_key w).1
  unfolding process_file set_job set_file
  process_file-Progress job file job_id file_key w n =
      let process = with_status p lib fault "processing" in
      let finish = λ (w : World).
        set_file file.id (λ row. record row { bucket = processed_bucket })
          (set_job job.id (with_status p lib fault "completed") w) in
      let tell =
        publish_audit p lib fault job_id "event.image_process.complete" "processing complete" in
      call-then (λ r. Progress w r.1) fault (set_job job.id process)
        (make_copies p lib fault job_id file_key file.upload_id >> (call fault finish >> tell)) w
        (λ _. idle (refl, refl))
        (let w1 = set_job job.id process (tick w) in
          bind-rule (λ r. Progress w r.1) (Makes p lib fault file.upload_id w1)
            (make_copies p lib fault job_id file_key file.upload_id w1)
            (λ _. call fault finish >> tell) w1
            (make_copies-Makes p lib fault job_id file_key file.upload_id w1)
            (λ _ w2 same. taken job file n same.0 same.1)
            (λ _ w2 made.
              call-then (λ r. Progress w r.1) fault finish tell w2
                (λ _. taken job file n made.0.0 made.0.1)
                (audit-Progress job_id _ _ w (finish (tick w2)) (
                  done job file n
                    (ap (map (edit_job job.id (with_status p lib fault "completed"))) made.0.0)
                    (ap (map (edit_file file.id (λ row. record row { bucket = processed_bucket })))
                      made.0.1)
                    made.1))))

  pub with_file-Progress :
      (job : Job) (job_id file_key : Json) (file : Option FileMetaData) (w : World)
      → ((f : FileMetaData) → file ≡ some f → IsNamed job f w)
      → Progress w (with_file p lib fault job job_id file_key file w).1
  with_file-Progress job job_id file_key none w n = idle (refl, refl)
  with_file-Progress job job_id file_key (some file) w n = keyed (text_of p lib fault file_key)
    where
      keyed :
          (x : Result Exn String)
          → Progress w
              ((lift x >>= λ key.
                  if file.upload_id == lib.stem key
                  then process_file p lib fault job file job_id key
                  else pure tt)
                w).1
      keyed (err e) = idle (refl, refl)
      keyed (ok key) =
          if-rule (λ m. Progress w (m w).1) (file.upload_id == lib.stem key)
            (process_file p lib fault job file job_id key) (pure tt)
            (λ _. process_file-Progress job file job_id key w (n file refl))
            (λ _. idle (refl, refl))
