-- ===== src/ImageProcessor/Worker/Runs.antt =====
-- image_processor/worker.py: the whole of `process_image` on the message of an image, when no call fails.
use filo_j.Prelude.{
  ℕ, String, ◌≡◌, ap, ◌∙◌, Bool, true, some, List, [], ◌∷◌, select, nat_eq, ok, Exec, pure, lift,
  catch, arith, if◌then◌else◌, ◌==◌, ◌>>=◌, ◌>>◌,
}
use filo_j.Prelude.Rules.{bind-ok}
use filo_j.Shared.Errors.{Exn}
use filo_j.Shared.Models.{Job, FileMetaData}
use filo_j.Shared.Values.{text, Dict}
use filo_j.Shared.World.{World, tick, call, quiet}
use filo_j.Shared.Rows.{select_one, select_first, first_row, set_job, set_file}
use filo_j.Shared.Message.{decoded}
use filo_j.Shared.Storage.{upload_bucket, processed_bucket, has_object, put_object}
use filo_j.Shared.Quiet.{sent, IsOpen, select_one-quiet}
use filo_j.ImageProcessor.Rotation.{Pillow}
use filo_j.ImageProcessor.Worker.{
  Libraries, Verdict, handled, publish_audit, make_copies, with_status, process_file, with_file,
  with_job, uuid_of, image_block, process_image, on_image_error,
}
use filo_j.ImageProcessor.Worker.Quiet.{
  audit, IsRendered, made, publish_audit-quiet, make_copies-quiet,
}

module _ (p : Pillow) (lib : Libraries p) (job : Job) (file : FileMetaData) (s key d : String) where
  abbrev pub task : Dict
  task = ("job_id", text s) ∷ ("file_hash", text key) ∷ ("developer_id", text d) ∷ []

  -- The world when the copies are made, and at the end
  abbrev pub copies_made : ℕ → World → World
  copies_made calls w =
      made p lib (text s) file.upload_id calls
        (set_job job.id (with_status p lib quiet "processing") (tick (tick (tick w))))

  abbrev pub rows_done : ℕ → World → World
  rows_done calls w =
      set_file file.id (λ row. record row { bucket = processed_bucket })
        (set_job job.id (with_status p lib quiet "completed") (tick (copies_made calls w)))

  abbrev pub completed_end : ℕ → World → World
  completed_end calls w =
      sent (audit (text s) "event.image_process.complete" "processing complete") (rows_done calls w)

  module _ (w : World) (image : IsRendered p lib key) (ready : IsOpen "system.events" w)
      (there : has_object upload_bucket key w.objects ≡ true) where
    process_file-quiet :
        (calls : ℕ) × (process_file p lib quiet job file (text s) key (tick (tick w))
          ≡ (ok tt, completed_end calls w))
    unfolding process_file set_job set_file put_object
    process_file-quiet =
        let w1 = set_job job.id (with_status p lib quiet "processing") (tick (tick (tick w))) in
        let (calls, all) =
          make_copies-quiet p lib (text s) key file.upload_id w1 image ready there in
        let finish = λ (w : World).
          set_file file.id (λ row. record row { bucket = processed_bucket })
            (set_job job.id (with_status p lib quiet "completed") w) in
        let tell =
          publish_audit p lib quiet (text s) "event.image_process.complete" "processing complete" in
        (
          calls,
          bind-ok (make_copies p lib quiet (text s) key file.upload_id w1)
              (λ _. call quiet finish >> tell) w1 (copies_made calls w) tt all
              (publish_audit-quiet p lib (text s) "event.image_process.complete"
                "processing complete" (rows_done calls w) ready),
        )

    module _ (rest : List FileMetaData) (uuid : lib.parse_uuid s ≡ some job.id)
        (one_job : select (λ (row : Job). nat_eq row.id job.id) w.jobs ≡ job ∷ [])
        (its_file : select (λ (row : FileMetaData). nat_eq row.id job.file_id) w.files
          ≡ file ∷ rest)
        (same_hash : (file.upload_id == lib.stem key) ≡ true) where
      image_block-file :
          image_block p lib quiet (text s) (text key) w
          ≡ process_file p lib quiet job file (text s) key (tick (tick w))
      unfolding image_block select_first
      image_block-file =
          ap
            (λ x.
              (lift x >>= λ id.
              select_one quiet (λ w. w.jobs) (λ (row : Job). nat_eq row.id id)
              >>= with_job p lib quiet (text s) (text key))
                w)
            (uuid_known uuid)
          ∙ bind-ok (select_one quiet (λ w. w.jobs) (λ (row : Job). nat_eq row.id job.id) w)
              (with_job p lib quiet (text s) (text key)) w (tick w) (some job)
              (select_one-quiet (λ w. w.jobs) (λ row. nat_eq row.id job.id) w (job ∷ []) one_job)
              (bind-ok
                (select_first quiet (λ w. w.files)
                  (λ (row : FileMetaData). nat_eq row.id job.file_id) (tick w))
                (with_file p lib quiet job (text s) (text key)) (tick w) (tick (tick w)) (some file)
                (ap (λ rows. (ok (first_row rows), tick (tick w))) its_file)
                (ap
                  (λ (b : Bool).
                    (if b then process_file p lib quiet job file (text s) key else pure tt)
                      (tick (tick w)))
                  same_hash))
        where
          uuid_known : lib.parse_uuid s ≡ some job.id → uuid_of p lib quiet (text s) ≡ ok job.id
          uuid_known e = ground (arith, e)

      -- The whole run, on the message that the scanner passes on
      pub process_image-quiet :
          (n : ℕ)
          → (calls : ℕ) × (process_image p lib quiet
                (record { body = decoded task; delivery_count = n })
                w
              ≡ (ok handled, completed_end calls w))
      unfolding process_image
      process_image-quiet n =
          let (calls, e) = process_file-quiet in
          let answer : Exec World Exn Verdict = pure handled in
          (
            calls,
            ap (λ r. (catch (λ (_ : World). r) (on_image_error p lib quiet (text s) n) >> answer) w)
                (image_block-file ∙ e),
          )
