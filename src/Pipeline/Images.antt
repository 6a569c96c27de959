-- ===== src/Pipeline/Images.antt =====
-- api/main.py, security_scanner/worker.py and image_processor/worker.py: a new image from the upload to its
-- copies, when no call fails.
use filo_j.Prelude.{
  ℕ, String, ◌≡◌, refl, sym, ap, subst, ◌∙◌, true, none, some, List, [], ◌∷◌, map, select, nat_eq,
  Result, ok, Exec, arith, eq_refl, ◌==◌, All,
}
use filo_j.Shared.Errors.{Exn}
use filo_j.Shared.Models.{Job, FileMetaData}
use filo_j.Shared.Values.{text, Dict}
use filo_j.Shared.World.{Published, World, tick, quiet}
use filo_j.Shared.Rows.{edit_job, set_job, set_file}
use filo_j.Shared.Storage.{processed_bucket, put_object}
use filo_j.Shared.Message.{decoded}
use filo_j.Api
use filo_j.Api.{UploadFile, DeveloperHeaders}
use filo_j.Api.Quiet.{
  hash, key, flushed_at, row_id, file_id, job_row, file_row, job_id, task, IsNew,
}
use filo_j.SecurityScanner.Frame.{ScanReply, Frame}
use filo_j.SecurityScanner.Worker
use filo_j.SecurityScanner.Worker.{is_clean, is_image}
use filo_j.SecurityScanner.Worker.Quiet.{Answers}
use filo_j.SecurityScanner.Worker.Quiet.{audit as scan_audit}
use filo_j.SecurityScanner.Worker.Verdicts.{
  CanPublish, IsStrip, verdict, image_task, passed_end, on_reply_image,
}
use filo_j.ImageProcessor.Rotation.{Pillow}
use filo_j.ImageProcessor.Worker.{Libraries as ImageLibraries}
use filo_j.ImageProcessor.Worker.{Copy, Verdict, handled, with_status, process_image}
use filo_j.ImageProcessor.Worker.Copies.{IsStored, six_copies}
use filo_j.ImageProcessor.Worker.Quiet.{audit, IsRendered, started, copied-IsStored}
use filo_j.ImageProcessor.Worker.Runs.{rows_done, completed_end, process_image-quiet}
use filo_j.Pipeline.{
  last_task, last_message, statuses, delivered, last_task-append, last_message-append,
  select-append, select-edit_file, select-one_edit,
}
use filo_j.Pipeline.Scan.{
  IsFresh, with_rows, at_answer, at_answer-CanPublish, upload_and_scan, upload_and_scan-Ends,
}
use filo_j.Pipeline.Verdicts.{scanning, marked_as, marked_job}

-- The upload, the scan of what it sent, and the processing of what the scan sent
abbrev pub upload_scan_process :
    (api : Api.Libraries) (lib : Worker.Libraries) (p : Pillow) (images : ImageLibraries p)
    → Exec World Exn ScanReply
    → DeveloperHeaders
    → UploadFile
    → ℕ
    → ℕ
    → Frame
    → Result Exn Verdict × World
upload_scan_process api lib p images scan headers file n m f =
    let w = (upload_and_scan api lib scan headers file n f).1.world in
    process_image p images quiet (delivered m w) w

-- The run returned, the job is one row with the status `completed`, its file is one row that says where
-- the copies are, the copies are there, and the event is the last message.
abbrev pub Completes : ℕ → ℕ → List Copy → Published → Result Exn Verdict × World → Type 0
Completes k file_id copies event (result, w) =
    (result ≡ ok handled)
    × (statuses k w.jobs ≡ "completed" ∷ [])
    × (map (λ (file : FileMetaData). file.bucket) (select (λ file. nat_eq file.id file_id) w.files)
        ≡ processed_bucket ∷ [])
    × All (IsStored w) copies
    × (last_message none w.published ≡ some event)

module _ (api : Api.Libraries) (lib : Worker.Libraries) (p : Pillow) (images : ImageLibraries p)
    (scan : Exec World Exn ScanReply) (reply : ScanReply) (headers : DeveloperHeaders)
    (upload : UploadFile) where
  -- The image processor reads the id of the job as the API writes it, the stem of the key is the digest,
  -- and Pillow makes the copies.
  pub record IsImage (w : World) : Type 0 where
    pub new_row :
        select (λ (row : FileMetaData). nat_eq row.id (file_id api headers upload w)) w.files ≡ []
    pub same_uuid :
        images.parse_uuid (job_id api headers upload w) ≡ some (row_id api headers upload w)
    pub same_stem : (hash api headers upload == images.stem (key api headers upload)) ≡ true
    pub renders : IsRendered p images (key api headers upload)

  module _ (answers : Answers scan reply) (words : IsStrip lib.strip) (n m : ℕ) (f : Frame)
      (new : IsNew api headers upload f.world)
      (fresh : IsFresh api lib scan reply headers upload f.world) (image : IsImage f.world)
      (ready : CanPublish f.world) where
    -- The world when the scanner has passed the image on
    abbrev passed : ℕ → World
    passed calls =
        with_rows api lib scan reply headers upload f.world (passed_end lib words)
          (at_answer api lib scan reply headers upload answers f.world new fresh ready calls)

    abbrev job : Job
    job =
        marked_as api lib scan reply headers upload "clean"
          (scanning api lib scan reply headers upload (job_row api headers upload f.world))

    passed-task :
        (calls : ℕ)
        → last_task [] (passed calls).published ≡ (task api headers upload f.world).payload
    passed-task calls =
        last_task-append []
          (with_rows api lib scan reply headers upload f.world (verdict lib words) "clean" (
            at_answer api lib scan reply headers upload answers f.world new fresh ready
              calls)).published
          (with_rows api lib scan reply headers upload f.world (image_task lib words))
          (scan_audit (text (job_id api headers upload f.world)) "event.scanner.image_queued"
            "image submitted to processing")
          refl refl

    one_job :
        (calls : ℕ)
        → select
            (λ (row : Job). nat_eq row.id (row_id api headers upload f.world))
            (passed calls).jobs
          ≡ job ∷ []
    unfolding set_job
    one_job calls =
        marked_job api lib scan reply headers upload answers words n f new fresh ready "clean"

    its_file :
        (calls : ℕ)
        → select
            (λ (row : FileMetaData). nat_eq row.id (file_id api headers upload f.world))
            (passed calls).files
          ≡ file_row api headers upload f.world ∷ []
    unfolding set_job put_object
    its_file calls =
        select-append (λ row. nat_eq row.id (file_id api headers upload f.world)) f.world.files
          (file_row api headers upload f.world) image.new_row (ground arith)

    processed :
        (calls : ℕ)
        → (calls' : ℕ) × (process_image p images quiet (delivered m (passed calls)) (passed calls)
            ≡ (
              ok handled,
              completed_end p images job
                  (file_row api headers upload f.world)
                  (job_id api headers upload f.world)
                  (key api headers upload)
                  headers.developer_id
                  calls'
                  (passed calls),
            ))
    unfolding set_job put_object
    processed calls =
        let (calls', run) =
          process_image-quiet p images job (file_row api headers upload f.world)
            (job_id api headers upload f.world) (key api headers upload) headers.developer_id
            (passed calls) image.renders ready.to_events
            (ground (arith, eq_refl (key api headers upload))) [] image.same_uuid (one_job calls)
            (its_file calls) image.same_stem m in
        (
          calls',
          ap
                (λ (payload : Dict).
                  process_image p images quiet
                    (record { body = decoded payload; delivery_count = m }) (passed calls))
                (passed-task calls)
              ∙ run,
        )

    completed-Completes :
        (calls calls' : ℕ)
        → Completes
            (row_id api headers upload f.world)
            (file_id api headers upload f.world)
            (six_copies p images quiet (hash api headers upload))
            (audit
              (text (job_id api headers upload f.world))
              "event.image_process.complete"
              "processing complete")
            (
              ok handled,
              completed_end p images job
                  (file_row api headers upload f.world)
                  (job_id api headers upload f.world)
                  (key api headers upload)
                  headers.developer_id
                  calls'
                  (passed calls),
            )
    unfolding set_job set_file put_object
    completed-Completes calls calls' =
        let k = api.new_job_id (flushed_at api headers upload f.world) in
        let status = λ (status : String) (row : Job). with_status p images quiet status row in
        let rows =
          rows_done p images job (file_row api headers upload f.world)
            (job_id api headers upload f.world) (key api headers upload) headers.developer_id calls'
            (passed calls) in
        (
          refl,
          ap (map (λ job. job.status)) (
              select-one_edit k (status "completed")
                (map (edit_job k (status "processing")) (passed calls).jobs)
                (status "processing" job) (λ job. refl)
                (select-one_edit k (status "processing") (passed calls).jobs job (λ job. refl)
                  (one_job calls))),
          ap (map (λ (file : FileMetaData). file.bucket)) (
              select-edit_file (file_id api headers upload f.world)
                (λ row. record row { bucket = processed_bucket }) (passed calls).files
                (λ file. refl)
              ∙ ap (map (λ (row : FileMetaData). record row { bucket = processed_bucket }))
                  (its_file calls)),
          copied-IsStored p images (six_copies p images quiet (hash api headers upload)) (
              started p images (text (job_id api headers upload f.world)) calls'
                (set_job k (status "processing") (tick (tick (tick (passed calls)))))),
          last_message-append none rows.published (
              audit (text (job_id api headers upload f.world)) "event.image_process.complete"
                "processing complete"),
        )

    -- A new image that ClamAV finds clean, with no failing call and Pillow able to make the copies, goes
    -- through the three services: the job ends as `completed`, the row of the file names the bucket of
    -- the copies, all six are there, and the last message is the audit event of the end. The ids and the key
    -- of the upload are new, and the services read an id as the API writes it.
    pub upload_scan_process_completed :
        is_clean reply ≡ true
        → is_image (file_row api headers upload f.world) ≡ true
        → Completes
            (row_id api headers upload f.world)
            (file_id api headers upload f.world)
            (six_copies p images quiet (hash api headers upload))
            (audit
              (text (job_id api headers upload f.world))
              "event.image_process.complete"
              "processing complete")
            (upload_scan_process api lib p images scan headers upload n m f)
    unfolding set_job put_object
    upload_scan_process_completed clean is_img =
        let (calls, returned, world) =
          upload_and_scan-Ends api lib scan reply headers upload answers f.world new fresh ready n f
            refl passed
            (λ calls.
              on_reply_image lib words (job_row api headers upload f.world)
                (file_row api headers upload f.world) (text (job_id api headers upload f.world))
                (key api headers upload) ((task api headers upload f.world).payload)
                (text headers.developer_id) reply
                (at_answer api lib scan reply headers upload answers f.world new fresh ready calls)
                (at_answer-CanPublish api lib scan reply headers upload answers f.world new fresh
                  ready calls)
                clean is_img) in
        let (calls', run) = processed calls in
        subst
          (Completes (row_id api headers upload f.world) (file_id api headers upload f.world)
            (six_copies p images quiet (hash api headers upload))
            (audit (text (job_id api headers upload f.world)) "event.image_process.complete"
              "processing complete"))
          (sym (ap (λ w. process_image p images quiet (delivered m w) w) world ∙ run))
          (completed-Completes calls calls')
